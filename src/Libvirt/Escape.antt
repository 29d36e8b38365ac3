-- ===== src/Libvirt/Escape.antt =====
-- `escapeSnapshotXMLText` and `xmlEscapeAttr`: internal/libvirt/snapshots.go and volume_attach.go.
use casper_cloud.Prelude.{ℕ, ◌==◌, [], ◌∷◌, ◌++◌, Text, codes, if◌then◌else◌}

-- `strings.ReplaceAll(s, c, by)`, where the text that is replaced is one point.
unfoldable pub replace_all : ℕ → Text → Text → Text
replace_all c by [] = []
replace_all c by (x ∷ s) = if x == c then by ++ replace_all c by s else x ∷ replace_all c by s

unfoldable pub xml_escape_attr : Text → Text
unfolding replace_all
xml_escape_attr s = replace_all b'>' (codes "&gt;") (
    replace_all b'<' (codes "&lt;") (
      replace_all b'"' (codes "&quot;")
        (replace_all b'\'' (codes "&apos;") (replace_all b'&' (codes "&amp;") s))))

unfoldable pub escape_snapshot_xml_text : Text → Text
unfolding replace_all
escape_snapshot_xml_text s = replace_all b'"' (codes "&quot;") (
    replace_all b'>' (codes "&gt;")
      (replace_all b'<' (codes "&lt;") (replace_all b'&' (codes "&amp;") s)))
