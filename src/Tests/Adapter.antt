-- ===== src/Tests/Adapter.antt =====
-- The functions of the libvirt adapter at concrete texts.
use casper_cloud.Prelude.{
  ◌≡◌, ◌≢◌, ◌≤◌, ◌<◌, refl, true, false, none, some, [], ◌∷◌, ◌++◌, Text, codes, ℕ, is_empty,
  length, arith, All,
}
use casper_cloud.Libvirt.Disks.{next_virtio_data_disk_target}
use casper_cloud.Libvirt.Targets.{
  target_of, Occurs, next_virtio_data_disk_target_free, next_virtio_data_disk_target_exhausted,
}
use casper_cloud.Libvirt.Names.{sanitize_libvirt_name}
use casper_cloud.Libvirt.Bounds.{IsName, sanitize_libvirt_name-IsName}
use casper_cloud.Libvirt.Escape.{xml_escape_attr, escape_snapshot_xml_text}
use casper_cloud.Libvirt.Escaped.{
  has, encode, attr_entity, text_entity, has-xml_escape_attr, xml_escape_attr-encode,
  escape_snapshot_xml_text-encode,
}

abbrev two_disks : Text
two_disks = codes "<target dev='vda' bus='virtio'/><target dev='vdb' bus='virtio'/>"

target_of_two_disks : next_virtio_data_disk_target two_disks ≡ some (codes "vdc")
unfolding next_virtio_data_disk_target casper_cloud.Prelude.exists
target_of_two_disks = refl

next_virtio_data_disk_target_free_example :
    (c : ℕ) × (codes "vdc" ≡ b'v' ∷ b'd' ∷ c ∷ [])
    × (b'b' ≤ c)
    × (c ≤ b'z')
    × (¬ Occurs two_disks c)
    × ((k : ℕ) → b'b' ≤ k → k < c → Occurs two_disks k)
next_virtio_data_disk_target_free_example =
    next_virtio_data_disk_target_free two_disks (codes "vdc") target_of_two_disks

sanitize_libvirt_name-IsName_example :
    (is_empty (sanitize_libvirt_name (codes " web 1/")) ≡ false)
    × (length (sanitize_libvirt_name (codes " web 1/")) ≤ 200)
    × IsName (sanitize_libvirt_name (codes " web 1/"))
sanitize_libvirt_name-IsName_example = sanitize_libvirt_name-IsName (codes " web 1/")

sanitized_name : sanitize_libvirt_name (codes " web 1/") ≡ codes "web-1"
unfolding sanitize_libvirt_name
sanitized_name = refl

xml_escape_attr-encode_example :
    xml_escape_attr (codes "/a'&b") ≡ encode attr_entity (codes "/a'&b")
xml_escape_attr-encode_example = xml_escape_attr-encode (codes "/a'&b")

escape_snapshot_xml_text-encode_example :
    escape_snapshot_xml_text (codes "<a&b>") ≡ encode text_entity (codes "<a&b>")
escape_snapshot_xml_text-encode_example = escape_snapshot_xml_text-encode (codes "<a&b>")

has-xml_escape_attr_example :
    (has b'<' (xml_escape_attr (codes "/a'<b")) ≡ false)
    × (has b'>' (xml_escape_attr (codes "/a'<b")) ≡ false)
    × (has b'"' (xml_escape_attr (codes "/a'<b")) ≡ false)
    × (has b'\'' (xml_escape_attr (codes "/a'<b")) ≡ false)
has-xml_escape_attr_example = has-xml_escape_attr (codes "/a'<b")

abbrev all_letters : Text
all_letters = codes "bcdefghijklmnopqrstuvwxyz"

abbrev targets_of : Text → Text
targets_of [] = []
targets_of (c ∷ s) = target_of c ++ targets_of s

no_target_left : next_virtio_data_disk_target (targets_of all_letters) ≡ none
unfolding next_virtio_data_disk_target casper_cloud.Prelude.exists
no_target_left = refl

next_virtio_data_disk_target_exhausted_example : Occurs (targets_of all_letters) b'q'
next_virtio_data_disk_target_exhausted_example =
    next_virtio_data_disk_target_exhausted (targets_of all_letters) no_target_left b'q'
      (omega arith) (omega arith)
