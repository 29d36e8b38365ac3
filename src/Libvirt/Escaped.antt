-- ===== src/Libvirt/Escaped.antt =====
-- What `xmlEscapeAttr` and `escapeSnapshotXMLText` give has no character that ends an attribute or a
-- text of XML.
use casper_cloud.Prelude.{
  ◌≡◌, refl, sym, ℕ, Bool, false, [], ◌∷◌, ◌++◌, Text, ◌==◌, exists, codes, arith, if◌then◌else◌,
}
use casper_cloud.Libvirt.Escape.{replace_all, xml_escape_attr, escape_snapshot_xml_text}

-- The entity of a point in an attribute, and in a text that is not quoted by apostrophes.
unfoldable pub attr_entity : ℕ → Text
attr_entity c =
    if c == b'&'
    then codes "&amp;"
    else if c == b'\''
    then codes "&apos;"
    else if c == b'"'
    then codes "&quot;"
    else if c == b'<'
    then codes "&lt;"
    else if c == b'>'
    then codes "&gt;"
    else c ∷ []

unfoldable pub text_entity : ℕ → Text
text_entity c =
    if c == b'&'
    then codes "&amp;"
    else if c == b'<'
    then codes "&lt;"
    else if c == b'>'
    then codes "&gt;"
    else if c == b'"'
    then codes "&quot;"
    else c ∷ []

-- Each point by its entity, in one pass.
unfoldable pub encode : (ℕ → Text) → Text → Text
encode entity [] = []
encode entity (c ∷ s) = entity c ++ encode entity s

-- The replacements one after another are one pass that puts an entity for each point.
pub xml_escape_attr-encode : (s : Text) → xml_escape_attr s ≡ encode attr_entity s
unfolding xml_escape_attr replace_all encode attr_entity
xml_escape_attr-encode [] = refl
xml_escape_attr-encode (c ∷ s) = rw (sym (xml_escape_attr-encode s)) (ground arith)

-- The same of the text of a snapshot.
pub escape_snapshot_xml_text-encode : (s : Text) → escape_snapshot_xml_text s ≡ encode text_entity s
unfolding escape_snapshot_xml_text replace_all encode text_entity
escape_snapshot_xml_text-encode [] = refl
escape_snapshot_xml_text-encode (c ∷ s) =
    rw (sym (escape_snapshot_xml_text-encode s)) (ground arith)

-- Whether the text has the point.
abbrev pub has : ℕ → Text → Bool
has k s = exists (λ x. x == k) s

has-++ : (k : ℕ) (s t : Text) → has k s ≡ false → has k t ≡ false → has k (s ++ t) ≡ false
unfolding exists
has-++ k [] t h e = e
has-++ k (x ∷ s) t h e = ground (arith, has-++ k s t)

has-encode :
    (k : ℕ) (entity : ℕ → Text)
    → ((c : ℕ) → has k (entity c) ≡ false)
    → (s : Text) → has k (encode entity s) ≡ false
unfolding encode exists
has-encode k entity h [] = refl
has-encode k entity h (c ∷ s) =
    has-++ k (entity c) (encode entity s) (h c) (has-encode k entity h s)

-- Nothing in the result ends the attribute or opens an element: it has no '<', '>', '"' or '\''.
pub has-xml_escape_attr :
    (s : Text)
    → (has b'<' (xml_escape_attr s) ≡ false)
      × (has b'>' (xml_escape_attr s) ≡ false)
      × (has b'"' (xml_escape_attr s) ≡ false)
      × (has b'\'' (xml_escape_attr s) ≡ false)
unfolding attr_entity exists
has-xml_escape_attr s = rw (xml_escape_attr-encode s) (
  has-encode b'<' attr_entity (λ c. ground arith) s,
  has-encode b'>' attr_entity (λ c. ground arith) s,
  has-encode b'"' attr_entity (λ c. ground arith) s,
  has-encode b'\'' attr_entity (λ c. ground arith) s,
)
