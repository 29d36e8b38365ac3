-- ===== src/Libvirt/Names.antt =====
-- `SanitizeLibvirtName` in internal/libvirt/hypervisor.go.
use casper_cloud.Prelude.{
  ℕ, zero, suc, Bool, ◌==◌, ◌&&◌, ◌||◌, ltb, leb, [], ◌∷◌, Text, codes, trim, is_empty, length,
  if◌then◌else◌,
}

-- The points that stay: letters, digits, '-' and '_'.
unfoldable pub is_name_char : ℕ → Bool
is_name_char c =
    (leb b'a' c && leb c b'z')
    || (leb b'A' c && leb c b'Z')
    || (leb b'0' c && leb c b'9')
    || c == b'-'
    || c == b'_'

unfoldable pub name_char : ℕ → ℕ
unfolding is_name_char
name_char c = if is_name_char c then c else b'-'

unfoldable pub name_chars : Text → Text
unfolding name_char
name_chars [] = []
name_chars (c ∷ s) = name_char c ∷ name_chars s

abbrev pub is_dash : ℕ → Bool
is_dash c = c == b'-'

-- `out[:200]`; all points are ASCII here, so they are the bytes.
unfoldable pub first : ℕ → Text → Text
first zero s = []
first (suc n) [] = []
first (suc n) (c ∷ s) = c ∷ first n s

abbrev pub max_name : ℕ
max_name = 200

unfoldable pub sanitize_libvirt_name : Text → Text
unfolding name_chars first trim
sanitize_libvirt_name name =
    let out = trim is_dash (name_chars name) in
    if is_empty out
    then codes "instance"
    else if ltb max_name (length out)
    then first max_name out
    else out
