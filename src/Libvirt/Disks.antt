-- ===== src/Libvirt/Disks.antt =====
-- internal/libvirt/virtio_target.go: the next free disk of a domain. A domain's XML is read by a
-- regular expression; `used` is the list of the letters that it finds.
use casper_cloud.Prelude.{
  ℕ, zero, suc, Bool, ◌==◌, ◌+◌, Option, none, some, List, [], ◌∷◌, Text, exists, cut_prefix, leb,
  ◌&&◌, codes, if◌then◌else◌,
}

-- `<target dev='`
abbrev pub target_open : Text
target_open = codes "<target dev='vd"

-- The letter of `[a-z]'` at the head of a text.
abbrev pub letter_quote : Text → Option ℕ
letter_quote [] = none
letter_quote (c ∷ []) = none
letter_quote (c ∷ q ∷ s) = if leb b'a' c && leb c b'z' && q == b'\'' then some c else none

abbrev pub match_tail : Option Text → Option ℕ
match_tail none = none
match_tail (some s) = letter_quote s

-- A match of `vdTargetRE` at the head of a text.
unfoldable pub match_target : Text → Option ℕ
unfolding cut_prefix
match_target s = match_tail (cut_prefix target_open s)

abbrev pub add_match : Option ℕ → List ℕ → List ℕ
add_match none ls = ls
add_match (some c) ls = c ∷ ls

-- `FindAllStringSubmatch`. Two matches cannot overlap, since none begins inside another.
unfoldable pub used_letters : Text → List ℕ
unfolding match_target
used_letters [] = []
used_letters (c ∷ s) = add_match (match_target (c ∷ s)) (used_letters s)

abbrev pub is_used : List ℕ → ℕ → Bool
is_used used r = exists (λ c. c == r) used

-- `for r := 'b'; r <= 'z'; r++`, with the rounds that are left.
unfoldable pub next_letter : ℕ → ℕ → List ℕ → Option ℕ
next_letter zero r used = none
next_letter (suc n) r used =
    let rest = next_letter n (r + 1) used in if is_used used r then rest else some r

abbrev pub target_name : Option ℕ → Option Text
target_name none = none
target_name (some c) = some (b'v' ∷ b'd' ∷ c ∷ [])

-- `NextVirtioDataDiskTarget`; `none` is its error.
unfoldable pub next_virtio_data_disk_target : Text → Option Text
unfolding used_letters next_letter
next_virtio_data_disk_target xml = target_name (next_letter 25 b'b' (used_letters xml))
