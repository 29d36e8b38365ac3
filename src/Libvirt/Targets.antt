-- ===== src/Libvirt/Targets.antt =====
-- The disk that `NextVirtioDataDiskTarget` picks is free, and the first that is.
use casper_cloud.Prelude.{
  ◌≡◌, ◌∙◌, refl, ap, subst, sym, ◌==◌, ==_eq, leb, ◌&&◌, ℕ, zero, suc, ◌+◌, ◌≤◌, ◌<◌, true, false,
  Option, none, some, List, [], ◌∷◌, ◌++◌, Text, exists, cut_prefix, some-injective, arith,
  Bool-cases, inl, inr,
}
use casper_cloud.Libvirt.Disks.{
  target_open, letter_quote, match_tail, match_target, add_match, used_letters, is_used,
  next_letter, target_name, next_virtio_data_disk_target,
}

-- The letters from `r` that were tried before `c` are used.
abbrev pub AllUsed : List ℕ → ℕ → ℕ → Type 0
AllUsed used r c = (k : ℕ) → r ≤ k → k < c → is_used used k ≡ true

next_letter-some :
    (n r c : ℕ) (used : List ℕ)
    → next_letter n r used ≡ some c
    → (r ≤ c) × (c < r + n) × (is_used used c ≡ false) × AllUsed used r c
unfolding next_letter
next_letter-some zero r c used e = ground arith
next_letter-some (suc n) r c used e = elim (Bool-cases (is_used used r)) [
  | inl t ↦
      let (lo, hi, free, before) = next_letter-some n (r + 1) c used (rw t at e) in
      (omega arith, omega arith, free, λ k a b. grind (arith, t, before k))
  | inr t ↦ ground arith
]

next_letter-none : (n r : ℕ) (used : List ℕ) → next_letter n r used ≡ none → AllUsed used r (r + n)
unfolding next_letter
next_letter-none zero r used e k a b = ground arith
next_letter-none (suc n) r used e k a b = elim (Bool-cases (is_used used r)) [
  | inl t ↦ grind (arith, t, next_letter-none n (r + 1) used (rw t at e) k)
  | inr t ↦ ground arith
]

-- `<target dev='vdX'`, with the letter X.
abbrev pub target_of : ℕ → Text
target_of c = target_open ++ c ∷ b'\'' ∷ []

is_used-add_match :
    (o : Option ℕ) (c : ℕ) (used : List ℕ)
    → is_used used c ≡ true
    → is_used (add_match o used) c ≡ true
unfolding exists
is_used-add_match none c used h = h
is_used-add_match (some x) c used h = ground arith

-- A target anywhere in the text is found.
used_letters-target_of :
    (before after : Text) (c : ℕ)
    → b'a' ≤ c
    → c ≤ b'z'
    → is_used (used_letters (before ++ target_of c ++ after)) c ≡ true
unfolding used_letters match_target cut_prefix exists
used_letters-target_of [] after c lo hi = ground arith
used_letters-target_of (x ∷ before) after c lo hi =
    is_used-add_match _ c _ (used_letters-target_of before after c lo hi)

-- The text `<target dev='vdX'`, with the letter, is in the XML.
abbrev pub Occurs : Text → ℕ → Type 0
Occurs xml c = (before : Text) × (after : Text) × (xml ≡ before ++ target_of c ++ after)

cut_prefix-append : (p s t : Text) → cut_prefix p s ≡ some t → s ≡ p ++ t
unfolding cut_prefix
cut_prefix-append [] s t e = some-injective s t e
cut_prefix-append (x ∷ p) [] t e = ground arith
cut_prefix-append (x ∷ p) (y ∷ s) t e = elim (Bool-cases (x == y)) [
  | inl u ↦ rw (==_eq x y u) (ap (λ z. y ∷ z) (cut_prefix-append p s t (rw u at e)))
  | inr u ↦ ground (arith, (rw u at e))
]

letter_quote-some :
    (s : Text) (c : ℕ) → letter_quote s ≡ some c → (after : Text) × (s ≡ c ∷ b'\'' ∷ after)
letter_quote-some [] c e = ground arith
letter_quote-some (x ∷ []) c e = ground arith
letter_quote-some (x ∷ q ∷ s) c e = elim (Bool-cases (leb b'a' x && leb x b'z' && q == b'\'')) [
  | inl t ↦
      let quote : q ≡ b'\'' = ==_eq q b'\'' (ground arith) in
      (s, rw (quote, some-injective x c (rw t at e)) refl)
  | inr t ↦ ground (arith, (rw t at e))
]

-- A match is at the text of its letter.
match_target-some :
    (s : Text) (c : ℕ) → match_target s ≡ some c → (after : Text) × (s ≡ target_of c ++ after)
unfolding match_target
match_target-some s c e = go (cut_prefix target_open s) refl e
  where
    go :
        (o : Option Text)
        → cut_prefix target_open s ≡ o
        → match_tail o ≡ some c
        → (after : Text) × (s ≡ target_of c ++ after)
    go none k m = ground arith
    go (some t) k m =
        let (after, tail) = letter_quote-some t c m in
        (after, cut_prefix-append target_open s t k ∙ ap (λ z. target_open ++ z) tail)

-- Nothing but a target in the text is found.
used_letters-Occurs : (xml : Text) (c : ℕ) → is_used (used_letters xml) c ≡ true → Occurs xml c
unfolding used_letters exists
used_letters-Occurs [] c e = ground arith
used_letters-Occurs (x ∷ s) c e = go (used_letters-Occurs s c) (match_target (x ∷ s)) refl e
  where
    later : Occurs s c → Occurs (x ∷ s) c
    later (before, after, same) = (x ∷ before, after, ap (λ z. x ∷ z) same)

    go :
        (is_used (used_letters s) c ≡ true → Occurs s c)
        → (o : Option ℕ) → match_target (x ∷ s) ≡ o
        → is_used (add_match o (used_letters s)) c ≡ true
        → Occurs (x ∷ s) c
    go rest none k e' = later (rest e')
    go rest (some l) k e' = elim (Bool-cases (l == c)) [
      | inl t ↦
          let (after, same) = match_target-some (x ∷ s) l k in
          ([], after, subst (λ m. x ∷ s ≡ target_of m ++ after) (==_eq l c t) same)
      | inr t ↦ later (rest (rw t at e'))
    ]

target_name-some :
    (o : Option ℕ) (target : Text)
    → target_name o ≡ some target
    → (c : ℕ) × (o ≡ some c) × (target ≡ b'v' ∷ b'd' ∷ c ∷ [])
target_name-some none target e = ground arith
target_name-some (some c) target e = (c, refl, some-injective _ _ (sym e))

target_name-none : (o : Option ℕ) → target_name o ≡ none → o ≡ none
target_name-none none e = refl
target_name-none (some c) e = ground arith

-- A target that is picked is "vd" and a letter from b to z; the text `<target dev='vdX'` with this
-- letter is nowhere in the XML, and with every earlier letter from b on it is there.
pub next_virtio_data_disk_target_free :
    (xml target : Text)
    → next_virtio_data_disk_target xml ≡ some target
    → (c : ℕ) × (target ≡ b'v' ∷ b'd' ∷ c ∷ [])
      × (b'b' ≤ c)
      × (c ≤ b'z')
      × (¬ Occurs xml c)
      × ((k : ℕ) → b'b' ≤ k → k < c → Occurs xml k)
unfolding next_virtio_data_disk_target
next_virtio_data_disk_target_free xml target e =
    let (c, found, named) = target_name-some _ target e in
    let (lo, hi, free, before) = next_letter-some 25 b'b' c _ found in
    (
      c,
      named,
      lo,
      omega arith,
      (λ (l, r, same).
          ground (arith, used_letters-target_of l r c (omega arith) (omega arith), same, free)),
      (λ k a b. used_letters-Occurs xml k (before k a b)),
    )

-- It fails only when the text `<target dev='vdX'` is in the XML with every letter from b to z.
pub next_virtio_data_disk_target_exhausted :
    (xml : Text)
    → next_virtio_data_disk_target xml ≡ none
    → (c : ℕ) → b'b' ≤ c
    → c ≤ b'z'
    → Occurs xml c
unfolding next_virtio_data_disk_target
next_virtio_data_disk_target_exhausted xml e c lo hi =
    used_letters-Occurs xml c (next_letter-none 25 b'b' _ (target_name-none _ e) c lo (omega arith))
