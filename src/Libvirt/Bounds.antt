-- ===== src/Libvirt/Bounds.antt =====
-- What `SanitizeLibvirtName` gives is a name that libvirt takes: not empty, at most 200 points, all of
-- them letters, digits, '-' or '_'.
use casper_cloud.Prelude.{
  ◌≡◌, refl, ℕ, zero, suc, ◌≤◌, Bool, true, false, [], ◌∷◌, Text, All, length, trim, trim_left,
  reverse_aux, is_empty, arith, Bool-cases, inl, inr, if◌then◌else◌, ltb, codes,
}
use casper_cloud.Libvirt.Names.{
  is_name_char, name_char, name_chars, is_dash, first, max_name, sanitize_libvirt_name,
}

abbrev pub IsName : Text → Type 0
IsName = All (λ c. is_name_char c ≡ true)

name_char-IsName : (c : ℕ) → is_name_char (name_char c) ≡ true
unfolding name_char is_name_char
name_char-IsName c = ground arith

name_chars-IsName : (s : Text) → IsName (name_chars s)
unfolding name_chars
name_chars-IsName [] = tt
name_chars-IsName (c ∷ s) = (name_char-IsName c, name_chars-IsName s)

length-first : (n : ℕ) (s : Text) → length (first n s) ≤ n
unfolding first
length-first zero s = omega arith
length-first (suc n) [] = omega arith
length-first (suc n) (c ∷ s) = omega (arith, length-first n s)

first-IsName : (n : ℕ) (s : Text) → IsName s → IsName (first n s)
unfolding first
first-IsName zero s h = tt
first-IsName (suc n) [] h = tt
first-IsName (suc n) (c ∷ s) h = (h.0, first-IsName n s h.1)

trim_left-IsName : (p : ℕ → Bool) (s : Text) → IsName s → IsName (trim_left p s)
unfolding trim_left
trim_left-IsName p [] h = tt
trim_left-IsName p (c ∷ s) h = elim (Bool-cases (p c)) [
  | inl t ↦ rw t (trim_left-IsName p s h.1)
  | inr t ↦ rw t h
]

reverse_aux-IsName : (s r : Text) → IsName s → IsName r → IsName (reverse_aux s r)
reverse_aux-IsName [] r h k = k
reverse_aux-IsName (c ∷ s) r h k = reverse_aux-IsName s (c ∷ r) h.1 (h.0, k)

trim-IsName : (p : ℕ → Bool) (s : Text) → IsName s → IsName (trim p s)
unfolding trim
trim-IsName p s h =
    reverse_aux-IsName _ []
      (trim_left-IsName p _ (reverse_aux-IsName _ [] (trim_left-IsName p s h) tt)) tt

-- Whatever the name of an instance, the name of its domain is not empty, has 200 points at most, and
-- each point is a letter or a digit of ASCII, '-' or '_'.
pub sanitize_libvirt_name-IsName :
    (name : Text)
    → (is_empty (sanitize_libvirt_name name) ≡ false)
      × (length (sanitize_libvirt_name name) ≤ 200)
      × IsName (sanitize_libvirt_name name)
unfolding sanitize_libvirt_name is_name_char first
sanitize_libvirt_name-IsName name =
    cut (trim is_dash (name_chars name)) (trim-IsName is_dash _ (name_chars-IsName name))
  where
    bounded : Text → Text
    bounded out =
        if is_empty out
        then codes "instance"
        else if ltb max_name (length out)
        then first max_name out
        else out

    cut :
        (out : Text)
        → IsName out
        → (is_empty (bounded out) ≡ false) × (length (bounded out) ≤ 200) × IsName (bounded out)
    cut [] h =
        (refl, omega arith, (refl, (refl, (refl, (refl, (refl, (refl, (refl, (refl, tt)))))))))
    cut (c ∷ s) h = elim (Bool-cases (ltb max_name (length (c ∷ s)))) [
      | inl t ↦ rw t (refl, length-first max_name (c ∷ s), first-IsName max_name (c ∷ s) h)
      | inr t ↦ rw t (refl, (ground arith), h)
    ]
