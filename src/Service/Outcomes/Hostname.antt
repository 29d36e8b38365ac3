-- ===== src/Service/Outcomes/Hostname.antt =====
-- The host name that the worker reads from the user data of an instance.
use casper_cloud.Prelude.{
  ◌≡◌, ◌∙◌, refl, ap, sym, ◌==◌, ℕ, Bool, false, List, [], ◌∷◌, ◌++◌, Text, codes, exists, is_space,
  trim_left, trim, trim_space, cut_prefix, arith,
}
use mathlib.Core.List.{reverse, reverse-append, reverse-reverse}
use casper_cloud.CloudInit.{CloudData, user_data_of, unlines, later_lines}
use casper_cloud.Service.Create.{lines, hostname_of_lines, hostname_from_user_data}

-- A line with no end in it is read back.
lines-unlines : (l s : Text) → exists (λ y. y == 10) l ≡ false → lines (l ++ 10 ∷ s) ≡ l ∷ lines s
unfolding lines exists
lines-unlines [] s h = refl
lines-unlines (c ∷ l) s h = ground (arith, lines-unlines l s)

trim_left-stop : (p : ℕ → Bool) (c : ℕ) (s : Text) → p c ≡ false → trim_left p (c ∷ s) ≡ c ∷ s
unfolding trim_left
trim_left-stop p c s h = rw h refl

-- A text that begins and ends with no space is its own trimming.
trim_same :
    (c z : ℕ) (s t : Text)
    → is_space c ≡ false
    → is_space z ≡ false
    → reverse (c ∷ s) ≡ z ∷ t
    → trim_space (c ∷ s) ≡ c ∷ s
unfolding trim_space trim
trim_same c z s t h k e =
    rw (trim_left-stop is_space c s h, e, trim_left-stop is_space z t k)
      (ap reverse (sym e) ∙ reverse-reverse (c ∷ s))

module _ (x z : ℕ) (s t : Text) (first : is_space x ≡ false) (last : is_space z ≡ false)
    (ends : reverse (x ∷ s) ≡ z ∷ t) where
  ends_keyed : reverse (codes "hostname: " ++ x ∷ s) ≡ z ∷ (t ++ reverse (codes "hostname: "))
  ends_keyed =
      reverse-append (codes "hostname: ") (x ∷ s) ∙ ap (λ r. r ++ reverse (codes "hostname: ")) ends

  line_trimmed : trim_space (codes "hostname: " ++ x ∷ s) ≡ codes "hostname: " ++ x ∷ s
  line_trimmed =
      trim_same _ z _ (t ++ reverse (codes "hostname: ")) (unfold is_space in refl) last ends_keyed

  value_trimmed : trim_space (32 ∷ x ∷ s) ≡ x ∷ s
  unfolding trim_space trim trim_left is_space
  value_trimmed =
      let same : trim_space (32 ∷ x ∷ s) ≡ trim_space (x ∷ s) = refl in
      same ∙ trim_same x z s t first last ends

  hostname_line : (ls : List Text) → hostname_of_lines ((codes "hostname: " ++ x ∷ s) ∷ ls) ≡ x ∷ s
  unfolding hostname_of_lines cut_prefix
  hostname_line ls = rw (line_trimmed) value_trimmed

no_end :
    (h : Text)
    → exists (λ y. y == 10) h ≡ false
    → exists (λ y. y == 10) (codes "hostname: " ++ h) ≡ false
unfolding exists
no_end h e = e

skip_header :
    (ls : List Text) → hostname_of_lines (codes "#cloud-config" ∷ ls) ≡ hostname_of_lines ls
unfolding hostname_of_lines cut_prefix trim_space trim trim_left is_space
skip_header ls = refl

user_data_lines :
    (c : CloudData)
    → exists (λ y. y == 10) c.hostname ≡ false
    → lines (user_data_of c)
      ≡ codes "#cloud-config" ∷ (codes "hostname: " ++ c.hostname) ∷ lines (unlines (later_lines c))
unfolding user_data_of
user_data_lines c h =
    let l = codes "hostname: " ++ c.hostname in
    let rest = unlines (later_lines c) in
    lines-unlines (codes "#cloud-config") (l ++ 10 ∷ rest) (unfold exists in refl)
    ∙ ap (λ r. codes "#cloud-config" ∷ r) (lines-unlines l rest (no_end c.hostname h))

-- A host name that begins and ends with no space, and has no end of a line, is the one that the worker
-- reads back from the user data that was rendered for it, whatever the other fields are.
pub hostname_from_user_data-user_data_of :
    (c : CloudData) (x z : ℕ) (s t : Text)
    → c.hostname ≡ x ∷ s
    → reverse c.hostname ≡ z ∷ t
    → is_space x ≡ false
    → is_space z ≡ false
    → exists (λ y. y == 10) c.hostname ≡ false
    → hostname_from_user_data (user_data_of c) ≡ c.hostname
unfolding hostname_from_user_data
hostname_from_user_data-user_data_of c x z s t e ends first last one =
    ap hostname_of_lines (user_data_lines c one)
    ∙ skip_header ((codes "hostname: " ++ c.hostname) ∷ lines (unlines (later_lines c)))
    ∙ ap (λ h. hostname_of_lines ((codes "hostname: " ++ h) ∷ lines (unlines (later_lines c)))) e
    ∙ hostname_line x z s t first last (sym (ap reverse e) ∙ ends) (lines (unlines (later_lines c)))
    ∙ sym e
