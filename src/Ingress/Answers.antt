-- ===== src/Ingress/Answers.antt =====
-- What the runs of iptables do to the nat table of the host, and what a run that is done has done.
use casper_cloud.Prelude.{
  ◌≡◌, refl, Bool, true, false, ◌⊎◌, ==_refl, List, [], ◌∷◌, ◌++◌, Text, codes, eq_text, exists,
  if◌then◌else◌, arith,
}
use casper_cloud.Ingress.Host.{Exit, Answer, done, failed, Shell, ◌>>=◌, resume, checked, finished}

-- A rule is its chain and what its option says.
abbrev pub Rule : Type 0
Rule = List Text

-- The arguments of an operation on a rule of the nat table.
abbrev pub with_op : Text → Rule → List Text
with_op op r = codes "-t" ∷ codes "nat" ∷ op ∷ r

unfoldable pub eq_rule : Rule → Rule → Bool
eq_rule [] [] = true
eq_rule [] (y ∷ ys) = false
eq_rule (x ∷ xs) [] = false
eq_rule (x ∷ xs) (y ∷ ys) = let rest = eq_rule xs ys in if eq_text x y then rest else false

-- The first rule that is equal goes.
unfoldable pub erase : Rule → List Rule → List Rule
erase r [] = []
erase r (x ∷ xs) = let rest = erase r xs in if eq_rule r x then xs else x ∷ rest

eq_text_refl : (s : Text) → eq_text s s ≡ true
unfolding eq_text
eq_text_refl [] = refl
eq_text_refl (c ∷ s) = rw (==_refl c) (eq_text_refl s)

pub eq_rule_refl : (r : Rule) → eq_rule r r ≡ true
unfolding eq_rule
eq_rule_refl [] = refl
eq_rule_refl (s ∷ r) = rw (eq_text_refl s) (eq_rule_refl r)

-- A rule that stands behind rules unequal to it is the one that goes.
pub erase-append :
    (r : Rule) (xs ys : List Rule)
    → exists (eq_rule r) xs ≡ false
    → erase r ((xs ++ r ∷ []) ++ ys) ≡ xs ++ ys
unfolding erase exists
erase-append r [] ys h = rw (eq_rule_refl r) refl
erase-append r (x ∷ xs) ys h = ground (arith, erase-append r xs ys)

pub erase-last :
    (r : Rule) (xs : List Rule) → exists (eq_rule r) xs ≡ false → erase r (xs ++ r ∷ []) ≡ xs
unfolding erase exists
erase-last r [] h = rw (eq_rule_refl r) refl
erase-last r (x ∷ xs) h = ground (arith, erase-last r xs)

pub exists-append :
    (r x : Rule) (xs : List Rule)
    → exists (eq_rule r) (xs ++ x ∷ []) ≡ (if exists (eq_rule r) xs then true else eq_rule r x)
unfolding exists
exists-append r x [] = ground arith
exists-append r x (y ∷ xs) = ground (arith, exists-append r x xs)

-- What iptables promises of the nat table: "-C" looks a rule up and exits with 1 where there is none,
-- "-A" appends a rule, "-D" deletes the first that is equal.
pub record IptablesLaws (S : Type 0) (run : List Text → S → Exit × S) (rules : S → List Rule)
    : Type 0 where
  pub check-rules : (r : Rule) (s : S) → rules (run (with_op (codes "-C") r) s).1 ≡ rules s
  pub check-success :
      (r : Rule) (s : S)
      → (run (with_op (codes "-C") r) s).0 ≡ Exit.success
      → exists (eq_rule r) (rules s) ≡ true
  pub check-missing :
      (r : Rule) (s : S)
      → (run (with_op (codes "-C") r) s).0 ≡ Exit.status 1
      → exists (eq_rule r) (rules s) ≡ false
  pub append-success :
      (r : Rule) (s : S)
      → (run (with_op (codes "-A") r) s).0 ≡ Exit.success
      → rules (run (with_op (codes "-A") r) s).1 ≡ rules s ++ r ∷ []
  pub delete-success :
      (r : Rule) (s : S)
      → (run (with_op (codes "-D") r) s).0 ≡ Exit.success
      → rules (run (with_op (codes "-D") r) s).1 ≡ erase r (rules s)

pub >>=-done :
    {S A B : Type 0} (m : Shell S A) (f : A → Shell S B) (b : B) (s s' : S)
    → (m >>= f) s ≡ (done b, s')
    → (a : A) × (s₁ : S) × (m s ≡ (done a, s₁)) × (f a s₁ ≡ (done b, s'))
unfolding ◌>>=◌
>>=-done {S} {A} {B} m f b s s' e = go (m s) e
  where
    go :
        (x : Answer A × S)
        → resume x.0 f x.1 ≡ (done b, s')
        → (a : A) × (s₁ : S) × (x ≡ (done a, s₁)) × (f a s₁ ≡ (done b, s'))
    go (done a, s₁) k = (a, s₁, refl, k)
    go (failed x, s₁) k = ground arith

pub checked-done :
    (args : List Text) (e : Exit) (b : Bool)
    → checked args e ≡ done b
    → ((b ≡ true) × (e ≡ Exit.success)) ⊎ ((b ≡ false) × (e ≡ Exit.status 1))
checked-done args Exit.success b h = ground arith
checked-done args (Exit.status n) b h = ground arith
checked-done args Exit.not_run b h = ground arith

pub finished-done :
    (args : List Text) (e : Exit) (u : Unit {0}) → finished args e ≡ done u → e ≡ Exit.success
finished-done args Exit.success u h = refl
finished-done args (Exit.status n) u h = ground arith
finished-done args Exit.not_run u h = ground arith
