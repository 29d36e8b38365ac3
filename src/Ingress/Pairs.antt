-- ===== src/Ingress/Pairs.antt =====
-- The two rules of a pair of addresses, and the table with them.
use casper_cloud.Prelude.{
  ◌≡◌, ◌≢◌, ◌∙◌, refl, ap, sym, subst, Bool, true, false, ◌⊎◌, inl, inr, List, [], ◌∷◌, ◌++◌, Text,
  codes, exists, if◌then◌else◌, ◌||◌, ◌&&◌, is_empty, arith, Bool-cases,
}
use casper_cloud.Ingress.Rules.{
  rule_comment, prerouting_dnat_args, postrouting_snat_args, args_with_check_op,
}
use casper_cloud.Ingress.Answers.{
  Rule, with_op, eq_rule, erase, eq_rule_refl, erase-append, erase-last, exists-append,
}

-- What the arguments say behind the table and the operation.
abbrev rule_of : List Text → Rule
rule_of [] = []
rule_of (t ∷ []) = []
rule_of (t ∷ n ∷ []) = []
rule_of (t ∷ n ∷ o ∷ r) = r

-- The two rules of a pair of addresses.
unfoldable pub dnat_rule : Text → Text → Rule
unfolding prerouting_dnat_args
dnat_rule a b = rule_of (prerouting_dnat_args a b (rule_comment a b) true)

unfoldable pub snat_rule : Text → Text → Text → Rule
unfolding postrouting_snat_args
snat_rule excluded a b = rule_of (postrouting_snat_args excluded a b (rule_comment a b) true)

-- The table with a rule, which is appended where there is none.
abbrev pub ensure : Rule → List Rule → List Rule
ensure r rs = if exists (eq_rule r) rs then rs else rs ++ r ∷ []

-- The table with the rules of a pair.
abbrev pub with_pair : Text → Text → Text → List Rule → List Rule
with_pair excluded a b rs = ensure (snat_rule excluded a b) (ensure (dnat_rule a b) rs)

pub dnat_snat : (x a b : Text) → eq_rule (snat_rule x a b) (dnat_rule a b) ≡ false
unfolding eq_rule dnat_rule snat_rule prerouting_dnat_args postrouting_snat_args
    casper_cloud.Prelude.eq_text
dnat_snat x a b = refl

pub dnat_check :
    (a b : Text)
    → args_with_check_op (prerouting_dnat_args a b (rule_comment a b) true)
      ≡ with_op (codes "-C") (dnat_rule a b)
unfolding args_with_check_op dnat_rule prerouting_dnat_args casper_cloud.Prelude.eq_text
dnat_check a b = refl

pub snat_check :
    (x a b : Text)
    → args_with_check_op (postrouting_snat_args x a b (rule_comment a b) true)
      ≡ with_op (codes "-C") (snat_rule x a b)
unfolding args_with_check_op snat_rule postrouting_snat_args casper_cloud.Prelude.eq_text
snat_check x a b = refl

pub ensure-pair :
    (p q : Rule) (rs rs₁ rs₂ : List Rule) (b c : Bool)
    → eq_rule q p ≡ false
    → exists (eq_rule p) rs ≡ b
    → exists (eq_rule q) rs ≡ c
    → rs₁ ≡ (if b then rs else rs ++ p ∷ [])
    → rs₂ ≡ (if c then rs₁ else rs₁ ++ q ∷ [])
    → rs₂ ≡ ensure q (ensure p rs)
ensure-pair p q rs rs₁ rs₂ true true n h k e f = rw (h, k) (f ∙ e)
ensure-pair p q rs rs₁ rs₂ true false n h k e f = rw (h, k) (rw e at f)
ensure-pair p q rs rs₁ rs₂ false true n h k e f = rw (h, exists-append q p rs, k) (f ∙ e)
ensure-pair p q rs rs₁ rs₂ false false n h k e f = rw (h, exists-append q p rs, k, n) (rw e at f)

-- The two rules of a pair, appended to a table without them, are deleted again.
pub erase-pair :
    (d q : Rule) (rs : List Rule)
    → eq_rule q d ≡ false
    → exists (eq_rule d) rs ≡ false
    → exists (eq_rule q) rs ≡ false
    → (erase d (ensure q (ensure d rs)) ≡ rs ++ q ∷ []) × (erase q (rs ++ q ∷ []) ≡ rs)
erase-pair d q rs n h k =
    (rw (h, exists-append q d rs, k, n) (erase-append d rs (q ∷ []) h), erase-last q rs k)

ensure-has : (r : Rule) (rs : List Rule) → exists (eq_rule r) (ensure r rs) ≡ true
ensure-has r rs = elim (Bool-cases (exists (eq_rule r) rs)) [
  | inl t ↦ rw (t, t) refl
  | inr t ↦ rw (t, exists-append r r rs, t) (eq_rule_refl r)
]

ensure-keeps :
    (r q : Rule) (rs : List Rule)
    → exists (eq_rule r) rs ≡ true
    → exists (eq_rule r) (ensure q rs) ≡ true
ensure-keeps r q rs h = elim (Bool-cases (exists (eq_rule q) rs)) [
  | inl t ↦ rw t h
  | inr t ↦ rw (t, exists-append r q rs, h) refl
]

-- The table with a pair has both its rules.
pub with_pair-full :
    (x a b : Text) (rs : List Rule)
    → (exists (eq_rule (dnat_rule a b)) (with_pair x a b rs) ≡ true)
      × (exists (eq_rule (snat_rule x a b)) (with_pair x a b rs) ≡ true)
with_pair-full x a b rs = (
  ensure-keeps (dnat_rule a b) (snat_rule x a b) (ensure (dnat_rule a b) rs)
      (ensure-has (dnat_rule a b) rs),
  ensure-has (snat_rule x a b) (ensure (dnat_rule a b) rs),
)

-- With both rules there, the pair adds none.
pub with_pair-same :
    (x a b : Text) (rs : List Rule)
    → exists (eq_rule (dnat_rule a b)) rs ≡ true
    → exists (eq_rule (snat_rule x a b)) rs ≡ true
    → with_pair x a b rs ≡ rs
with_pair-same x a b rs h k = rw (h, k) refl
