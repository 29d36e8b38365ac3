-- ===== src/Ingress/Kept.antt =====
-- Which rules of the nat table an association and a disassociation leave.
use casper_cloud.Prelude.{
  ◌≡◌, ◌∙◌, ap, sym, subst, Bool, true, false, inl, inr, List, [], ◌∷◌, ◌++◌, Text, codes, exists,
  if◌then◌else◌, ◌||◌, ◌&&◌, is_empty, arith, Bool-cases,
}
use casper_cloud.Ingress.Rules.{
  Netip, normalize_host, rule_comment, prerouting_dnat_args, postrouting_snat_args,
  args_with_check_op,
}
use casper_cloud.Ingress.Host.{
  Exit, Answer, done, failed, empty_ip, Shell, ◌>>=◌, iptables_check, iptables_run, run_unless,
  add_rules, associate_ip, remove_rules, iptables_run_delete_ignore_missing, disassociate_ip,
  floating_nat_rules_present, rules_present,
}
use casper_cloud.Ingress.Answers.{
  Rule, with_op, eq_rule, erase, eq_rule_refl, exists-append, IptablesLaws, >>=-done, checked-done,
  finished-done,
}
use casper_cloud.Ingress.Pairs.{
  dnat_rule, snat_rule, with_pair, dnat_snat, dnat_check, snat_check, ensure-pair, erase-pair,
  with_pair-full, with_pair-same,
}

-- Past the test for empty addresses.
filled-done :
    {S A : Type 0} (m : Shell S A) (a b : Text) (s s' : S) (u : A)
    → (if is_empty a || is_empty b then (λ z. (failed empty_ip, z)) else m) s ≡ (done u, s')
    → ((is_empty a || is_empty b) ≡ false) × (m s ≡ (done u, s'))
filled-done m a b s s' u e = elim (Bool-cases (is_empty a || is_empty b)) [
  | inl t ↦ ground (arith, (rw t at e))
  | inr t ↦ (t, rw t at e)
]

module _ {S : Type 0} (run : List Text → S → Exit × S) (net : Netip) (excluded : Text)
    (rules : S → List Rule) (laws : IptablesLaws S run rules) where
  check-done :
      (r : Rule) (s s' : S) (b : Bool)
      → iptables_check run net excluded (with_op (codes "-C") r) s ≡ (done b, s')
      → (exists (eq_rule r) (rules s) ≡ b) × (rules s' ≡ rules s)
  unfolding iptables_check
  check-done r s s' b e =
      let kept = subst (λ z. rules z ≡ rules s) (ap (λ z. z.1) e) (laws.check-rules r s) in
      let args = with_op (codes "-C") r in
      elim (checked-done args (run args s).0 b (ap (λ z. z.0) e)) [
        | inl (t, u) ↦ (laws.check-success r s u ∙ sym t, kept)
        | inr (t, u) ↦ (laws.check-missing r s u ∙ sym t, kept)
      ]

  run-done :
      (b : Bool) (r : Rule) (s s' : S) (u : Unit {0})
      → run_unless run net excluded b (with_op (codes "-A") r) s ≡ (done u, s')
      → rules s' ≡ (if b then rules s else rules s ++ r ∷ [])
  unfolding iptables_run
  run-done true r s s' u e = ap (λ z. rules z.1) (sym e)
  run-done false r s s' u e =
      subst (λ z. rules z ≡ rules s ++ r ∷ []) (ap (λ z. z.1) e)
        (laws.append-success r s (
          finished-done (with_op (codes "-A") r) (run (with_op (codes "-A") r) s).0 u
            (ap (λ z. z.0) e)))

  add_rules-done :
      (a b : Text) (s s' : S) (u : Unit {0})
      → add_rules run net excluded a b s ≡ (done u, s')
      → rules s' ≡ with_pair excluded a b (rules s)
  unfolding add_rules dnat_rule snat_rule prerouting_dnat_args postrouting_snat_args
  add_rules-done a b s s' u e =
      let dnat = prerouting_dnat_args a b (rule_comment a b) true in
      let snat = postrouting_snat_args excluded a b (rule_comment a b) true in
      let check = λ (args : List Text). iptables_check run net excluded (args_with_check_op args) in
      let (b₁, s₁, e₁, k₁) = >>=-done (check dnat) _ u s s' e in
      let (b₂, s₂, e₂, k₂) = >>=-done (check snat) _ u s₁ s' k₁ in
      let (v, s₃, e₃, k₃) = >>=-done (run_unless run net excluded b₁ dnat) _ u s₂ s' k₂ in
      let (h₁, r₁) = check-done (dnat_rule a b) s s₁ b₁ (rw (dnat_check a b) at e₁) in
      let (h₂, r₂) =
        check-done (snat_rule excluded a b) s₁ s₂ b₂ (rw (snat_check excluded a b) at e₂) in
      ensure-pair (dnat_rule a b) (snat_rule excluded a b) (rules s) (rules s₃) (rules s') b₁ b₂
        (dnat_snat excluded a b) h₁ (ap (exists (eq_rule (snat_rule excluded a b))) (sym r₁) ∙ h₂)
        (run-done b₁ (dnat_rule a b) s₂ s₃ v e₃
          ∙ ap (λ z. if b₁ then z else z ++ dnat_rule a b ∷ []) (r₂ ∙ r₁))
        (run-done b₂ (snat_rule excluded a b) s₃ s' u k₃)

  present-full :
      (a b : Text) (s t : S)
      → exists (eq_rule (dnat_rule a b)) (rules s) ≡ true
      → exists (eq_rule (snat_rule excluded a b)) (rules s) ≡ true
      → ¬ (rules_present run net excluded a b s ≡ (done false, t))
  unfolding rules_present
  present-full a b s t h k e =
      let dnat = prerouting_dnat_args a b (rule_comment a b) true in
      let snat = postrouting_snat_args excluded a b (rule_comment a b) true in
      let check = λ (args : List Text). iptables_check run net excluded (args_with_check_op args) in
      let (b₁, s₁, e₁, k₁) = >>=-done (check dnat) _ false s t e in
      let (b₂, s₂, e₂, k₂) = >>=-done (check snat) _ false s₁ t k₁ in
      let (h₁, r₁) = check-done (dnat_rule a b) s s₁ b₁ (rw (dnat_check a b) at e₁) in
      let (h₂, r₂) =
        check-done (snat_rule excluded a b) s₁ s₂ b₂ (rw (snat_check excluded a b) at e₂) in
      both b₁ b₂ (sym h₁ ∙ h) (sym h₂ ∙ ap (exists (eq_rule (snat_rule excluded a b))) r₁ ∙ k)
        (ap (λ z. z.0) k₂)
    where
      both : (b c : Bool) → b ≡ true → c ≡ true → ¬ (Answer.done (b && c) ≡ done false)
      both b c x y z = ground arith

  -- An association that is done leaves the table with the two rules of the pair, each appended behind
  -- the other rules if there was none, and no other change; to do it again changes nothing, and the
  -- rules are then never reported missing.
  pub associate_ip_done :
      (p q : Text) (s s' : S) (u : Unit {0})
      → associate_ip run net excluded p q s ≡ (done u, s')
      → (rules s' ≡ with_pair excluded (normalize_host net p) (normalize_host net q) (rules s))
        × ((t : S) (v : Unit {0})
            → associate_ip run net excluded p q s' ≡ (done v, t)
            → rules t ≡ rules s')
        × ((t : S) → ¬ (floating_nat_rules_present run net excluded p q s' ≡ (done false, t)))
  unfolding associate_ip floating_nat_rules_present
  associate_ip_done p q s s' u e =
      let a = normalize_host net p in
      let b = normalize_host net q in
      let (some_host, d) = filled-done (add_rules run net excluded a b) a b s s' u e in
      let r = add_rules-done a b s s' u d in
      let (x, y) = with_pair-full excluded a b (rules s) in
      let x' = ap (exists (eq_rule (dnat_rule a b))) r ∙ x in
      let y' = ap (exists (eq_rule (snat_rule excluded a b))) r ∙ y in
      (
        r,
        (λ t v e'.
            add_rules-done a b s' t v (filled-done (add_rules run net excluded a b) a b s' t v e').1
            ∙ with_pair-same excluded a b (rules s') x' y'),
        (λ t. present-full a b s' t x' y'),
      )

  -- From a table with neither rule of the pair, an association that is done and then a disassociation,
  -- whose deletes succeed, leave the table as it was.
  pub disassociate_ip-associate_ip :
      (p q : Text) (s s' : S) (u : Unit {0})
      → exists (eq_rule (dnat_rule (normalize_host net p) (normalize_host net q))) (rules s) ≡ false
      → exists
          (eq_rule (snat_rule excluded (normalize_host net p) (normalize_host net q)))
          (rules s)
        ≡ false
      → ((r : Rule) (t : S)
          → exists (eq_rule r) (rules t) ≡ true
          → (run (with_op (codes "-D") r) t).0 ≡ Exit.success)
      → associate_ip run net excluded p q s ≡ (done u, s')
      → rules (disassociate_ip run net excluded p q s').1 ≡ rules s
  unfolding associate_ip disassociate_ip remove_rules iptables_run_delete_ignore_missing ◌>>=◌
      dnat_rule snat_rule prerouting_dnat_args postrouting_snat_args
  disassociate_ip-associate_ip p q s s' u h k deletes e =
      let a = normalize_host net p in
      let b = normalize_host net q in
      let (some_host, d) = filled-done (add_rules run net excluded a b) a b s s' u e in
      let r = add_rules-done a b s s' u d in
      let dnat = dnat_rule a b in
      let snat = snat_rule excluded a b in
      let s₁ = (run (with_op (codes "-D") dnat) s').1 in
      let (first, second) = erase-pair dnat snat (rules s) (dnat_snat excluded a b) h k in
      let there = ap (exists (eq_rule dnat)) r ∙ (with_pair-full excluded a b (rules s)).0 in
      let r₁ : rules s₁ ≡ rules s ++ snat ∷ [] =
        laws.delete-success dnat s' (deletes dnat s' there) ∙ ap (erase dnat) r ∙ first in
      let there₁ : exists (eq_rule snat) (rules s₁) ≡ true =
        ap (exists (eq_rule snat)) r₁
        ∙ (rw (exists-append snat snat (rules s), k) (eq_rule_refl snat)) in
      rw some_host
        (laws.delete-success snat s₁ (deletes snat s₁ there₁) ∙ ap (erase snat) r₁ ∙ second)
