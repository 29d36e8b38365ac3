-- ===== src/Ingress/Host.antt =====
-- The runs of iptables and the operations of `Ingress` in internal/network/ingress.go. A run is a
-- parameter: what the host's tables are before, and how the program exits and what they are after.
use casper_cloud.Prelude.{
  ℕ, Bool, true, false, ◌&&◌, ◌||◌, ◌==◌, List, Text, is_empty, if◌then◌else◌,
}
use casper_cloud.Ingress.Rules.{
  Netip, normalize_host, rule_comment, prerouting_dnat_args, postrouting_snat_args,
  args_with_check_op,
}

-- What `cmd.Run()` gives: no error, an exit status, or no run (or a run that a signal ended).
pub data Exit : Type 0 where
  success : Exit
  status : ℕ → Exit
  not_run : Exit

pub data Failure : Type 0 where
  empty_ip : Failure
  command_failed : List Text → Exit → Failure

pub data Answer (A : Type 0) : Type 0 where
  done : A → Answer A
  failed : Failure → Answer A

abbrev pub Shell : Type 0 → Type 0 → Type 0
Shell S A = S → Answer A × S

abbrev pub resume : {S A B : Type 0} → Answer A → (A → Shell S B) → Shell S B
resume (done a) f s = f a s
resume (failed e) f s = (failed e, s)

infixl 5 ◌>>=◌ ◌>>◌
unfoldable pub ◌>>=◌ : {S A B : Type 0} → Shell S A → (A → Shell S B) → Shell S B
◌>>=◌ m f s = let (r, s') = m s in resume r f s'

abbrev pub ◌>>◌ : {S A B : Type 0} → Shell S A → Shell S B → Shell S B
m >> k = m >>= λ _. k

abbrev pub give : {S A : Type 0} → A → Shell S A
give a s = (done a, s)

abbrev pub checked : List Text → Exit → Answer Bool
checked args Exit.success = done true
checked args (Exit.status n) =
    if n == 1 then done false else failed (command_failed args (Exit.status n))
checked args Exit.not_run = failed (command_failed args Exit.not_run)

abbrev pub finished : List Text → Exit → Answer (Unit {0})
finished args Exit.success = done tt
finished args (Exit.status n) = failed (command_failed args (Exit.status n))
finished args Exit.not_run = failed (command_failed args Exit.not_run)

abbrev pub finished_or_missing : List Text → Exit → Answer (Unit {0})
finished_or_missing args Exit.success = done tt
finished_or_missing args (Exit.status n) =
    if n == 1 then done tt else failed (command_failed args (Exit.status n))
finished_or_missing args Exit.not_run = failed (command_failed args Exit.not_run)

-- `run` runs iptables; `excluded` is `n.privateExcludeCIDR`.
module _ {S : Type 0} (run : List Text → S → Exit × S) (net : Netip) (excluded : Text) where
  unfoldable pub iptables_check : List Text → Shell S Bool
  iptables_check args s = let (e, s') = run args s in (checked args e, s')

  unfoldable pub iptables_run : List Text → Shell S (Unit {0})
  iptables_run args s = let (e, s') = run args s in (finished args e, s')

  unfoldable pub iptables_run_delete_ignore_missing : List Text → Shell S (Unit {0})
  iptables_run_delete_ignore_missing args s =
      let (e, s') = run args s in (finished_or_missing args e, s')

  -- `_ = m`
  abbrev pub ignored : Shell S (Unit {0}) → Shell S (Unit {0})
  ignored m s = (done tt, (m s).1)

  abbrev pub run_unless : Bool → List Text → Shell S (Unit {0})
  run_unless present args = if present then give tt else iptables_run args

  -- `AssociateIP` behind the test for empty addresses.
  unfoldable pub add_rules : Text → Text → Shell S (Unit {0})
  add_rules public_host private_host = do
    let comment = rule_comment public_host private_host
    let dnat = prerouting_dnat_args public_host private_host comment true
    let snat = postrouting_snat_args excluded public_host private_host comment true
    ok_pr ← iptables_check (args_with_check_op dnat)
    ok_po ← iptables_check (args_with_check_op snat)
    run_unless ok_pr dnat
    run_unless ok_po snat

  unfoldable pub associate_ip : Text → Text → Shell S (Unit {0})
  associate_ip public_ip private_ip =
      let public_host = normalize_host net public_ip in
      let private_host = normalize_host net private_ip in
      if is_empty public_host || is_empty private_host
      then (λ s. (failed empty_ip, s))
      else add_rules public_host private_host

  -- `DisassociateIP` behind the test for empty addresses.
  unfoldable pub remove_rules : Text → Text → Shell S (Unit {0})
  remove_rules public_host private_host = do
    let comment = rule_comment public_host private_host
    ignored (
        iptables_run_delete_ignore_missing
          (prerouting_dnat_args public_host private_host comment false))
    ignored (
        iptables_run_delete_ignore_missing
          (postrouting_snat_args excluded public_host private_host comment false))
    give tt

  unfoldable pub disassociate_ip : Text → Text → Shell S (Unit {0})
  disassociate_ip public_ip private_ip =
      let public_host = normalize_host net public_ip in
      let private_host = normalize_host net private_ip in
      if is_empty public_host || is_empty private_host
      then (λ s. (failed empty_ip, s))
      else remove_rules public_host private_host

  -- `FloatingNATRulesPresent` of the normalized addresses.
  unfoldable pub rules_present : Text → Text → Shell S Bool
  rules_present public_host private_host = do
    let comment = rule_comment public_host private_host
    let dnat = prerouting_dnat_args public_host private_host comment true
    let snat = postrouting_snat_args excluded public_host private_host comment true
    ok_pr ← iptables_check (args_with_check_op dnat)
    ok_po ← iptables_check (args_with_check_op snat)
    give (ok_pr && ok_po)

  unfoldable pub floating_nat_rules_present : Text → Text → Shell S Bool
  floating_nat_rules_present public_ip private_ip =
      rules_present (normalize_host net public_ip) (normalize_host net private_ip)
