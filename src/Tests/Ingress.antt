-- ===== src/Tests/Ingress.antt =====
-- A host whose iptables keeps the rules of the nat table in a list, and a pair of addresses on it.
use casper_cloud.Prelude.{
  ◌≡◌, refl, Bool, true, false, Option, none, some, List, [], ◌∷◌, ◌++◌, Text, codes, eq_text,
  exists, if◌then◌else◌, Bool-cases, inl, inr, arith,
}
use casper_cloud.Ingress.Rules.{Netip, normalize_host}
use casper_cloud.Ingress.Host.{
  Exit, Answer, done, associate_ip, disassociate_ip, floating_nat_rules_present,
}
use casper_cloud.Ingress.Answers.{Rule, with_op, eq_rule, erase, IptablesLaws}
use casper_cloud.Ingress.Pairs.{dnat_rule, snat_rule, with_pair}
use casper_cloud.Ingress.Kept.{associate_ip_done, disassociate_ip-associate_ip}

abbrev run_op : Text → Rule → List Rule → Exit × List Rule
run_op op r rs =
    if eq_text op (codes "-A")
    then (Exit.success, rs ++ r ∷ [])
    else if exists (eq_rule r) rs
    then (Exit.success, (if eq_text op (codes "-D") then erase r rs else rs))
    else (Exit.status 1, rs)

abbrev run : List Text → List Rule → Exit × List Rule
run [] rs = (Exit.status 2, rs)
run (t ∷ []) rs = (Exit.status 2, rs)
run (t ∷ n ∷ []) rs = (Exit.status 2, rs)
run (t ∷ n ∷ op ∷ r) rs = run_op op r rs

abbrev kept : List Rule → List Rule
kept rs = rs

run-IptablesLaws : IptablesLaws (List Rule) run kept
unfolding eq_text
run-IptablesLaws = record {
  check-rules = λ r s. ground arith;
  check-success = λ r s h. ground arith;
  check-missing = λ r s h. ground arith;
  append-success = λ r s h. refl;
  delete-success = λ r s h. ground arith;
}

deletes :
    (r : Rule) (t : List Rule)
    → exists (eq_rule r) t ≡ true
    → (run (with_op (codes "-D") r) t).0 ≡ Exit.success
unfolding eq_text
deletes r t h = ground arith

abbrev plain : Netip
plain = record { prefix_host = λ s. none; address = λ s. some s }

abbrev excluded : Text
excluded = codes "192.168.122.0/24"

abbrev public_ip : Text
public_ip = codes "203.0.113.5"

abbrev private_ip : Text
private_ip = codes " 192.168.122.10"

abbrev other : List Rule
other = (codes "POSTROUTING" ∷ codes "-j" ∷ codes "MASQUERADE" ∷ []) ∷ []

abbrev bound : List Rule
bound = (associate_ip run plain excluded public_ip private_ip other).1

bound_done : associate_ip run plain excluded public_ip private_ip other ≡ (done tt, bound)
unfolding associate_ip normalize_host casper_cloud.Ingress.Rules.has_slash eq_text exists eq_rule
    casper_cloud.Ingress.Host.add_rules casper_cloud.Ingress.Host.iptables_check
    casper_cloud.Ingress.Host.iptables_run casper_cloud.Ingress.Host.◌>>=◌
    casper_cloud.Ingress.Rules.args_with_check_op casper_cloud.Ingress.Rules.prerouting_dnat_args
    casper_cloud.Ingress.Rules.postrouting_snat_args casper_cloud.Prelude.trim_space
    casper_cloud.Prelude.trim casper_cloud.Prelude.trim_left casper_cloud.Prelude.is_space
bound_done = refl

dnat_missing :
    exists
      (eq_rule (dnat_rule (normalize_host plain public_ip) (normalize_host plain private_ip)))
      other
    ≡ false
unfolding exists eq_rule dnat_rule casper_cloud.Ingress.Rules.prerouting_dnat_args eq_text
dnat_missing = refl

snat_missing :
    exists
      (eq_rule
        (snat_rule excluded (normalize_host plain public_ip) (normalize_host plain private_ip)))
      other
    ≡ false
unfolding exists eq_rule snat_rule casper_cloud.Ingress.Rules.postrouting_snat_args eq_text
snat_missing = refl

associate_ip_done_example :
    (bound
      ≡ with_pair excluded (normalize_host plain public_ip) (normalize_host plain private_ip) other)
    × ((t : List Rule) (v : Unit {0})
        → associate_ip run plain excluded public_ip private_ip bound ≡ (done v, t)
        → t ≡ bound)
    × ((t : List Rule)
        → ¬ (
            floating_nat_rules_present run plain excluded public_ip private_ip bound
            ≡ (done false, t)))
associate_ip_done_example =
    associate_ip_done run plain excluded kept run-IptablesLaws public_ip private_ip other bound tt
      bound_done

disassociate_ip-associate_ip_example :
    (disassociate_ip run plain excluded public_ip private_ip bound).1 ≡ other
disassociate_ip-associate_ip_example =
    disassociate_ip-associate_ip run plain excluded kept run-IptablesLaws public_ip private_ip other
      bound tt dnat_missing snat_missing deletes bound_done
