-- ===== src/Ingress/Rules.antt =====
-- The arguments of iptables in internal/network/ingress.go: `normalizeHost`, `ruleComment`,
-- `preroutingDNATArgs`, `postroutingSNATArgs` and `argsWithCheckOp`.
use casper_cloud.Prelude.{
  Bool, false, ◌||◌, ◌==◌, Option, none, some, List, [], ◌∷◌, ◌++◌, Text, codes, eq_text,
  trim_space, if◌then◌else◌,
}

-- `netip.ParsePrefix(s)` with `.Addr().String()`, and `netip.ParseAddr(s)` with `.String()`.
pub record Netip : Type 0 where
  pub prefix_host : Text → Option Text
  pub address : Text → Option Text

-- `strings.Contains(ip, "/")`
unfoldable pub has_slash : Text → Bool
has_slash [] = false
has_slash (c ∷ s) = c == b'/' || has_slash s

abbrev pub or_else : Option Text → Text → Text
or_else none d = d
or_else (some h) d = h

unfoldable pub normalize_host : Netip → Text → Text
normalize_host net s =
    let ip = trim_space s in
    let plain = or_else (net.address ip) ip in
    if has_slash ip then or_else (net.prefix_host ip) plain else plain

abbrev pub rule_comment : Text → Text → Text
rule_comment public_host private_host =
    codes "caspercloud-fip-" ++ public_host ++ codes "-" ++ private_host

abbrev pub operation : Bool → Text
operation add = if add then codes "-A" else codes "-D"

unfoldable pub prerouting_dnat_args : Text → Text → Text → Bool → List Text
prerouting_dnat_args public_host private_host comment add =
    codes "-t"
    ∷ codes "nat"
    ∷ operation add
    ∷ codes "PREROUTING"
    ∷ codes "-d"
    ∷ (public_host ++ codes "/32")
    ∷ codes "-m"
    ∷ codes "comment"
    ∷ codes "--comment"
    ∷ comment
    ∷ codes "-j"
    ∷ codes "DNAT"
    ∷ codes "--to-destination"
    ∷ private_host
    ∷ []

-- `excluded` is `n.privateExcludeCIDR`.
unfoldable pub postrouting_snat_args : Text → Text → Text → Text → Bool → List Text
postrouting_snat_args excluded public_host private_host comment add =
    codes "-t"
    ∷ codes "nat"
    ∷ operation add
    ∷ codes "POSTROUTING"
    ∷ codes "-s"
    ∷ (private_host ++ codes "/32")
    ∷ codes "!"
    ∷ codes "-d"
    ∷ excluded
    ∷ codes "-m"
    ∷ codes "comment"
    ∷ codes "--comment"
    ∷ comment
    ∷ codes "-j"
    ∷ codes "SNAT"
    ∷ codes "--to-source"
    ∷ public_host
    ∷ []

-- The first "-A" or "-D" becomes "-C".
unfoldable pub args_with_check_op : List Text → List Text
args_with_check_op [] = []
args_with_check_op (a ∷ args) =
    let rest = args_with_check_op args in
    if eq_text a (codes "-A") || eq_text a (codes "-D") then codes "-C" ∷ args else a ∷ rest
