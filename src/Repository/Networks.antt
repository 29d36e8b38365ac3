-- ===== src/Repository/Networks.antt =====
-- Networks and their address pools: internal/repository/ipam.go.
use casper_cloud.Prelude.{
  ℕ, ◌==◌, ◌&&◌, ◌||◌, eq_text, order_by_desc, not, Bool, true, Option, none, some, List, [], ◌∷◌,
  Text, codes, suc, select, select_row, update, exists, lowest, is_some, if◌then◌else◌,
}
use casper_cloud.Data.{
  Uuid, Inet, not_found, no_ips_available, no_usable_hosts, unreadable_address, unsupported_prefix,
  constraint_violation, unique_violation, Network, IpSlot, Project,
}
use casper_cloud.Exec.{Result, ok, err}
use casper_cloud.Repository.Statement.{Statement, Done, one_row, and_then}
use casper_cloud.Repository.Hosts.{Address, v4, v6, Prefix, usable_ipv4_hosts}

-- netip's readers, and PostgreSQL's types: `shown` is `::text` of an INET column, and `as_cidr` and
-- `as_inet` give what `::text` shows of a text that was stored as CIDR or INET, if it is accepted.
pub record Net : Type 0 where
  pub parse_prefix : Text → Option Prefix
  pub parse_addr : Text → Option Address
  pub shown : Inet → Text
  pub as_cidr : Text → Option Text
  pub as_inet : Text → Option Text

-- `WHERE id = $1 AND project_id = $2`
abbrev pub is_network : Uuid → Uuid → Network → Bool
is_network p n r = r.id == n && r.project_id == p

unfoldable pub get_network_for_project : Uuid → Uuid → Statement Network
get_network_for_project p n d = one_row (select_row (is_network p n) d.networks) not_found d

abbrev pub is_default_of : Uuid → Network → Bool
is_default_of p r = r.project_id == p && r.is_default

abbrev pub id_of_row : Option Network → Statement Uuid
id_of_row none d = err not_found
id_of_row (some r) d = ok (r.id, d)

unfoldable pub get_default_network_id : Uuid → Statement Uuid
get_default_network_id p d = id_of_row (select_row (is_default_of p) d.networks) d

-- `by_name` orders rows by their names, in a collation.
unfoldable pub list_networks_for_project :
    (List Network → List Network) → Uuid → Statement (List Network)
list_networks_for_project by_name p d = ok (
  order_by_desc (λ r. if r.is_default then 1 else 0)
      (by_name (select (λ (r : Network). r.project_id == p) d.networks)),
  d,
)

abbrev pub network_texts : Net → Text → Text → Option (Text × Text)
network_texts net cidr gateway = elim (net.as_cidr cidr) [
  | none ↦ none
  | some c ↦ elim (net.as_inet gateway) [ none ↦ none | some g ↦ some (c, g) ]
]

abbrev pub insert_network : Uuid → Text → Option (Text × Text) → Statement Uuid
insert_network p bridge none d = err constraint_violation
insert_network p bridge (some (c, g)) d = ok (
  d.next_id,
  record d {
    networks =
        record {
          id = d.next_id;
          project_id = p;
          name = codes "default";
          cidr = c;
          gateway = g;
          bridge_name = bridge;
          is_default = true;
        }
        ∷ d.networks;
    next_id = suc d.next_id;
  },
)

-- One default network, and one of a name, for a project; a text that is no CIDR or INET fails the statement.
unfoldable pub insert_default_network : Net → Uuid → Text → Text → Text → Statement Uuid
insert_default_network net p cidr gateway bridge d =
    if exists
      (λ (r : Network). r.project_id == p && (r.is_default || eq_text r.name (codes "default")))
      d.networks
    then err unique_violation
    else if exists (λ (r : Project). r.id == p) d.projects
    then insert_network p bridge (network_texts net cidr gateway) d
    else err constraint_violation

abbrev pub is_slot : Uuid → Inet → IpSlot → Bool
is_slot n a r = r.network_id == n && r.ip_address == a

-- `ON CONFLICT DO NOTHING`
abbrev pub insert_slot : Uuid → Inet → List IpSlot → List IpSlot
insert_slot n a slots =
    if exists (is_slot n a) slots
    then slots
    else record { network_id = n; ip_address = a; instance_id = none } ∷ slots

unfoldable pub insert_slots : Uuid → List Inet → List IpSlot → List IpSlot
insert_slots n [] slots = slots
insert_slots n (a ∷ more) slots = insert_slots n more (insert_slot n a slots)

abbrev pub seed_hosts : Uuid → Result (List Inet) → Statement Done
seed_hosts n (err e) d = err e
seed_hosts n (ok []) d = err no_usable_hosts
seed_hosts n (ok (a ∷ more)) d =
    if exists (λ (r : Network). r.id == n) d.networks
    then ok (tt, record d { ip_slots = insert_slots n (a ∷ more) d.ip_slots })
    else err constraint_violation

abbrev pub seed_from : Uuid → Address → ℕ → Address → Statement Done
seed_from n (v6 t) bits gateway d = err unsupported_prefix
seed_from n (v4 a) bits (v6 t) d = err unsupported_prefix
seed_from n (v4 a) bits (v4 g) d = seed_hosts n (usable_ipv4_hosts a bits g) d

unfoldable pub seed_network_ip_slots : Uuid → Prefix → Address → Statement Done
unfolding insert_slots usable_ipv4_hosts
seed_network_ip_slots n prefix gateway = seed_from n prefix.address prefix.bits gateway

-- A slot of the network that no instance has.
abbrev pub is_free_slot : Uuid → IpSlot → Bool
is_free_slot n r = r.network_id == n && not (is_some r.instance_id)

abbrev pub take_slot : Uuid → Uuid → Option IpSlot → Statement Inet
take_slot n i none d = err no_ips_available
take_slot n i (some s) d = ok (
  s.ip_address,
  record d {
    ip_slots = update (is_slot n s.ip_address) (λ r. record r { instance_id = some i }) d.ip_slots;
  },
)

-- The statement of `ClaimNextIPSlot`; `locked` are the slots that other transactions hold.
unfoldable pub claim_slot : (IpSlot → Bool) → Uuid → Uuid → Statement Inet
claim_slot locked n i d =
    take_slot n i
      (lowest (λ r. r.ip_address) (select (λ r. is_free_slot n r && not (locked r)) d.ip_slots)) d

abbrev pub read_address : Option Address → Statement Address
read_address none d = err unreadable_address
read_address (some a) d = ok (a, d)

-- The address comes back as a text, which is parsed.
unfoldable pub claim_next_ip_slot : Net → (IpSlot → Bool) → Uuid → Uuid → Statement Address
unfolding claim_slot
claim_next_ip_slot net locked n i d =
    and_then (claim_slot locked n i d) λ a. read_address (net.parse_addr (net.shown a))
