-- ===== src/Repository/Claims.antt =====
-- What a new instance gets from the pool of its network.
use casper_cloud.Prelude.{◌≡◌, ◌&&◌, not, Bool, Option, none, arith}
use casper_cloud.Data.{Inet, Uuid, Instance, IpSlot, Db}
use casper_cloud.Exec.{ok}
use casper_cloud.Repository.Kept.{and_then-ok}
use casper_cloud.Repository.Networks.{Net, is_slot, is_free_slot, claim_slot, claim_next_ip_slot}
use casper_cloud.Repository.Create.{
  CreateInstanceParams, create_instance_with_ipam, ensure_slots, insert_instance,
}

-- A slot of the network that neither an instance nor another transaction has.
abbrev pub is_claimable : (IpSlot → Bool) → Uuid → IpSlot → Bool
is_claimable locked n r = is_free_slot n r && not (locked r)

-- The same network and address.
abbrev same_slot : IpSlot → IpSlot → Bool
same_slot s r = is_slot s.network_id s.ip_address r

-- A slot of the address, and whose it is.
abbrev pub is_slot_at : Uuid → Inet → (Option Uuid → Bool) → IpSlot → Bool
is_slot_at n a holder r = is_slot n a r && holder r.instance_id

-- When no text that PostgreSQL shows of an INET column is one that netip reads as an address, no
-- instance is created, whatever its parameters and the tables.
pub create_instance_with_ipam_refused :
    (net : Net) (locked : IpSlot → Bool) (x : CreateInstanceParams) (d : Db)
    → ((a : Inet) → net.parse_addr (net.shown a) ≡ none)
    → (r : Instance) (d' : Db) → ¬ (create_instance_with_ipam net locked x d ≡ ok (r, d'))
unfolding create_instance_with_ipam claim_next_ip_slot
create_instance_with_ipam_refused net locked x d unread r d' e =
    let (u, d₁, s₁, e₁) =
      and_then-ok (ensure_slots net x.network_id x.network_cidr x.network_gateway d) _ r d' e in
    let (v, d₂, s₂, e₂) = and_then-ok (insert_instance net x d₁) _ r d' e₁ in
    let (a, d₃, s₃, e₃) =
      and_then-ok (claim_next_ip_slot net locked x.network_id x.instance_id d₂) _ r d' e₂ in
    let (b, d₄, s₄, e₄) = and_then-ok (claim_slot locked x.network_id x.instance_id d₂) _ a d₃ s₃ in
    ground (arith, unread b)
