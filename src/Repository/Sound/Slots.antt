-- ===== src/Repository/Sound/Slots.antt =====
-- The slots of a network: seeding them and claiming one keep the tables sound.
use casper_cloud.Prelude.{
  Bool-cases, inl, inr, count, exists, select, update, All, refl, ap, true, false, ◌∙◌, sym, ◌≢◌,
  ◌≡◌, ◌==◌, ℕ, Bool, Option, none, some, Text, List, [], ◌∷◌, arith, All-update, select-update,
  select-cons,
}
use casper_cloud.Data.{Uuid, Inet, Network, IpSlot, Db}
use casper_cloud.Exec.{Result, ok, err}
use casper_cloud.Exec.Keeps.{Kept}
use casper_cloud.Repository.Kept.{Kept-and_then}
use casper_cloud.Repository.Sound.{Sound, SlotOk}
use casper_cloud.Repository.Sound.Change.{with_slots}
use casper_cloud.Repository.Hosts.{usable_ipv4_hosts, Address, v4, v6, Prefix}
use casper_cloud.Repository.Networks.{
  Net, read_address, seed_network_ip_slots, seed_from, seed_hosts, is_slot, insert_slot,
  insert_slots, take_slot, claim_slot, claim_next_ip_slot,
}
use casper_cloud.Repository.Create.{read_prefix, ensure_slots}

-- Slots of another project's network are added.
module _ (own : Uuid → Uuid) (q n : Uuid) (other : own n ≢ q) where
  insert_slot-ok :
      (a : Inet) (slots : List IpSlot)
      → All (SlotOk own) slots
      → All (SlotOk own) (insert_slot n a slots)
        × (select (λ r. own r.network_id == q) (insert_slot n a slots)
            ≡ select (λ r. own r.network_id == q) slots)
  insert_slot-ok a slots v = elim (Bool-cases (exists (is_slot n a) slots)) [
    | inl t ↦ rw t (v, refl)
    | inr t ↦
        let row : IpSlot = record { network_id = n; ip_address = a; instance_id = none } in
        rw t ((tt, v), select-cons (λ (r : IpSlot). own r.network_id == q) row slots (ground arith))
  ]

  insert_slots-ok :
      (hosts : List Inet) (slots : List IpSlot)
      → All (SlotOk own) slots
      → All (SlotOk own) (insert_slots n hosts slots)
        × (select (λ r. own r.network_id == q) (insert_slots n hosts slots)
            ≡ select (λ r. own r.network_id == q) slots)
  unfolding insert_slots
  insert_slots-ok [] slots v = (v, refl)
  insert_slots-ok (a ∷ more) slots v =
      let (k, e) = insert_slot-ok a slots v in
      let (k', e') = insert_slots-ok more (insert_slot n a slots) k in (k', e' ∙ e)

-- A transaction is kept if each of its steps is.
module _ (own : Uuid → Uuid) (q : Uuid) (d₀ : Db) (net : Net) where
  seed_hosts-Sound :
      (n : Uuid) (r : Result (List Inet)) (d : Db)
      → own n ≢ q
      → Sound own q d₀ d
      → Kept (Sound own q d₀) (seed_hosts n r d)
  seed_hosts-Sound n (err e) d other h = tt
  seed_hosts-Sound n (ok []) d other h = tt
  seed_hosts-Sound n (ok (a ∷ more)) d other h =
      elim (Bool-cases (exists (λ (r : Network). r.id == n) d.networks)) [
        | inl t ↦
            let (k, e) = insert_slots-ok own q n other (a ∷ more) d.ip_slots h.slots.good in
            rw t (with_slots own q d₀ d h _ k e)
        | inr t ↦ rw t tt
      ]

  seed_from-Sound :
      (n : Uuid) (a : Address) (bits : ℕ) (g : Address) (d : Db)
      → own n ≢ q
      → Sound own q d₀ d
      → Kept (Sound own q d₀) (seed_from n a bits g d)
  seed_from-Sound n (v6 t) bits g d other h = tt
  seed_from-Sound n (v4 a) bits (v6 t) d other h = tt
  seed_from-Sound n (v4 a) bits (v4 g) d other h =
      seed_hosts-Sound n (usable_ipv4_hosts a bits g) d other h

  pub seed-Sound :
      (n : Uuid) (prefix : Prefix) (g : Address) (d : Db)
      → own n ≢ q
      → Sound own q d₀ d
      → Kept (Sound own q d₀) (seed_network_ip_slots n prefix g d)
  unfolding seed_network_ip_slots
  seed-Sound n prefix g d other h = seed_from-Sound n prefix.address prefix.bits g d other h

  pub read_prefix-Sound :
      (o : Option Prefix) (d : Db) → Sound own q d₀ d → Kept (Sound own q d₀) (read_prefix o d)
  read_prefix-Sound none d h = tt
  read_prefix-Sound (some x) d h = h

  pub read_address-Sound :
      (o : Option Address) (d : Db) → Sound own q d₀ d → Kept (Sound own q d₀) (read_address o d)
  read_address-Sound none d h = tt
  read_address-Sound (some x) d h = h

  pub ensure_slots-Sound :
      (n : Uuid) (cidr gateway : Text) (d : Db)
      → own n ≢ q
      → Sound own q d₀ d
      → Kept (Sound own q d₀) (ensure_slots net n cidr gateway d)
  unfolding ensure_slots
  ensure_slots-Sound n cidr gateway d other h =
      elim (Bool-cases (count (λ (r : IpSlot). r.network_id == n) d.ip_slots == 0)) [
        | inl t ↦ rw t (
            Kept-and_then (Sound own q d₀) _ _ (read_prefix-Sound (net.parse_prefix cidr) d h)
              λ x d₁ h₁.
                Kept-and_then (Sound own q d₀) _ _
                  (read_address-Sound (net.parse_addr gateway) d₁ h₁)
                  λ g d₂ h₂. seed-Sound n x g d₂ other h₂)
        | inr t ↦ rw t h
      ]

  pub take_slot-Sound :
      (n i : Uuid) (o : Option IpSlot) (d : Db)
      → own n ≢ q
      → own i ≡ own n
      → Sound own q d₀ d
      → Kept (Sound own q d₀) (take_slot n i o d)
  take_slot-Sound n i none d other mine h = tt
  take_slot-Sound n i (some s) d other mine h =
      let claim = λ (r : IpSlot). record r { instance_id = some i } in
      with_slots own q d₀ d h (update (is_slot n s.ip_address) claim d.ip_slots)
        (All-update (SlotOk own) (is_slot n s.ip_address) claim
          (λ r t v. mine ∙ ap own (sym (slot-network n s.ip_address r t))) d.ip_slots h.slots.good)
        (select-update (λ (r : IpSlot). own r.network_id == q) (is_slot n s.ip_address) claim
          (λ r t.
            let out =
              not_owned r (λ e. other (ap own (sym (slot-network n s.ip_address r t)) ∙ e)) in
            (out, out))
          d.ip_slots)
    where
      slot-network : (m : Uuid) (a : Inet) (r : IpSlot) → is_slot m a r ≡ true → r.network_id ≡ m
      slot-network m a r t = ground arith

      not_owned : (r : IpSlot) → own r.network_id ≢ q → (own r.network_id == q) ≡ false
      not_owned r k = ground arith

  pub claim_next_ip_slot-Sound :
      (locked : IpSlot → Bool) (n i : Uuid) (d : Db)
      → own n ≢ q
      → own i ≡ own n
      → Sound own q d₀ d
      → Kept (Sound own q d₀) (claim_next_ip_slot net locked n i d)
  unfolding claim_next_ip_slot claim_slot
  claim_next_ip_slot-Sound locked n i d other mine h =
      Kept-and_then (Sound own q d₀) _ _ (take_slot-Sound n i _ d other mine h)
        λ a. read_address-Sound (net.parse_addr (net.shown a))
