-- ===== src/Repository/Sound/Create.antt =====
-- What the transaction that creates an instance keeps.
use casper_cloud.Prelude.{
  select_row, select_row_sound, ◌∙◌, sym, ◌≢◌, ◌≡◌, ◌==◌, Bool, Text, ◌∷◌, arith, All-update,
  select-update, select-cons,
}
use casper_cloud.Data.{not_found, Uuid, Inet, Instance, IpSlot, IpAllocation, Db}
use casper_cloud.Exec.{Result, ok, err}
use casper_cloud.Exec.Keeps.{Kept}
use casper_cloud.Repository.Kept.{Kept-one_row, Kept-and_then, and_then-ok, one_row-ok}
use casper_cloud.Repository.Sound.{Sound, InstanceOk}
use casper_cloud.Repository.Sound.Change.{with_instances, with_allocations}
use casper_cloud.Repository.Instances.{is_instance, get_instance}
use casper_cloud.Repository.Hosts.{Address, v4, v6}
use casper_cloud.Repository.Networks.{Net, read_address, claim_next_ip_slot}
use casper_cloud.Repository.Create.{
  CreateInstanceParams, read_prefix, new_instance, write_address, create_instance_with_ipam,
  ensure_slots, insert_instance, insert_allocation, set_address,
}
use casper_cloud.Repository.Sound.Slots.{
  ensure_slots-Sound, claim_next_ip_slot-Sound, read_prefix-Sound, read_address-Sound,
}

module _ (own : Uuid → Uuid) (p q : Uuid) (ne : p ≢ q) (d₀ : Db) (net : Net) where
  -- The id of a new instance is one of the project.
  insert_instance-Sound :
      (x : CreateInstanceParams) (d : Db)
      → x.project_id ≡ p
      → own x.instance_id ≡ p
      → Sound own q d₀ d
      → Kept (Sound own q d₀) (insert_instance net x d)
  unfolding insert_instance
  insert_instance-Sound x d e o h =
      let kept =
        with_instances own q d₀ d h (new_instance net x d ∷ d.instances)
          (o ∙ sym e, h.instances.good)
          (select-cons (λ r. r.project_id == q) (new_instance net x d) d.instances
            (ground arith)) in
      ground (arith, kept)

  set_address-Sound :
      (x : CreateInstanceParams) (a : Inet) (yaml : Text) (d : Db)
      → x.project_id ≡ p
      → Sound own q d₀ d
      → Sound own q d₀ (set_address net x a yaml d)
  set_address-Sound x a yaml d e h =
      with_instances own q d₀ d h _
        (All-update (InstanceOk own) _ _ (λ r k v. v) d.instances h.instances.good)
        (select-update _ _ _ (λ r k. ground arith) d.instances)

  insert_allocation-Sound :
      (x : CreateInstanceParams) (a : Inet) (d : Db)
      → x.project_id ≡ p
      → own x.instance_id ≡ p
      → Sound own q d₀ d
      → Kept (Sound own q d₀) (insert_allocation net x a d)
  unfolding insert_allocation
  insert_allocation-Sound x a d e o h =
      let row : IpAllocation = record {
        network_id = x.network_id;
        project_id = x.project_id;
        instance_id = x.instance_id;
        ip_address = a;
      } in
      let kept =
        with_allocations own q d₀ d h (row ∷ d.ip_allocations) (o ∙ sym e, h.allocations.good)
          (select-cons (λ (r : IpAllocation). r.project_id == q) row d.ip_allocations
            (ground arith)) in
      ground (arith, kept)

  write_address-Sound :
      (x : CreateInstanceParams) (a : Address) (r : Result Text) (d : Db)
      → x.project_id ≡ p
      → own x.instance_id ≡ p
      → Sound own q d₀ d
      → Kept (Sound own q d₀) (write_address net x a r d)
  unfolding get_instance
  write_address-Sound x a (err y) d e o h = tt
  write_address-Sound x (v6 t) (ok yaml) d e o h = tt
  write_address-Sound x (v4 a) (ok yaml) d e o h =
      Kept-and_then (Sound own q d₀) _ _
        (insert_allocation-Sound x a (set_address net x a yaml d) e o
          (set_address-Sound x a yaml d e h))
        λ _ d₁ h₁. Kept-one_row (Sound own q d₀) _ _ d₁ h₁

  pub create_instance_with_ipam-Sound :
      (locked : IpSlot → Bool) (x : CreateInstanceParams) (d : Db)
      → x.project_id ≡ p
      → own x.instance_id ≡ p
      → own x.network_id ≡ p
      → Sound own q d₀ d
      → Kept (Sound own q d₀) (create_instance_with_ipam net locked x d)
  unfolding create_instance_with_ipam
  create_instance_with_ipam-Sound locked x d e o m h =
      let other : own x.network_id ≢ q = λ k. ne (sym m ∙ k) in
      Kept-and_then (Sound own q d₀) _ _
        (ensure_slots-Sound own q d₀ net x.network_id x.network_cidr x.network_gateway d other h)
        λ _ d₁ h₁. Kept-and_then (Sound own q d₀) _ _ (insert_instance-Sound x d₁ e o h₁) λ _ d₂ h₂.
          Kept-and_then (Sound own q d₀) _ _
            (claim_next_ip_slot-Sound own q d₀ net locked x.network_id x.instance_id d₂ other
              (o ∙ sym m) h₂)
            λ a d₃ h₃.
              Kept-and_then (Sound own q d₀) _ _
                (read_address-Sound own q d₀ net (net.parse_addr x.network_gateway) d₃ h₃)
                λ g d₄ h₄.
                  Kept-and_then (Sound own q d₀) _ _
                    (read_prefix-Sound own q d₀ net (net.parse_prefix x.network_cidr) d₄ h₄)
                    λ prefix d₅ h₅. write_address-Sound x a _ d₅ e o h₅

module _ (net : Net) where
  -- The row that comes back is that of the new id.
  get_instance-id :
      (i j : Uuid) (r : Instance) (d d' : Db) → get_instance i j d ≡ ok (r, d') → r.id ≡ j
  unfolding get_instance
  get_instance-id i j r d d' e =
      let (found, same) =
        one_row-ok (select_row (is_instance i j) d.instances) not_found d r d' e in
      ground (arith, select_row_sound (is_instance i j) r d.instances found)

  write_address-id :
      (x : CreateInstanceParams) (a : Address) (y : Result Text) (r : Instance) (d d' : Db)
      → write_address net x a y d ≡ ok (r, d')
      → r.id ≡ x.instance_id
  write_address-id x a (err z) r d d' e = ground arith
  write_address-id x (v6 t) (ok yaml) r d d' e = ground arith
  write_address-id x (v4 a) (ok yaml) r d d' e =
      let (u, d₁, first, k) =
        and_then-ok (insert_allocation net x a (set_address net x a yaml d)) _ r d' e in
      get_instance-id x.project_id x.instance_id r d₁ d' k

  pub create_instance_with_ipam-id :
      (locked : IpSlot → Bool) (x : CreateInstanceParams) (r : Instance) (d d' : Db)
      → create_instance_with_ipam net locked x d ≡ ok (r, d')
      → r.id ≡ x.instance_id
  unfolding create_instance_with_ipam
  create_instance_with_ipam-id locked x r d d' e =
      let (u, d₁, s₁, e₁) =
        and_then-ok (ensure_slots net x.network_id x.network_cidr x.network_gateway d) _ r d' e in
      let (v, d₂, s₂, e₂) = and_then-ok (insert_instance net x d₁) _ r d' e₁ in
      let (a, d₃, s₃, e₃) =
        and_then-ok (claim_next_ip_slot net locked x.network_id x.instance_id d₂) _ r d' e₂ in
      let (g, d₄, s₄, e₄) =
        and_then-ok (read_address (net.parse_addr x.network_gateway) d₃) _ r d' e₃ in
      let (f, d₅, s₅, e₅) =
        and_then-ok (read_prefix (net.parse_prefix x.network_cidr) d₄) _ r d' e₄ in
      write_address-id x a _ r d₅ d' e₅
