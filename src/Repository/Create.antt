-- ===== src/Repository/Create.antt =====
-- New instances and projects, with their addresses: internal/repository/instance_ipam.go and
-- `CreateProject` in repository.go.
use casper_cloud.Prelude.{
  ◌==◌, ◌&&◌, ◌||◌, eq_text, Bool, Option, none, some, [], ◌∷◌, Text, exists, count, update,
  if◌then◌else◌,
}
use casper_cloud.Data.{
  Uuid, Inet, InstanceState, unreadable_address, constraint_violation, unique_violation, Project,
  Network, Image, IpSlot, IpAllocation, Instance, Db,
}
use casper_cloud.Exec.{Result, ok, err}
use casper_cloud.CloudInit.{render_network_config_v2}
use casper_cloud.Repository.Statement.{Statement, Done, and_then}
use casper_cloud.Repository.Instances.{is_instance, get_instance}
use casper_cloud.Repository.Hosts.{Address, v4, v6, Prefix}
use casper_cloud.Repository.Networks.{
  Net, read_address, seed_network_ip_slots, claim_next_ip_slot, insert_default_network,
}
use casper_cloud.Repository.Accounts.{insert_project, insert_membership}

-- `CreateInstanceParams`
pub record CreateInstanceParams : Type 0 where
  pub instance_id : Uuid
  pub project_id : Uuid
  pub image_id : Uuid
  pub name : Text
  pub user_data : Text
  pub initial_state : InstanceState
  pub network_id : Uuid
  pub network_cidr : Text
  pub network_gateway : Text
  pub bridge_name : Text
  pub mac : Text

abbrev pub read_prefix : Option Prefix → Statement Prefix
read_prefix none d = err unreadable_address
read_prefix (some p) d = ok (p, d)

module _ (net : Net) where
  -- The pool is filled when the network has no slot.
  unfoldable pub ensure_slots : Uuid → Text → Text → Statement Done
  unfolding seed_network_ip_slots
  ensure_slots n cidr gateway d =
      if count (λ (r : IpSlot). r.network_id == n) d.ip_slots == 0
      then (and_then (read_prefix (net.parse_prefix cidr) d) λ prefix d₁.
          and_then (read_address (net.parse_addr gateway) d₁) λ g. seed_network_ip_slots n prefix g)
      else ok (tt, d)

  abbrev pub new_instance : CreateInstanceParams → Db → Instance
  new_instance p d = record {
    id = p.instance_id;
    project_id = p.project_id;
    image_id = p.image_id;
    name = p.name;
    state = p.initial_state;
    cloud_init_data = p.user_data;
    network_id = some p.network_id;
    mac_address = some p.mac;
    bridge_name = p.bridge_name;
    ipv4_address = none;
    network_config_yaml = [];
    created_at = d.now;
    updated_at = d.now;
  }

  -- The id and the name within the project are unique; project, image and network are there.
  unfoldable pub insert_instance : CreateInstanceParams → Statement Done
  insert_instance p d =
      if exists
        (λ (r : Instance).
          r.id == p.instance_id || (r.project_id == p.project_id && eq_text r.name p.name))
        d.instances
      then err unique_violation
      else if exists (λ (r : Project). r.id == p.project_id) d.projects
          && exists (λ (r : Image). r.id == p.image_id) d.images
          && exists (λ (r : Network). r.id == p.network_id) d.networks
      then ok (tt, record d { instances = new_instance p d ∷ d.instances })
      else err constraint_violation

  -- `SET ipv4_address = $1::inet, network_config_yaml = $2`
  abbrev pub set_address : CreateInstanceParams → Inet → Text → Db → Db
  set_address p a yaml d = record d {
    instances =
        update (is_instance p.project_id p.instance_id)
          (λ r. record r { ipv4_address = some a; network_config_yaml = yaml; updated_at = d.now })
          d.instances;
  }

  -- The address within the network, and the instance, are unique.
  unfoldable pub insert_allocation : CreateInstanceParams → Inet → Statement Done
  insert_allocation p a d =
      if exists
        (λ (r : IpAllocation).
          (r.network_id == p.network_id && r.ip_address == a) || r.instance_id == p.instance_id)
        d.ip_allocations
      then err unique_violation
      else ok (
        tt,
        record d {
          ip_allocations =
              record {
                network_id = p.network_id;
                project_id = p.project_id;
                instance_id = p.instance_id;
                ip_address = a;
              }
              ∷ d.ip_allocations;
        },
      )

  abbrev pub write_address : CreateInstanceParams → Address → Result Text → Statement Instance
  write_address p a (err e) d = err e
  write_address p (v6 t) (ok yaml) d = err constraint_violation
  write_address p (v4 a) (ok yaml) d =
      and_then (insert_allocation p a (set_address p a yaml d))
        λ _. get_instance p.project_id p.instance_id

  -- One transaction.
  unfoldable pub create_instance_with_ipam :
      (IpSlot → Bool) → CreateInstanceParams → Statement Instance
  unfolding ensure_slots insert_instance insert_allocation claim_next_ip_slot get_instance
      render_network_config_v2
  create_instance_with_ipam locked p d =
      and_then (ensure_slots p.network_id p.network_cidr p.network_gateway d) λ _ d₁.
        and_then (insert_instance p d₁) λ _ d₂.
          and_then (claim_next_ip_slot net locked p.network_id p.instance_id d₂) λ a d₃.
            and_then (read_address (net.parse_addr p.network_gateway) d₃) λ g d₄.
              and_then (read_prefix (net.parse_prefix p.network_cidr) d₄)
                λ prefix. write_address p a (render_network_config_v2 p.mac a g prefix.bits)

  -- One transaction.
  unfoldable pub create_project : Uuid → Text → Text → Text → Text → Statement Project
  unfolding insert_project insert_membership insert_default_network seed_network_ip_slots
  create_project owner name cidr gateway bridge d = and_then (insert_project owner name d) λ p d₁.
      and_then
        (insert_default_network net p.id cidr gateway bridge (insert_membership p.id owner d₁))
        λ n d₂. and_then (read_prefix (net.parse_prefix cidr) d₂) λ prefix d₃.
          and_then (read_address (net.parse_addr gateway) d₃)
            λ g d₄. and_then (seed_network_ip_slots n prefix g d₄) λ _ d₅. ok (p, d₅)
