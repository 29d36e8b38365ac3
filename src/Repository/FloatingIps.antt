-- ===== src/Repository/FloatingIps.antt =====
-- The floating IPs: internal/repository/floating_ips.go.
use casper_cloud.Prelude.{
  ◌==◌, ◌&&◌, not, Bool, true, false, Option, none, some, List, [], ◌∷◌, is_some, points_to, select,
  select_row, update, exists, order_by, lowest,
}
use casper_cloud.Data.{
  Uuid, InstanceState, eq_state, FloatingIpStatus, not_found, no_floating_ips_available,
  floating_ip_associate_preconditions, floating_ip_missing_address, Instance, FloatingIp,
  FloatingIpNatBinding, Db,
}
use casper_cloud.Exec.{ok, err}
use casper_cloud.Repository.Statement.{Statement, Done, one_row}
use casper_cloud.Repository.Instances.{is_instance}

-- `WHERE id = $1 AND project_id = $2`
abbrev pub is_floating_ip : Uuid → Uuid → FloatingIp → Bool
is_floating_ip p f r = points_to r.project_id p && r.id == f

abbrev pub is_unallocated : FloatingIpStatus → Bool
is_unallocated FloatingIpStatus.unallocated = true
is_unallocated _ = false

abbrev pub is_allocated : FloatingIpStatus → Bool
is_allocated FloatingIpStatus.allocated = true
is_allocated _ = false

abbrev pub is_active : FloatingIpStatus → Bool
is_active FloatingIpStatus.active = true
is_active _ = false

abbrev pub allocate_pick : Option FloatingIp → Uuid → Statement FloatingIp
allocate_pick none p d = err no_floating_ips_available
allocate_pick (some f) p d =
    one_row (select_row (λ r. r.id == f.id) rows) no_floating_ips_available
      (record d { floating_ips = rows })
  where
    rows : List FloatingIp
    rows =
        update (λ r. r.id == f.id)
          (λ r. record r {
            project_id = some p;
            status = FloatingIpStatus.allocated;
            updated_at = d.now;
          })
          d.floating_ips

-- `locked` tells of each row whether another transaction holds it: SKIP LOCKED passes it over.
unfoldable pub allocate_floating_ip_to_project : (Uuid → Bool) → Uuid → Statement FloatingIp
allocate_floating_ip_to_project locked p d =
    allocate_pick
      (lowest (λ r. r.public_ip)
        (select (λ r. is_unallocated r.status && not (locked r.id)) d.floating_ips))
      p d

unfoldable pub list_floating_ips_for_project : Uuid → Statement (List FloatingIp)
list_floating_ips_for_project p d =
    ok (order_by (λ r. r.public_ip) (select (λ r. points_to r.project_id p) d.floating_ips), d)

unfoldable pub get_floating_ip_for_project : Uuid → Uuid → Statement FloatingIp
get_floating_ip_for_project p f d =
    one_row (select_row (is_floating_ip p f) d.floating_ips) not_found d

-- `i.project_id = $1 AND i.id = $3 AND i.state = 'running' AND i.ipv4_address IS NOT NULL`
abbrev pub can_bind : Uuid → Uuid → Instance → Bool
can_bind p i r =
    is_instance p i r && eq_state InstanceState.running r.state && is_some r.ipv4_address

-- `f.id = $2 AND f.project_id = $1 AND f.status = 'allocated' AND f.instance_id IS NULL`
abbrev pub is_bindable : Uuid → Uuid → FloatingIp → Bool
is_bindable p f r = is_floating_ip p f r && is_allocated r.status && not (is_some r.instance_id)

-- The row after the binding.
abbrev pub bind_to : Instance → Db → FloatingIp → FloatingIp
bind_to i d r = record r {
  instance_id = some i.id;
  private_ip = i.ipv4_address;
  status = FloatingIpStatus.active;
  updated_at = d.now;
}

abbrev associate_on : Option Instance → Option FloatingIp → Uuid → Uuid → Statement FloatingIp
associate_on none o p f d = err floating_ip_associate_preconditions
associate_on (some i) none p f d = err floating_ip_associate_preconditions
associate_on (some i) (some r) p f d = ok (
  bind_to i d r,
  record d { floating_ips = update (is_bindable p f) (bind_to i d) d.floating_ips },
)

unfoldable pub try_associate_floating_ip : Uuid → Uuid → Uuid → Statement FloatingIp
try_associate_floating_ip p f i d =
    associate_on (select_row (can_bind p i) d.instances)
      (select_row (is_bindable p f) d.floating_ips) p f d

-- `SET instance_id = NULL, private_ip = NULL, status = 'allocated'`
abbrev pub unbind : Db → FloatingIp → FloatingIp
unbind d r = record r {
  instance_id = none;
  private_ip = none;
  status = FloatingIpStatus.allocated;
  updated_at = d.now;
}

abbrev take_on : Option FloatingIp → Uuid → Uuid → Statement FloatingIpNatBinding
take_on none p f d = err not_found
take_on (some r) p f d = elim r.private_ip [
  | none ↦ err floating_ip_missing_address
  | some a ↦ ok (
    record { public_ip = r.public_ip; private_ip = a },
    record d { floating_ips = update (is_floating_ip p f) (unbind d) d.floating_ips },
  )
]

unfoldable pub take_disassociate_floating_ip : Uuid → Uuid → Statement FloatingIpNatBinding
take_disassociate_floating_ip p f d =
    take_on (select_row (λ r. is_floating_ip p f r && is_active r.status) d.floating_ips) p f d

-- The pairs of the rows that have a private address.
unfoldable pub nat_bindings : List FloatingIp → List FloatingIpNatBinding
nat_bindings [] = []
nat_bindings (r ∷ rs) = elim r.private_ip [
  | none ↦ nat_bindings rs
  | some a ↦ record { public_ip = r.public_ip; private_ip = a } ∷ nat_bindings rs
]

unfoldable pub list_active_floating_ip_nat_bindings_by_instance :
    Uuid → Uuid → Statement (List FloatingIpNatBinding)
list_active_floating_ip_nat_bindings_by_instance p i d = ok (
  nat_bindings (
      select (λ r. points_to r.project_id p && points_to r.instance_id i && is_active r.status)
        d.floating_ips),
  d,
)

-- The instance that the row joins: `i.id = f.instance_id AND i.project_id = f.project_id`, running.
abbrev pub joins_running : FloatingIp → Instance → Bool
joins_running r i =
    points_to r.instance_id i.id
    && points_to r.project_id i.project_id
    && eq_state InstanceState.running i.state

-- An instance's id is its key, so a row joins one instance at most.
unfoldable pub list_floating_ips_active_for_reconcile : Statement (List FloatingIpNatBinding)
list_floating_ips_active_for_reconcile d = ok (
  nat_bindings
      (select (λ r. is_active r.status && exists (joins_running r) d.instances) d.floating_ips),
  d,
)

unfoldable pub rollback_floating_ip_association : Uuid → Uuid → Statement Done
rollback_floating_ip_association p f d = ok (
  tt,
  record d {
    floating_ips =
        update (λ r. is_floating_ip p f r && is_active r.status) (unbind d) d.floating_ips;
  },
)

-- `CASE WHEN status = 'active' THEN 'allocated' ELSE status END`
abbrev pub released : FloatingIpStatus → FloatingIpStatus
released FloatingIpStatus.active = FloatingIpStatus.allocated
released s = s

abbrev pub clear_binding : Db → FloatingIp → FloatingIp
clear_binding d r = record r {
  instance_id = none;
  private_ip = none;
  status = released r.status;
  updated_at = d.now;
}

unfoldable pub clear_floating_ip_bindings_for_instance : Uuid → Uuid → Statement Done
clear_floating_ip_bindings_for_instance p i d = ok (
  tt,
  record d {
    floating_ips =
        update (λ r. points_to r.project_id p && points_to r.instance_id i) (clear_binding d)
          d.floating_ips;
  },
)
