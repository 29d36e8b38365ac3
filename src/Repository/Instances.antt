-- ===== src/Repository/Instances.antt =====
-- The instances: internal/repository/repository.go, state_sync.go and instances_metrics.go.
use casper_cloud.Prelude.{
  ◌==◌, ◌&&◌, not, Bool, List, [], ◌∷◌, Text, map, select, select_row, update, exists,
  order_by_desc,
}
use casper_cloud.Data.{Uuid, InstanceState, eq_state, not_found, Instance, Db}
use casper_cloud.Exec.{ok}
use casper_cloud.Repository.Statement.{Statement, Done, one_row, affected}

-- `WHERE project_id = $1 AND id = $2`
abbrev pub is_instance : Uuid → Uuid → Instance → Bool
is_instance p i r = r.project_id == p && r.id == i

unfoldable pub get_instance : Uuid → Uuid → Statement Instance
get_instance p i d = one_row (select_row (is_instance p i) d.instances) not_found d

unfoldable pub list_instances : Uuid → Statement (List Instance)
list_instances p d =
    ok (order_by_desc (λ r. r.created_at) (select (λ r. r.project_id == p) d.instances), d)

unfoldable pub update_instance_state : Uuid → Uuid → InstanceState → Statement Done
update_instance_state p i s d =
    affected (exists (is_instance p i) d.instances) not_found (record d {
      instances =
          update (is_instance p i) (λ r. record r { state = s; updated_at = d.now }) d.instances;
    })

-- `InstanceSyncRow`
pub record InstanceSyncRow : Type 0 where
  pub id : Uuid
  pub project_id : Uuid
  pub name : Text
  pub state : InstanceState

-- `InstanceStateUpdate`
pub record InstanceStateUpdate : Type 0 where
  pub project_id : Uuid
  pub instance_id : Uuid
  pub new_state : InstanceState

unfoldable pub list_instances_for_hypervisor_sync : Statement (List InstanceSyncRow)
list_instances_for_hypervisor_sync d = ok (
  map (λ r. record { id = r.id; project_id = r.project_id; name = r.name; state = r.state })
      (select (λ r. not (eq_state InstanceState.deleting r.state)) d.instances),
  d,
)

-- `WHERE project_id = $1 AND id = $2 AND state != $3`
unfoldable pub apply_state_update : InstanceStateUpdate → Db → Db
apply_state_update u d = record d {
  instances =
      update (λ r. is_instance u.project_id u.instance_id r && not (eq_state u.new_state r.state))
        (λ r. record r { state = u.new_state; updated_at = d.now }) d.instances;
}

-- One batch, which the driver sends as one transaction.
unfoldable pub apply_batch : List InstanceStateUpdate → Db → Db
apply_batch [] d = d
apply_batch (u ∷ us) d = apply_batch us (apply_state_update u d)

-- `RunningInstanceRow`
pub record RunningInstanceRow : Type 0 where
  pub id : Uuid
  pub project_id : Uuid
  pub name : Text

unfoldable pub list_running_instances_for_metrics : Statement (List RunningInstanceRow)
list_running_instances_for_metrics d = ok (
  map (λ r. record { id = r.id; project_id = r.project_id; name = r.name })
      (select (λ r. eq_state InstanceState.running r.state) d.instances),
  d,
)
