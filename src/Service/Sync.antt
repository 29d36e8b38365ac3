-- ===== src/Service/Sync.antt =====
-- `SyncHypervisorWithDB` in internal/service/instance_service.go and `BatchUpdateInstanceStates` in
-- internal/repository/state_sync.go.
use casper_cloud.Prelude.{ℕ, zero, suc, Bool, List, [], ◌∷◌, ◌||◌, Text, length, if◌then◌else◌}
use casper_cloud.Data.{InstanceState, eq_state, hypervisor_failed}
use casper_cloud.Exec.{Exec, Event, ok, pure, db_call, request, ◌>>=◌, ◌>>◌}
use casper_cloud.Repository.Statement.{Done, Statement}
use casper_cloud.Repository.Instances.{
  InstanceSyncRow, InstanceStateUpdate, list_instances_for_hypervisor_sync, apply_batch,
}
use casper_cloud.Libvirt.Names.{sanitize_libvirt_name}

-- `stateSyncBatchSize`
abbrev pub state_sync_batch_size : ℕ
state_sync_batch_size = 128

unfoldable pub take : {A : Type 0} → ℕ → List A → List A
take zero xs = []
take (suc n) [] = []
take (suc n) (x ∷ xs) = x ∷ take n xs

unfoldable pub drop : {A : Type 0} → ℕ → List A → List A
drop zero xs = xs
drop (suc n) [] = []
drop (suc n) (x ∷ xs) = drop n xs

unfoldable pub send_batch : List InstanceStateUpdate → Statement Done
send_batch us d = ok (tt, apply_batch us d)

-- `for i := 0; i < len(updates); i += size`, with fuel for the rounds.
unfoldable pub batch_rounds : ℕ → ℕ → List InstanceStateUpdate → Exec Done
unfolding take drop send_batch
batch_rounds size zero us = pure tt
batch_rounds size (suc fuel) [] = pure tt
batch_rounds size (suc fuel) (u ∷ us) = do
  db_call (send_batch (take size (u ∷ us)))
  batch_rounds size fuel (drop size (u ∷ us))

unfoldable pub batch_update_instance_states : List InstanceStateUpdate → Exec Done
unfolding batch_rounds
batch_update_instance_states us = batch_rounds state_sync_batch_size (length us) us

-- `running` is the answer of `ListDomainRunning`: of a domain's name, whether it runs (a name that is
-- not listed does not).
unfoldable pub state_updates : (Text → Bool) → List InstanceSyncRow → List InstanceStateUpdate
state_updates running [] = []
state_updates running (row ∷ rows) =
    if eq_state InstanceState.creating row.state || eq_state InstanceState.snapshotting row.state
    then state_updates running rows
    else if running (sanitize_libvirt_name row.name)
    then (if eq_state InstanceState.running row.state
        then state_updates running rows
        else change row InstanceState.running ∷ state_updates running rows)
    else (if eq_state InstanceState.running row.state
        then change row InstanceState.stopped ∷ state_updates running rows
        else state_updates running rows)
  where
    change : InstanceSyncRow → InstanceState → InstanceStateUpdate
    change r s = record { project_id = r.project_id; instance_id = r.id; new_state = s }

unfoldable pub sync_hypervisor_with_db : (Text → Bool) → Exec Done
unfolding state_updates batch_update_instance_states
sync_hypervisor_with_db running = do
  request Event.list_domains hypervisor_failed
  rows ← db_call list_instances_for_hypervisor_sync
  batch_update_instance_states (state_updates running rows)
