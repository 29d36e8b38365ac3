-- ===== src/Service/Snapshots.antt =====
-- The snapshot requests and tasks of internal/service/instance_service.go.
use casper_cloud.Prelude.{
  Bool, true, false, none, some, List, Text, is_empty, trim_space, if◌then◌else◌,
}
use casper_cloud.Data.{
  Uuid, InstanceState, eq_state, TaskStatus, TaskType, SnapshotStatus, Error,
  invalid_instance_action, snapshot_not_ready, hypervisor_failed, Snapshot, Task, TaskMessage,
}
use casper_cloud.Exec.{
  Exec, Event, pure, raise, db_call, on_error, ignore, request, publish_task, ◌>>=◌, ◌>>◌,
}
use casper_cloud.Repository.Statement.{Done}
use casper_cloud.Repository.Instances.{get_instance}
use casper_cloud.Repository.Tasks.{create_task}
use casper_cloud.Repository.Snapshots.{
  begin_snapshot_create, begin_snapshot_revert, update_snapshot_status, list_snapshots_for_instance,
  get_snapshot,
}
use casper_cloud.Service.Steps.{set_task, set_state, fail_task, fail_with_state}

unfoldable pub list_snapshots : Uuid → Uuid → Exec (List Snapshot)
list_snapshots p i = do db_call (get_instance p i); db_call (list_snapshots_for_instance p i)

abbrev pub is_snapshot_available : SnapshotStatus → Bool
is_snapshot_available SnapshotStatus.available = true
is_snapshot_available _ = false

unfoldable pub fail_snapshot : Uuid → Uuid → Exec Done
fail_snapshot p s = ignore (db_call (update_snapshot_status p s SnapshotStatus.error))

abbrev snapshot_message : Task → Uuid → Uuid → Uuid → InstanceState → TaskMessage
snapshot_message task p i s prior = record {
  task_id = task.id;
  type = task.type;
  project_id = p;
  instance_id = some i;
  snapshot_id = some s;
  prior_state = some prior;
  floating_ip_id = none;
  public_ip = none;
  private_ip = none;
}

-- The request under its trimmed name; the lock is undone where the task cannot be made or published.
unfoldable pub snapshot_create_named : Uuid → Uuid → Uuid → Text → Exec Task
unfolding fail_snapshot
snapshot_create_named s p i name = do
  prior ← db_call (begin_snapshot_create p i s name)
  task ←
      on_error (db_call (create_task TaskType.instance_snapshot_create p i TaskStatus.pending))
        (λ e. fail_snapshot p s >> ignore (set_state p i prior))
  on_error (publish_task (snapshot_message task p i s prior))
      (λ e. fail_task p task.id e >> fail_snapshot p s >> ignore (set_state p i prior))
  pure task

-- `s` is the id of `uuid.New()`.
unfoldable pub request_snapshot_create : Uuid → Uuid → Uuid → Text → Exec Task
request_snapshot_create s p i raw =
    if is_empty (trim_space raw)
    then raise invalid_instance_action
    else snapshot_create_named s p i (trim_space raw)

unfoldable pub request_snapshot_revert : Uuid → Uuid → Uuid → Exec Task
request_snapshot_revert p i s = do
  snap ← db_call (get_snapshot p i s)
  (if is_snapshot_available snap.status then pure tt else raise snapshot_not_ready)
  prior ← db_call (begin_snapshot_revert p i)
  task ←
      on_error (db_call (create_task TaskType.instance_snapshot_revert p i TaskStatus.pending))
        (λ e. ignore (set_state p i prior))
  on_error (publish_task (snapshot_message task p i s prior))
      (λ e. fail_task p task.id e >> ignore (set_state p i prior))
  pure task

-- The snapshot is marked too.
unfoldable pub fail_snapshot_task : Uuid → Uuid → Uuid → Uuid → InstanceState → Error → Exec Done
unfolding fail_snapshot
fail_snapshot_task p t i s prior e = fail_snapshot p s >> fail_with_state p t i prior e

unfoldable pub handle_snapshot_create_task : Uuid → Uuid → Uuid → Uuid → InstanceState → Exec Done
unfolding fail_snapshot_task
handle_snapshot_create_task t p i s prior = do
  set_task p t TaskStatus.running none
  snap ← on_error (db_call (get_snapshot p i s)) (fail_snapshot_task p t i s prior)
  inst ← on_error (db_call (get_instance p i)) (fail_snapshot_task p t i s prior)
  on_error
      (request
        (Event.create_internal_snapshot inst.name snap.id snap.name
          (eq_state InstanceState.running prior))
        hypervisor_failed)
      (fail_snapshot_task p t i s prior)
  on_error (db_call (update_snapshot_status p s SnapshotStatus.available))
      (fail_with_state p t i prior)
  on_error (set_state p i prior) (fail_task p t)
  set_task p t TaskStatus.succeeded none

unfoldable pub handle_snapshot_revert_task : Uuid → Uuid → Uuid → Uuid → InstanceState → Exec Done
handle_snapshot_revert_task t p i s prior = do
  set_task p t TaskStatus.running none
  snap ← on_error (db_call (get_snapshot p i s)) (fail_with_state p t i prior)
  on_error (if is_snapshot_available snap.status then pure tt else raise snapshot_not_ready)
      (fail_with_state p t i prior)
  inst ← on_error (db_call (get_instance p i)) (fail_with_state p t i prior)
  on_error
      (request
        (Event.revert_to_internal_snapshot inst.name snap.id snap.domain_was_running
          (eq_state InstanceState.running prior))
        hypervisor_failed)
      (fail_with_state p t i prior)
  on_error (set_state p i prior) (fail_task p t)
  set_task p t TaskStatus.succeeded none
