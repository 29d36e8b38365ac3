-- ===== src/Service/Lifecycle.antt =====
-- Start, stop and reboot on the worker: `handleSimpleLifecycle` and its three callers in
-- internal/service/instance_service.go.
use casper_cloud.Prelude.{none}
use casper_cloud.Data.{Uuid, InstanceState, TaskStatus, hypervisor_failed, Instance}
use casper_cloud.Exec.{Exec, Event, db_call, on_error, request, ◌>>=◌, ◌>>◌}
use casper_cloud.Repository.Statement.{Done}
use casper_cloud.Repository.Instances.{get_instance}
use casper_cloud.Service.Steps.{set_task, set_state, fail_task, fail_with_state}

unfoldable pub handle_simple_lifecycle :
    Uuid → Uuid → Uuid → (Instance → Event) → InstanceState → Exec Done
handle_simple_lifecycle t p i call want = do
  set_task p t TaskStatus.running none
  inst ← on_error (db_call (get_instance p i)) (fail_task p t)
  on_error (request (call inst) hypervisor_failed) (fail_with_state p t i InstanceState.error)
  on_error (set_state p i want) (fail_task p t)
  set_task p t TaskStatus.succeeded none

unfoldable pub handle_start_task : Uuid → Uuid → Uuid → Exec Done
unfolding handle_simple_lifecycle
handle_start_task t p i =
    handle_simple_lifecycle t p i (λ inst. Event.start_vm inst.name) InstanceState.running

unfoldable pub handle_stop_task : Uuid → Uuid → Uuid → Exec Done
unfolding handle_simple_lifecycle
handle_stop_task t p i =
    handle_simple_lifecycle t p i (λ inst. Event.graceful_shutdown inst.name) InstanceState.stopped

unfoldable pub handle_reboot_task : Uuid → Uuid → Uuid → Exec Done
unfolding handle_simple_lifecycle
handle_reboot_task t p i =
    handle_simple_lifecycle t p i (λ inst. Event.reboot_vm inst.name) InstanceState.running
