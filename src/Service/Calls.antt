-- ===== src/Service/Calls.antt =====
-- The operations that act for one project, as calls that may come in any order.
use casper_cloud.Prelude.{ℕ, Bool, Option, List, [], ◌∷◌, Text}
use casper_cloud.Data.{Uuid, Inet, InstanceState, IpSlot}
use casper_cloud.Exec.{World, Exec, pure, ◌>>◌}
use casper_cloud.Repository.Statement.{Done}
use casper_cloud.Service.Lifecycle.{handle_start_task, handle_stop_task, handle_reboot_task}
use casper_cloud.Service.Destroy.{Wiring, handle_destroy_task}
use casper_cloud.Service.Create.{Defaults, handle_create_task}
use casper_cloud.Service.Requests.{request_instance_action}
use casper_cloud.Service.Snapshots.{
  request_snapshot_create, request_snapshot_revert, handle_snapshot_create_task,
  handle_snapshot_revert_task,
}
use casper_cloud.Repository.Networks.{Net}
use casper_cloud.Service.Async.{CreateInstanceInput, create_async}
use casper_cloud.Service.FloatingIps.{
  allocate, request_associate, request_disassociate, handle_associate_task,
  handle_disassociate_task,
}
use casper_cloud.Service.Volumes

-- A request of the API or a task of the worker, with the answers of the outside that it reads.
pub data Call : Type 0 where
  start_task stop_task reboot_task : Uuid → Uuid → Call
  destroy_task : Wiring → Uuid → Uuid → Call
  create_task : Defaults → (Text → Option Text) → Uuid → Uuid → Call
  request_action : Uuid → Text → Call
  request_create_snapshot : Uuid → Uuid → Text → Call
  request_revert_snapshot : Uuid → Uuid → Call
  create_snapshot_task revert_snapshot_task : Uuid → Uuid → Uuid → InstanceState → Call
  associate : Uuid → Uuid → Call
  disassociate : Uuid → Call
  associate_task : Bool → Uuid → Uuid → Uuid → Call
  disassociate_task : Bool → Uuid → Inet → Inet → Call
  create_volume : Uuid → Text → ℕ → Call
  delete_volume : Uuid → Call
  attach_volume : Option Text → Uuid → Uuid → Call
  detach_volume : Uuid → Uuid → Call
  create_instance : Net → (IpSlot → Bool) → Uuid → Text → CreateInstanceInput → Call
  allocate_floating_ip : (Uuid → Bool) → Call

-- The call of a project. A result is sent to the client; it changes nothing here.
unfoldable pub perform : Uuid → Call → Exec Done
perform p (Call.start_task t i) = handle_start_task t p i
perform p (Call.stop_task t i) = handle_stop_task t p i
perform p (Call.reboot_task t i) = handle_reboot_task t p i
perform p (Call.destroy_task s t i) = handle_destroy_task s t p i
perform p (Call.create_task s r t i) = handle_create_task s r t p i
perform p (Call.request_action i a) = request_instance_action p i a >> pure tt
perform p (Call.request_create_snapshot s i n) = request_snapshot_create s p i n >> pure tt
perform p (Call.request_revert_snapshot i s) = request_snapshot_revert p i s >> pure tt
perform p (Call.create_snapshot_task t i s prior) = handle_snapshot_create_task t p i s prior
perform p (Call.revert_snapshot_task t i s prior) = handle_snapshot_revert_task t p i s prior
perform p (Call.associate f i) = request_associate p f i >> pure tt
perform p (Call.disassociate f) = request_disassociate p f >> pure tt
perform p (Call.associate_task g t i f) = handle_associate_task g t p i f
perform p (Call.disassociate_task g t a b) = handle_disassociate_task g t p a b
perform p (Call.create_volume v n s) = Volumes.create v p n s >> pure tt
perform p (Call.delete_volume v) = Volumes.delete p v
perform p (Call.attach_volume target i v) = Volumes.attach target p i v
perform p (Call.detach_volume i v) = Volumes.detach p i v
perform p (Call.create_instance net locked i mac input) =
    create_async net locked i mac p input >> pure tt
perform p (Call.allocate_floating_ip locked) = allocate locked p >> pure tt

-- Calls of several projects, one after another.
unfoldable pub run_calls : List (Uuid × Call) → World → World
run_calls [] w = w
run_calls ((p, c) ∷ cs) w = run_calls cs (perform p c w).1
