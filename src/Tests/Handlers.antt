-- ===== src/Tests/Handlers.antt =====
-- The handlers and the requests at the small database.
use casper_cloud.Prelude.{
  ◌≡◌, ◌++◌, refl, true, false, none, some, [], ◌∷◌, codes, List, count, exists, select_row,
}
use casper_cloud.Service.Snapshots.{handle_snapshot_create_task}
use casper_cloud.Service.Outcomes.Snapshots.{SnapshotIs, handle_snapshot_create_task_done}
use casper_cloud.Prelude.{points_to}
use casper_cloud.Repository.FloatingIps.{is_floating_ip, is_active}
use casper_cloud.Service.FloatingIps.{handle_associate_task}
use casper_cloud.Service.Outcomes.Associate.{handle_associate_task_done}
use casper_cloud.Data.{
  FloatingIp, FloatingIpStatus, Inet, SnapshotStatus, InstanceState, TaskStatus, TaskType,
  hypervisor_failed, Instance, Task,
}
use casper_cloud.Exec.{World, Event, ok, err}
use casper_cloud.Service.Lifecycle.{handle_simple_lifecycle}
use casper_cloud.Service.Outcomes.Lifecycle.{
  handle_simple_lifecycle_done, handle_simple_lifecycle_total, handle_simple_lifecycle_refused,
}
use casper_cloud.Service.Outcomes.Steps.{InstanceIs, TaskIs}
use casper_cloud.Repository.Instances.{is_instance}
use casper_cloud.Repository.Instances.{InstanceStateUpdate, apply_batch}
use casper_cloud.Repository.Tasks.{is_task}
use casper_cloud.Repository.Volumes.{is_attached_to}
use casper_cloud.Service.Actions.{task_type_for_action, action_allowed}
use casper_cloud.Service.Requests.{is_destroy, request_instance_action}
use casper_cloud.Service.Destroy.{Wiring, handle_destroy_task}
use casper_cloud.Service.Sync.{batch_update_instance_states}
use casper_cloud.Service.Outcomes.Destroy.{Gone, handle_destroy_task_done}
use casper_cloud.Service.Outcomes.Requests.{Enqueued, request_instance_action_done}
use casper_cloud.Service.Outcomes.Sync.{batch_update_instance_states-apply_batch}
use casper_cloud.Tests.Fixtures.{address, web, start_web, small, calm}

task_found : exists (is_task 1 30) small.tasks ≡ true
unfolding exists
task_found = refl

web_found : exists (is_instance 1 10) small.instances ≡ true
unfolding exists
web_found = refl

web_row : select_row (is_instance 1 10) small.instances ≡ some web
unfolding select_row
web_row = refl

abbrev shut_down : Instance → Event
shut_down inst = Event.graceful_shutdown inst.name

abbrev stopping : World
stopping = (handle_simple_lifecycle 30 1 10 shut_down InstanceState.stopped calm).1

stopping_returns :
    handle_simple_lifecycle 30 1 10 shut_down InstanceState.stopped calm ≡ (ok tt, stopping)
unfolding handle_simple_lifecycle casper_cloud.Exec.◌>>=◌ casper_cloud.Service.Steps.set_task
    casper_cloud.Exec.db_call casper_cloud.Repository.Tasks.update_task_status exists
    casper_cloud.Exec.on_error casper_cloud.Repository.Instances.get_instance select_row
    casper_cloud.Exec.request casper_cloud.Service.Steps.set_state
    casper_cloud.Repository.Instances.update_instance_state casper_cloud.Prelude.update
stopping_returns = refl

handle_simple_lifecycle_done_example :
    (inst : Instance) × (select_row (is_instance 1 10) small.instances ≡ some inst)
    × (stopping.log ≡ shut_down inst ∷ [])
    × (stopping.queue ≡ [])
    × InstanceIs 1 10 InstanceState.stopped stopping.db
    × TaskIs 1 30 TaskStatus.succeeded stopping.db
handle_simple_lifecycle_done_example =
    handle_simple_lifecycle_done 30 1 10 shut_down InstanceState.stopped calm stopping
      stopping_returns

handle_simple_lifecycle_total_example :
    (handle_simple_lifecycle 30 1 10 shut_down InstanceState.stopped calm).0 ≡ ok tt
handle_simple_lifecycle_total_example =
    handle_simple_lifecycle_total 30 1 10 shut_down InstanceState.stopped calm refl task_found
      web_found

abbrev refusing : World
refusing = record calm { faults = false ∷ false ∷ true ∷ [] }

handle_simple_lifecycle_refused_example :
    let (r, w') = handle_simple_lifecycle 30 1 10 shut_down InstanceState.stopped refusing in
    (r ≡ err hypervisor_failed)
    × (w'.log ≡ shut_down web ∷ [])
    × (w'.queue ≡ [])
    × InstanceIs 1 10 InstanceState.error w'.db
    × TaskIs 1 30 TaskStatus.failed w'.db
handle_simple_lifecycle_refused_example =
    handle_simple_lifecycle_refused 30 1 10 shut_down InstanceState.stopped web refusing refl
      task_found web_row

abbrev everything : Wiring
everything = record { volumes = true; floating_ingress = true }

abbrev destroyed : World
destroyed = (handle_destroy_task everything 30 1 10 calm).1

destroy_returns : handle_destroy_task everything 30 1 10 calm ≡ (ok tt, destroyed)
unfolding handle_destroy_task casper_cloud.Exec.◌>>=◌ casper_cloud.Service.Steps.set_task
    casper_cloud.Exec.db_call casper_cloud.Repository.Tasks.update_task_status exists
    casper_cloud.Exec.on_error casper_cloud.Repository.Instances.get_instance select_row
    casper_cloud.Service.Steps.set_state casper_cloud.Repository.Instances.update_instance_state
    casper_cloud.Service.Volumes.detach_all_from_instance_for_destroy
    casper_cloud.Repository.Volumes.list_volumes_attached_to_instance casper_cloud.Prelude.select
    casper_cloud.Exec.pure
    casper_cloud.Repository.FloatingIps.list_active_floating_ip_nat_bindings_by_instance
    casper_cloud.Repository.FloatingIps.nat_bindings
    casper_cloud.Repository.FloatingIps.clear_floating_ip_bindings_for_instance
    casper_cloud.Exec.request casper_cloud.Prelude.delete casper_cloud.Prelude.update
    casper_cloud.Repository.Destroy.delete_instance
    casper_cloud.Repository.Destroy.finalize_instance_destroy
    casper_cloud.Repository.Destroy.release_floating_ips
    casper_cloud.Service.Destroy.disassociate_each casper_cloud.Service.Destroy.tear_down_nat
    casper_cloud.Service.Volumes.detach_each
destroy_returns = refl

handle_destroy_task_done_example :
    (inst : Instance) × (select_row (is_instance 1 10) small.instances ≡ some inst)
    × ((log : List Event) × (destroyed.log ≡ Event.delete_vm inst.name inst.id ∷ log))
    × Gone 1 10 destroyed.db
    × TaskIs 1 30 TaskStatus.succeeded destroyed.db
handle_destroy_task_done_example =
    handle_destroy_task_done everything 30 1 10 calm destroyed destroy_returns

abbrev asked : World
asked = (request_instance_action 1 10 (codes " Stop ") calm).1

abbrev stop_web : Task
stop_web = record start_web {
  id = 100;
  type = TaskType.instance_stop;
  created_at = 5000;
  updated_at = 5000;
}

request_returns : request_instance_action 1 10 (codes " Stop ") calm ≡ (ok stop_web, asked)
unfolding request_instance_action casper_cloud.Exec.◌>>=◌ task_type_for_action
    casper_cloud.Exec.pure casper_cloud.Exec.db_call casper_cloud.Repository.Instances.get_instance
    select_row action_allowed casper_cloud.Repository.Tasks.create_task exists
    casper_cloud.Exec.on_error casper_cloud.Exec.publish_task
request_returns = refl

request_instance_action_done_example :
    (inst : Instance) × (type : TaskType) × (task_type_for_action (codes " Stop ") ≡ some type)
    × (select_row (is_instance 1 10) small.instances ≡ some inst)
    × (action_allowed inst.state (codes " Stop ") ≡ true)
    × (is_destroy type ≡ true → count (is_attached_to 1 10) small.volumes ≡ 0)
    × Enqueued type 1 10 calm (stop_web, asked)
request_instance_action_done_example =
    request_instance_action_done 1 10 (codes " Stop ") stop_web calm asked request_returns

abbrev updates : List InstanceStateUpdate
updates =
    record { project_id = 1; instance_id = 10; new_state = InstanceState.stopped }
    ∷ record { project_id = 2; instance_id = 20; new_state = InstanceState.running }
    ∷ []

batch_update_instance_states-apply_batch_example :
    let (r, w') = batch_update_instance_states updates calm in
    (r ≡ ok tt) × (w'.db ≡ apply_batch updates small) × (w'.log ≡ []) × (w'.queue ≡ [])
batch_update_instance_states-apply_batch_example =
    batch_update_instance_states-apply_batch updates calm refl

abbrev snapped : World
snapped = (handle_snapshot_create_task 30 1 10 60 InstanceState.running calm).1

snapshot_returns :
    handle_snapshot_create_task 30 1 10 60 InstanceState.running calm ≡ (ok tt, snapped)
unfolding handle_snapshot_create_task casper_cloud.Exec.◌>>=◌ casper_cloud.Service.Steps.set_task
    casper_cloud.Exec.db_call casper_cloud.Repository.Tasks.update_task_status exists
    casper_cloud.Exec.on_error casper_cloud.Repository.Instances.get_instance select_row
    casper_cloud.Service.Steps.set_state casper_cloud.Repository.Instances.update_instance_state
    casper_cloud.Exec.request casper_cloud.Prelude.update
    casper_cloud.Repository.Snapshots.get_snapshot
    casper_cloud.Repository.Snapshots.update_snapshot_status
snapshot_returns = refl

handle_snapshot_create_task_done_example :
    SnapshotIs 1 60 SnapshotStatus.available snapped.db
    × InstanceIs 1 10 InstanceState.running snapped.db
    × TaskIs 1 30 TaskStatus.succeeded snapped.db
handle_snapshot_create_task_done_example =
    handle_snapshot_create_task_done 30 1 10 60 InstanceState.running calm snapped snapshot_returns

abbrev bound_address : FloatingIp
bound_address = record address {
  instance_id = some 10;
  private_ip = some 77;
  status = FloatingIpStatus.active;
}

abbrev binding : World
binding = record calm { db = record small { floating_ips = bound_address ∷ [] } }

abbrev associated : World
associated = (handle_associate_task true 30 1 10 50 binding).1

associate_returns : handle_associate_task true 30 1 10 50 binding ≡ (ok tt, associated)
unfolding handle_associate_task casper_cloud.Exec.◌>>=◌ casper_cloud.Service.Steps.set_task
    casper_cloud.Exec.db_call casper_cloud.Repository.Tasks.update_task_status exists
    casper_cloud.Exec.on_error select_row casper_cloud.Exec.request casper_cloud.Exec.pure
    casper_cloud.Prelude.update casper_cloud.Repository.FloatingIps.get_floating_ip_for_project
associate_returns = refl

handle_associate_task_done_example :
    (true ≡ true)
    × (r : FloatingIp) × (a : Inet) × (select_row (is_floating_ip 1 50) binding.db.floating_ips
        ≡ some r)
    × (is_active r.status ≡ true)
    × (points_to r.instance_id 10 ≡ true)
    × (r.private_ip ≡ some a)
    × (associated.log ≡ Event.associate_ip r.public_ip a ∷ [])
    × TaskIs 1 30 TaskStatus.succeeded associated.db
handle_associate_task_done_example =
    handle_associate_task_done true 30 1 10 50 binding associated associate_returns
