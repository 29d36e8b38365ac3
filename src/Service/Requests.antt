-- ===== src/Service/Requests.antt =====
-- `RequestInstanceAction` and the reads of internal/service/instance_service.go.
use casper_cloud.Prelude.{ltb, Bool, true, false, none, some, List, Text, if◌then◌else◌}
use casper_cloud.Data.{
  Uuid, TaskStatus, TaskType, invalid_instance_action, invalid_state_transition,
  instance_has_attached_volumes, Instance, Task, TaskMessage,
}
use casper_cloud.Exec.{Exec, pure, raise, or_raise, db_call, on_error, publish_task, ◌>>=◌, ◌>>◌}
use casper_cloud.Repository.Statement.{Done}
use casper_cloud.Repository.Instances.{get_instance, list_instances}
use casper_cloud.Repository.Tasks.{create_task}
use casper_cloud.Repository.Volumes.{count_volumes_attached_to_instance}
use casper_cloud.Service.Actions.{task_type_for_action, action_allowed}
use casper_cloud.Service.Steps.{fail_task}

unfoldable pub get : Uuid → Uuid → Exec Instance
get p i = db_call (get_instance p i)

unfoldable pub list : Uuid → Exec (List Instance)
list p = db_call (list_instances p)

abbrev pub is_destroy : TaskType → Bool
is_destroy TaskType.instance_destroy = true
is_destroy _ = false

abbrev pub instance_message : Task → Uuid → Uuid → TaskMessage
instance_message task p i = record {
  task_id = task.id;
  type = task.type;
  project_id = p;
  instance_id = some i;
  snapshot_id = none;
  prior_state = none;
  floating_ip_id = none;
  public_ip = none;
  private_ip = none;
}

-- `n > 0` volumes refuse a destroy.
unfoldable pub check_no_volumes : TaskType → Uuid → Uuid → Exec Done
check_no_volumes type p i =
    if is_destroy type
    then (db_call (count_volumes_attached_to_instance p i) >>= λ n.
        if ltb 0 n then raise instance_has_attached_volumes else pure tt)
    else pure tt

-- Steps of the request once the action is known to be allowed.
unfoldable pub enqueue : TaskType → Uuid → Uuid → Exec Task
enqueue type p i = do
  task ← db_call (create_task type p i TaskStatus.pending)
  on_error (publish_task (instance_message task p i)) (fail_task p task.id)
  pure task

unfoldable pub request_instance_action : Uuid → Uuid → Text → Exec Task
unfolding check_no_volumes enqueue
request_instance_action p i action = do
  type ← or_raise (task_type_for_action action) invalid_instance_action
  inst ← db_call (get_instance p i)
  (if action_allowed inst.state action then pure tt else raise invalid_state_transition)
  check_no_volumes type p i
  enqueue type p i
