-- ===== src/Service/Steps.antt =====
-- The steps that the handlers share: a task or an instance is marked, and what an error leaves.
use casper_cloud.Prelude.{Option, some}
use casper_cloud.Data.{Uuid, InstanceState, TaskStatus, Error}
use casper_cloud.Exec.{Exec, db_call, ignore, ◌>>◌}
use casper_cloud.Repository.Statement.{Done}
use casper_cloud.Repository.Instances.{update_instance_state}
use casper_cloud.Repository.Tasks.{update_task_status}

unfoldable pub set_task : Uuid → Uuid → TaskStatus → Option Error → Exec Done
set_task p t status e = db_call (update_task_status p t status e)

unfoldable pub set_state : Uuid → Uuid → InstanceState → Exec Done
set_state p i state = db_call (update_instance_state p i state)

-- `_ = s.repo.UpdateTaskStatus(ctx, projectID, taskID, "failed", &msg)`
unfoldable pub fail_task : Uuid → Uuid → Error → Exec Done
fail_task p t e = ignore (set_task p t TaskStatus.failed (some e))

-- The instance goes to a state (mostly `error`), and the task to "failed".
unfoldable pub fail_with_state : Uuid → Uuid → Uuid → InstanceState → Error → Exec Done
fail_with_state p t i state e = ignore (set_state p i state) >> fail_task p t e
