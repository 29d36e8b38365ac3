-- ===== src/Repository/Tasks.antt =====
-- The tasks: internal/repository/repository.go.
use casper_cloud.Prelude.{
  ◌==◌, ◌&&◌, ◌+◌, suc, ltb, Bool, false, Option, none, some, List, ◌∷◌, points_to, select,
  select_row, update, exists, count, ℕ, if◌then◌else◌,
}
use casper_cloud.Data.{
  Uuid, Seconds, InstanceState, TaskStatus, TaskType, Error, not_found, constraint_violation,
  stale_running, Project, Instance, Task, Db,
}
use casper_cloud.Exec.{ok, err}
use casper_cloud.Repository.Statement.{Statement, Done, one_row, affected}

-- `WHERE id = $2 AND project_id = $1`
abbrev pub is_task : Uuid → Uuid → Task → Bool
is_task p t r = r.project_id == p && r.id == t

abbrev pub new_task : TaskType → Uuid → Option Uuid → TaskStatus → Db → Task
new_task type p i status d = record {
  id = d.next_id;
  type = type;
  project_id = p;
  instance_id = i;
  status = status;
  error = none;
  created_at = d.now;
  updated_at = d.now;
}

abbrev pub add_task : Task → Statement Task
add_task r d = ok (r, record d { tasks = r ∷ d.tasks; next_id = suc d.next_id })

-- The foreign keys want the project and the instance.
unfoldable pub create_task : TaskType → Uuid → Uuid → TaskStatus → Statement Task
create_task type p i status d =
    if exists (λ (r : Project). r.id == p) d.projects
      && exists (λ (r : Instance). r.id == i) d.instances
    then add_task (new_task type p (some i) status d) d
    else err constraint_violation

unfoldable pub create_task_without_instance : TaskType → Uuid → TaskStatus → Statement Task
create_task_without_instance type p status d =
    if exists (λ (r : Project). r.id == p) d.projects
    then add_task (new_task type p none status d) d
    else err constraint_violation

unfoldable pub update_task_status : Uuid → Uuid → TaskStatus → Option Error → Statement Done
update_task_status p t status e d = affected (exists (is_task p t) d.tasks) not_found (record d {
  tasks =
      update (is_task p t) (λ r. record r { status = status; error = e; updated_at = d.now })
        d.tasks;
})

unfoldable pub get_task : Uuid → Uuid → Statement Task
get_task p t d = one_row (select_row (is_task p t) d.tasks) not_found d

-- 30 minutes
abbrev pub stale_after : Seconds
stale_after = 1800

unfoldable pub is_stale : Seconds → Task → Bool
is_stale now r = elim r.status [
  | TaskStatus.running ↦ ltb (r.updated_at + stale_after) now
  | _ ↦ false
]

-- The rows of `timed_out` that join the instance.
unfoldable pub has_timed_out : List Task → Instance → Bool
has_timed_out timed_out i =
    exists (λ (r : Task). i.project_id == r.project_id && points_to r.instance_id i.id) timed_out

-- Both updates of the statement see the tables as they were before it.
unfoldable pub reconcile_stale_running_tasks : Statement ℕ
reconcile_stale_running_tasks d =
    let timed_out = select (is_stale d.now) d.tasks in
    ok (
      count (has_timed_out timed_out) d.instances,
      record d {
        tasks =
            update (is_stale d.now)
              (λ r. record r {
                status = TaskStatus.failed;
                error = some stale_running;
                updated_at = d.now;
              })
              d.tasks;
        instances =
            update (has_timed_out timed_out)
              (λ r. record r { state = InstanceState.error; updated_at = d.now }) d.instances;
      },
    )
