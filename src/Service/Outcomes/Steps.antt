-- ===== src/Service/Outcomes/Steps.antt =====
-- What the shared steps have done when they return.
use casper_cloud.Prelude.{
  ◌≡◌, refl, sym, select_row-exists, exists-select_row, select_row-update, true, false, Option,
  some, select_row, update, exists,
}
use casper_cloud.Data.{Uuid, InstanceState, TaskStatus, Error, Instance, Task, Db}
use casper_cloud.Exec.{World, ok, fails, later, db_call, ignore, ◌>>=◌}
use casper_cloud.Exec.Success.{db_call-ok, db_call-return}
use casper_cloud.Repository.Kept.{one_row-ok, affected-ok}
use casper_cloud.Repository.Instances.{is_instance, get_instance, update_instance_state}
use casper_cloud.Repository.Tasks.{is_task, update_task_status}
use casper_cloud.Service.Steps.{set_task, set_state, fail_task, fail_with_state}

-- The tables after a task, or an instance, was marked.
abbrev pub with_task : Uuid → Uuid → TaskStatus → Option Error → Db → Db
with_task p t status e d = record d {
  tasks =
      update (is_task p t) (λ r. record r { status = status; error = e; updated_at = d.now })
        d.tasks;
}

abbrev pub with_state : Uuid → Uuid → InstanceState → Db → Db
with_state p i state d = record d {
  instances =
      update (is_instance p i) (λ r. record r { state = state; updated_at = d.now }) d.instances;
}

-- Nothing but the database may have changed.
abbrev pub SameOutside : World → World → Type 0
SameOutside w w' = (w'.queue ≡ w.queue) × (w'.log ≡ w.log)

pub set_task-ok :
    (p t : Uuid) (status : TaskStatus) (e : Option Error) (w w' : World)
    → set_task p t status e w ≡ (ok tt, w')
    → (exists (is_task p t) w.db.tasks ≡ true)
      × (w'.db ≡ with_task p t status e w.db)
      × SameOutside w w'
unfolding set_task update_task_status
set_task-ok p t status e w w' h =
    let (run, queue, log) = db_call-ok _ tt w w' h in
    let (found, db) = affected-ok _ _ _ _ run in (found, sym db, (queue, log))

pub set_state-ok :
    (p i : Uuid) (state : InstanceState) (w w' : World)
    → set_state p i state w ≡ (ok tt, w')
    → (exists (is_instance p i) w.db.instances ≡ true)
      × (w'.db ≡ with_state p i state w.db)
      × SameOutside w w'
unfolding set_state update_instance_state
set_state-ok p i state w w' h =
    let (run, queue, log) = db_call-ok _ tt w w' h in
    let (found, db) = affected-ok _ _ _ _ run in (found, sym db, (queue, log))

pub get_instance-ok :
    (p i : Uuid) (inst : Instance) (w w' : World)
    → db_call (get_instance p i) w ≡ (ok inst, w')
    → (select_row (is_instance p i) w.db.instances ≡ some inst) × (w'.db ≡ w.db) × SameOutside w w'
unfolding get_instance
get_instance-ok p i inst w w' h =
    let (run, queue, log) = db_call-ok _ inst w w' h in
    let (found, db) = one_row-ok _ _ _ _ _ run in (found, sym db, (queue, log))

-- The row of the task, or of the instance, is there with this status, or state.
abbrev pub TaskIs : Uuid → Uuid → TaskStatus → Db → Type 0
TaskIs p t status d = (r : Task) × (select_row (is_task p t) d.tasks ≡ some r) × (r.status ≡ status)

abbrev pub InstanceIs : Uuid → Uuid → InstanceState → Db → Type 0
InstanceIs p i state d =
    (r : Instance) × (select_row (is_instance p i) d.instances ≡ some r) × (r.state ≡ state)

pub TaskIs-with_task :
    (p t : Uuid) (status : TaskStatus) (e : Option Error) (d : Db)
    → exists (is_task p t) d.tasks ≡ true
    → TaskIs p t status (with_task p t status e d)
TaskIs-with_task p t status e d h =
    let (r, found) = select_row-exists (is_task p t) d.tasks h in
    (_, select_row-update (is_task p t) _ (λ a k. k) r d.tasks found, refl)

pub InstanceIs-with_state :
    (p i : Uuid) (state : InstanceState) (d : Db)
    → exists (is_instance p i) d.instances ≡ true
    → InstanceIs p i state (with_state p i state d)
InstanceIs-with_state p i state d h =
    let (r, found) = select_row-exists (is_instance p i) d.instances h in
    (_, select_row-update (is_instance p i) _ (λ a k. k) r d.instances found, refl)

-- The world after such a step, which costs one call.
abbrev pub tasked : Uuid → Uuid → TaskStatus → Option Error → World → World
tasked p t status e w = record w { db = with_task p t status e w.db; faults = later w.faults }

abbrev pub stated : Uuid → Uuid → InstanceState → World → World
stated p i state w = record w { db = with_state p i state w.db; faults = later w.faults }

pub set_task-return :
    (p t : Uuid) (status : TaskStatus) (e : Option Error) (w : World)
    → fails w.faults ≡ false
    → exists (is_task p t) w.db.tasks ≡ true
    → set_task p t status e w ≡ (ok tt, tasked p t status e w)
unfolding set_task update_task_status
set_task-return p t status e w calm there = db_call-return _ tt _ w calm (rw there refl)

pub set_state-return :
    (p i : Uuid) (state : InstanceState) (w : World)
    → fails w.faults ≡ false
    → exists (is_instance p i) w.db.instances ≡ true
    → set_state p i state w ≡ (ok tt, stated p i state w)
unfolding set_state update_instance_state
set_state-return p i state w calm there = db_call-return _ tt _ w calm (rw there refl)

pub get_instance-return :
    (p i : Uuid) (inst : Instance) (w : World)
    → fails w.faults ≡ false
    → select_row (is_instance p i) w.db.instances ≡ some inst
    → db_call (get_instance p i) w ≡ (ok inst, record w { faults = later w.faults })
unfolding get_instance
get_instance-return p i inst w calm found = db_call-return _ inst w.db w calm (rw found refl)

pub with_task-exists :
    (p t : Uuid) (status : TaskStatus) (e : Option Error) (d : Db)
    → exists (is_task p t) d.tasks ≡ true
    → exists (is_task p t) (with_task p t status e d).tasks ≡ true
with_task-exists p t status e d there =
    let (r, found) = select_row-exists (is_task p t) d.tasks there in
    exists-select_row (is_task p t) _ _
      (select_row-update (is_task p t) _ (λ a k. k) r d.tasks found)

pub fail_with_state-return :
    (p t i : Uuid) (state : InstanceState) (e : Error) (w : World)
    → fails w.faults ≡ false
    → fails (later w.faults) ≡ false
    → exists (is_instance p i) w.db.instances ≡ true
    → exists (is_task p t) w.db.tasks ≡ true
    → fail_with_state p t i state e w
      ≡ (ok tt, tasked p t TaskStatus.failed (some e) (stated p i state w))
unfolding fail_with_state fail_task ignore ◌>>=◌
fail_with_state-return p t i state e w calm later_calm here there =
    rw
      (
        set_state-return p i state w calm here,
        set_task-return p t TaskStatus.failed (some e) (stated p i state w) later_calm there,
      )
      refl
