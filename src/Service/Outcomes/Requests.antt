-- ===== src/Service/Outcomes/Requests.antt =====
-- What a request for an action has done when it answers with a task.
use casper_cloud.Prelude.{
  ◌≡◌, ◌∙◌, sym, ap, subst, ℕ, true, some, [], ◌∷◌, ◌++◌, Text, count, select_row, arith,
  Bool-cases, inl, inr,
}
use casper_cloud.Data.{Uuid, TaskStatus, TaskType, Instance, Task, Db}
use casper_cloud.Exec.{Result, World, ok, pure}
use casper_cloud.Exec.Success.{
  >>=-ok, on_error-ok, db_call-ok, or_raise-ok, pure-ok, publish_task-ok, guard-ok, veto-ok,
}
use casper_cloud.Repository.Instances.{is_instance}
use casper_cloud.Repository.Tasks.{create_task, new_task}
use casper_cloud.Repository.Volumes.{is_attached_to, count_volumes_attached_to_instance}
use casper_cloud.Service.Actions.{task_type_for_action, action_allowed}
use casper_cloud.Service.Requests.{
  instance_message, is_destroy, check_no_volumes, enqueue, request_instance_action,
}
use casper_cloud.Service.Outcomes.Steps.{SameOutside, get_instance-ok}

create_task-ok :
    (type : TaskType) (p i : Uuid) (status : TaskStatus) (task : Task) (d d' : Db)
    → create_task type p i status d ≡ ok (task, d')
    → (new_task type p (some i) status d ≡ task)
      × (d'.tasks ≡ task ∷ d.tasks)
      × (d'.instances ≡ d.instances)
unfolding create_task
create_task-ok type p i status task d d' e = ground arith

-- The task is new and pending, and its message is the last of the queue; nothing was asked of the
-- hypervisor.
abbrev pub Enqueued : TaskType → Uuid → Uuid → World → Task × World → Type 0
Enqueued type p i w (task, w') =
    (task.type ≡ type)
    × (task.status ≡ TaskStatus.pending)
    × (w'.db.tasks ≡ task ∷ w.db.tasks)
    × (w'.db.instances ≡ w.db.instances)
    × (w'.queue ≡ w.queue ++ instance_message task p i ∷ [])
    × (w'.log ≡ w.log)

enqueue-ok :
    (type : TaskType) (p i : Uuid) (task : Task) (w w' : World)
    → enqueue type p i w ≡ (ok task, w')
    → Enqueued type p i w (task, w')
unfolding enqueue
enqueue-ok type p i task w w' e =
    let (made, w₁, e₁, k₁) = >>=-ok _ _ task w w' e in
    let (u₂, w₂, e₂, k₂) = >>=-ok _ _ task w₁ w' k₁ in
    let (run, q₁, l₁) = db_call-ok _ made w w₁ e₁ in
    let (new, tasks, instances) = create_task-ok type p i TaskStatus.pending made w.db w₁.db run in
    let (d₂, q₂, l₂) = publish_task-ok _ w₁ w₂ (on_error-ok _ _ tt w₁ w₂ e₂) in
    let (same, end) = pure-ok made task w₂ w' k₂ in
    subst (Enqueued type p i w) (λ j. (same j, end j))
      (
        ap (λ (x : Task). x.type) (sym new),
        ap (λ (x : Task). x.status) (sym new),
        ap (λ (x : Db). x.tasks) d₂ ∙ tasks,
        ap (λ (x : Db). x.instances) d₂ ∙ instances,
        q₂ ∙ ap (λ q. q ++ instance_message made p i ∷ []) q₁,
        l₂ ∙ l₁,
      )

abbrev the_ok : ℕ × Db → Result (ℕ × Db)
the_ok r = ok r

read-ok : (a b : ℕ) (d d' : Db) → the_ok (a, d) ≡ ok (b, d') → (a ≡ b) × (d' ≡ d)
read-ok a b d d' e = (ground arith, ground arith)

check_no_volumes-ok :
    (type : TaskType) (p i : Uuid) (w w' : World)
    → check_no_volumes type p i w ≡ (ok tt, w')
    → (is_destroy type ≡ true → count (is_attached_to p i) w.db.volumes ≡ 0)
      × (w'.db ≡ w.db)
      × SameOutside w w'
unfolding check_no_volumes pure count_volumes_attached_to_instance
check_no_volumes-ok type p i w w' e = elim (Bool-cases (is_destroy type)) [
  | inl t ↦
      let (n, w₁, e₁, k₁) = >>=-ok _ _ tt w w' (rw t at e) in
      let (run, q, l) = db_call-ok _ n w w₁ e₁ in
      let (few, same) = veto-ok _ _ w₁ w' k₁ in
      let (counted, kept) = read-ok _ n w.db w₁.db run in
      (
        (λ _. ground arith),
        ap (λ (x : World). x.db) (sym same) ∙ kept,
        (ap (λ (x : World). x.queue) (sym same) ∙ q, ap (λ (x : World). x.log) (sym same) ∙ l),
      )
  | inr t ↦
      let (u, same) = pure-ok tt tt w w' (rw t at e) in
      (
        (λ y. ground arith),
        ap (λ (x : World). x.db) (sym same),
        (ap (λ (x : World). x.queue) (sym same), ap (λ (x : World). x.log) (sym same)),
      )
]

-- If a request for an action answers with a task, the word was known, the instance was found in the
-- project in a state that allows the action, and for a destroy no volume was attached; the task is
-- new, pending and of the action's type, its message was published, no instance has changed, and
-- nothing was asked of the hypervisor.
pub request_instance_action_done :
    (p i : Uuid) (action : Text) (task : Task) (w w' : World)
    → request_instance_action p i action w ≡ (ok task, w')
    → (inst : Instance) × (type : TaskType) × (task_type_for_action action ≡ some type)
      × (select_row (is_instance p i) w.db.instances ≡ some inst)
      × (action_allowed inst.state action ≡ true)
      × (is_destroy type ≡ true → count (is_attached_to p i) w.db.volumes ≡ 0)
      × Enqueued type p i w (task, w')
unfolding request_instance_action
request_instance_action_done p i action task w w' e =
    let (type, w₁, e₁, k₁) = >>=-ok _ _ task w w' e in
    let (inst, w₂, e₂, k₂) = >>=-ok _ _ task w₁ w' k₁ in
    let (u₃, w₃, e₃, k₃) = >>=-ok _ _ task w₂ w' k₂ in
    let (u₄, w₄, e₄, k₄) = >>=-ok _ _ task w₃ w' k₃ in
    let (known, s₁) = or_raise-ok _ _ type w w₁ e₁ in
    let (found, d₂, o₂) = get_instance-ok p i inst w₁ w₂ e₂ in
    let (allowed, s₃) = guard-ok _ _ w₂ w₃ e₃ in
    let (free, d₄, o₄) = check_no_volumes-ok type p i w₃ w₄ e₄ in
    let (a, b, c, d, q, l) = enqueue-ok type p i task w₄ w' k₄ in
    let before = d₄ ∙ ap (λ (x : World). x.db) (sym s₃) ∙ d₂ ∙ ap (λ (x : World). x.db) (sym s₁) in
    (
      inst,
      type,
      known,
      ap (λ (x : World). select_row (is_instance p i) x.db.instances) s₁ ∙ found,
      allowed,
      (λ y.
          ap (λ (x : Db). count (is_attached_to p i) x.volumes)
            (sym (ap (λ (x : World). x.db) (sym s₃) ∙ d₂ ∙ ap (λ (x : World). x.db) (sym s₁)))
          ∙ free y),
      (
        a,
        b,
        c ∙ ap (λ (x : Db). task ∷ x.tasks) before,
        d ∙ ap (λ (x : Db). x.instances) before,
        q
            ∙ ap (λ m. m ++ instance_message task p i ∷ [])
                (o₄.0
                  ∙ ap (λ (x : World). x.queue) (sym s₃)
                  ∙ o₂.0
                  ∙ ap (λ (x : World). x.queue) (sym s₁)),
        l ∙ o₄.1 ∙ ap (λ (x : World). x.log) (sym s₃) ∙ o₂.1 ∙ ap (λ (x : World). x.log) (sym s₁),
      ),
    )
