-- ===== src/Service/Outcomes/Lifecycle.antt =====
-- What a start, a stop or a reboot has done when it returns, and what a failure of libvirt leaves.
use casper_cloud.Prelude.{
  ◌≡◌, ◌∙◌, ap, sym, refl, none, some, ◌∷◌, [], select_row, subst, exists, true, false,
  select_row-exists, exists-select_row,
}
use casper_cloud.Data.{hypervisor_failed, Uuid, InstanceState, TaskStatus, Instance}
use casper_cloud.Exec.{Result, World, Event, ok, err, fails, later}
use casper_cloud.Exec.Success.{
  >>=-ok, on_error-ok, request-ok, >>=-return, >>=-fail, on_error-return, on_error-fail,
  request-return, request-fail,
}
use casper_cloud.Repository.Instances.{is_instance}
use casper_cloud.Repository.Tasks.{is_task}
use casper_cloud.Service.Lifecycle.{handle_simple_lifecycle}
use casper_cloud.Service.Outcomes.Steps.{
  tasked, stated, set_task-return, set_state-return, get_instance-return, fail_with_state-return,
  with_task-exists, set_task-ok, set_state-ok, get_instance-ok, TaskIs, InstanceIs,
  TaskIs-with_task, InstanceIs-with_state,
}

-- If the task of an action returns without an error, then the instance was found in its project,
-- the hypervisor was asked exactly once, for that instance, nothing was published,
-- and afterwards the instance is in the wanted state and the task has succeeded.
pub handle_simple_lifecycle_done :
    (t p i : Uuid) (call : Instance → Event) (want : InstanceState) (w w' : World)
    → handle_simple_lifecycle t p i call want w ≡ (ok tt, w')
    → (inst : Instance) × (select_row (is_instance p i) w.db.instances ≡ some inst)
      × (w'.log ≡ call inst ∷ w.log)
      × (w'.queue ≡ w.queue)
      × InstanceIs p i want w'.db
      × TaskIs p t TaskStatus.succeeded w'.db
unfolding handle_simple_lifecycle
handle_simple_lifecycle_done t p i call want w w' e =
    let (u₁, w₁, e₁, k₁) = >>=-ok _ _ tt w w' e in
    let (inst, w₂, e₂, k₂) = >>=-ok _ _ tt w₁ w' k₁ in
    let (u₃, w₃, e₃, k₃) = >>=-ok _ _ tt w₂ w' k₂ in
    let (u₄, w₄, e₄, k₄) = >>=-ok _ _ tt w₃ w' k₃ in
    let (f₁, d₁, o₁) = set_task-ok p t _ _ w w₁ e₁ in
    let (f₂, d₂, o₂) = get_instance-ok p i inst w₁ w₂ (on_error-ok _ _ inst w₁ w₂ e₂) in
    let (d₃, q₃, l₃) = request-ok _ _ w₂ w₃ (on_error-ok _ _ tt w₂ w₃ e₃) in
    let (f₄, d₄, o₄) = set_state-ok p i want w₃ w₄ (on_error-ok _ _ tt w₃ w₄ e₄) in
    let (f₅, d₅, o₅) = set_task-ok p t _ _ w₄ w' k₄ in
    (
      inst,
      ap (λ d. select_row (is_instance p i) d.instances) (sym d₁) ∙ f₂,
      o₅.1 ∙ o₄.1 ∙ l₃ ∙ ap (λ l. call inst ∷ l) (o₂.1 ∙ o₁.1),
      o₅.0 ∙ o₄.0 ∙ q₃ ∙ o₂.0 ∙ o₁.0,
      subst (InstanceIs p i want) (sym d₅)
          (subst (InstanceIs p i want) (sym d₄) (InstanceIs-with_state p i want w₃.db f₄)),
      subst (TaskIs p t TaskStatus.succeeded) (sym d₅) (TaskIs-with_task p t _ _ w₄.db f₅),
    )

-- With the task and the instance in their tables and no failure of the outside, the action returns
-- without an error.
pub handle_simple_lifecycle_total :
    (t p i : Uuid) (call : Instance → Event) (want : InstanceState) (w : World)
    → w.faults ≡ []
    → exists (is_task p t) w.db.tasks ≡ true
    → exists (is_instance p i) w.db.instances ≡ true
    → (handle_simple_lifecycle t p i call want w).0 ≡ ok tt
unfolding handle_simple_lifecycle
handle_simple_lifecycle_total t p i call want w calm there here =
    let (inst, found) = select_row-exists (is_instance p i) w.db.instances here in
    let w₁ = tasked p t TaskStatus.running none w in
    let w₂ = record w₁ { faults = later w₁.faults } in
    let w₃ = record w₂ { faults = later w₂.faults; log = call inst ∷ w₂.log } in
    let w₄ = stated p i want w₃ in
    ap (λ (r : Result (Unit {0}) × World). r.0)
      (>>=-return _ _ tt w w₁ (set_task-return p t _ none w (ap fails calm) there)
        ∙ >>=-return _ _ inst w₁ w₂ (
            on_error-return _ _ inst w₁ w₂
              (get_instance-return p i inst w₁ (ap (λ f. fails (later f)) calm) found))
        ∙ >>=-return _ _ tt w₂ w₃ (
            on_error-return _ _ tt w₂ w₃
              (request-return (call inst) _ w₂ (ap (λ f. fails (later (later f))) calm)))
        ∙ >>=-return _ _ tt w₃ w₄ (
            on_error-return _ _ tt w₃ w₄
              (set_state-return p i want w₃ (ap (λ f. fails (later (later (later f)))) calm) here))
        ∙ set_task-return p t _ none w₄ (ap (λ f. fails (later (later (later (later f))))) calm)
            (with_task-exists p t _ none w.db there))

-- When the hypervisor refuses and nothing else fails, the action returns that error, the instance is
-- in the state "error", the task has failed, and nothing else was asked of the outside.
pub handle_simple_lifecycle_refused :
    (t p i : Uuid) (call : Instance → Event) (want : InstanceState) (inst : Instance) (w : World)
    → w.faults ≡ false ∷ false ∷ true ∷ []
    → exists (is_task p t) w.db.tasks ≡ true
    → select_row (is_instance p i) w.db.instances ≡ some inst
    → let (r, w') = handle_simple_lifecycle t p i call want w in
      (r ≡ err hypervisor_failed)
      × (w'.log ≡ call inst ∷ w.log)
      × (w'.queue ≡ w.queue)
      × InstanceIs p i InstanceState.error w'.db
      × TaskIs p t TaskStatus.failed w'.db
unfolding handle_simple_lifecycle
handle_simple_lifecycle_refused t p i call want inst w faults there found =
    let here = exists-select_row (is_instance p i) inst w.db.instances found in
    let w₁ = tasked p t TaskStatus.running none w in
    let there₁ = with_task-exists p t TaskStatus.running none w.db there in
    let w₂ = record w₁ { faults = later w₁.faults } in
    let w₃ = record w₂ { faults = later w₂.faults; log = call inst ∷ w₂.log } in
    let w₄ =
      tasked p t TaskStatus.failed (some hypervisor_failed) (stated p i InstanceState.error w₃) in
    subst (After w)
      (sym (
        >>=-return _ _ tt w w₁ (set_task-return p t _ none w (ap fails faults) there)
        ∙ >>=-return _ _ inst w₁ w₂ (
            on_error-return _ _ inst w₁ w₂
              (get_instance-return p i inst w₁ (ap (λ f. fails (later f)) faults) found))
        ∙ >>=-fail _ _ hypervisor_failed w₂ w₄ (
            on_error-fail _ _ hypervisor_failed w₂ w₃
              (request-fail (call inst) _ w₂ (ap (λ f. fails (later (later f))) faults))
            ∙ ap (λ (v : Result (Unit {0}) × World). (err hypervisor_failed, v.1))
                (fail_with_state-return p t i InstanceState.error hypervisor_failed w₃
                  (ap (λ f. fails (later (later (later f)))) faults)
                  (ap (λ f. fails (later (later (later (later f))))) faults) here there₁))))
      (
        refl,
        refl,
        refl,
        InstanceIs-with_state p i InstanceState.error w₃.db here,
        TaskIs-with_task p t TaskStatus.failed (some hypervisor_failed)
            (stated p i InstanceState.error w₃).db there₁,
      )
  where
    After : World → Result (Unit {0}) × World → Type 0
    After v (r, w') =
        (r ≡ err hypervisor_failed)
        × (w'.log ≡ call inst ∷ v.log)
        × (w'.queue ≡ v.queue)
        × InstanceIs p i InstanceState.error w'.db
        × TaskIs p t TaskStatus.failed w'.db
