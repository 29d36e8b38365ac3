-- ===== src/Service/Outcomes/Destroy.antt =====
-- What a destroy has done when it returns.
use casper_cloud.Prelude.{
  ◌≡◌, ◌∙◌, refl, sym, ap, subst, ◌==◌, false, none, some, List, ◌∷◌, points_to, update, exists,
  exists-delete, exists-update_out, select_row, select_row-update_kept, inl, inr, arith,
}
use casper_cloud.Data.{
  Uuid, TaskStatus, Instance, Task, Snapshot, Volume, FloatingIp, IpSlot, IpAllocation, Db,
}
use casper_cloud.Exec.{World, Event, ok}
use casper_cloud.Exec.Success.{>>=-ok, on_error-ok, db_call-ok, request-ok}
use casper_cloud.Repository.Kept.{affected-ok, and_then-ok}
use casper_cloud.Repository.Instances.{is_instance}
use casper_cloud.Repository.Tasks.{is_task, update_task_status}
use casper_cloud.Repository.FloatingIps.{clear_binding}
use casper_cloud.Repository.Destroy.{
  unset_task, is_restricted, without_instance, delete_instance, release_floating_ips,
  finalize_instance_destroy,
}
use casper_cloud.Service.Destroy.{Wiring, handle_destroy_task}
use casper_cloud.Service.Outcomes.Steps.{TaskIs, TaskIs-with_task, set_task-ok, get_instance-ok}

-- Nothing in the tables is of the instance.
pub record Gone (p i : Uuid) (d : Db) : Type 0 where
  pub instances : exists (is_instance p i) d.instances ≡ false
  pub tasks : exists (λ (r : Task). points_to r.instance_id i) d.tasks ≡ false
  pub snapshots : exists (λ (r : Snapshot). r.instance_id == i) d.snapshots ≡ false
  pub volumes : exists (λ (r : Volume). points_to r.instance_id i) d.volumes ≡ false
  pub floating_ips : exists (λ (r : FloatingIp). points_to r.instance_id i) d.floating_ips ≡ false
  pub ip_slots : exists (λ (r : IpSlot). points_to r.instance_id i) d.ip_slots ≡ false
  pub ip_allocations : exists (λ (r : IpAllocation). r.instance_id == i) d.ip_allocations ≡ false

delete_instance-ok :
    (p i : Uuid) (d d' : Db)
    → delete_instance p i d ≡ ok (tt, d')
    → (is_restricted i d ≡ false) × (without_instance p i d ≡ d')
unfolding delete_instance
delete_instance-ok p i d d' e = ground arith

without_instance-Gone :
    (p i : Uuid) (d : Db) → is_restricted i d ≡ false → Gone p i (without_instance p i d)
without_instance-Gone p i d free = record {
  instances = exists-delete _ d.instances;
  tasks = exists-update_out _ _ (λ r. refl) d.tasks;
  snapshots = exists-delete _ d.snapshots;
  volumes = ground arith;
  floating_ips = ground arith;
  ip_slots = exists-update_out _ _ (λ r. refl) d.ip_slots;
  ip_allocations = exists-delete _ d.ip_allocations;
}

abbrev without_bindings : Uuid → Db → Db
without_bindings i d = record d {
  floating_ips = update (λ r. points_to r.instance_id i) (clear_binding d) d.floating_ips;
}

-- The task stays as it is, but for its instance.
TaskIs-without_instance :
    (p t i : Uuid) (status : TaskStatus) (d : Db)
    → TaskIs p t status d
    → TaskIs p t status (without_instance p i d)
TaskIs-without_instance p t i status d (r, found, status_is) =
    let (r', found', kept) =
      select_row-update_kept (is_task p t) (λ (x : Task). points_to x.instance_id i) (unset_task d)
        (λ x. refl) r d.tasks found in
    (
      r',
      found',
      elim kept [
        | inl s ↦ ap (λ (x : Task). x.status) s ∙ status_is
        | inr s ↦ ap (λ (x : Task). x.status) s ∙ status_is
      ],
    )

-- The transaction that ends a destroy: if it is done, the task has succeeded and no row is of the
-- instance, so its snapshots and addresses are gone and its floating IPs and slots are free.
pub finalize_instance_destroy_done :
    (p t i : Uuid) (d d' : Db)
    → finalize_instance_destroy p t i d ≡ ok (tt, d')
    → Gone p i d' × TaskIs p t TaskStatus.succeeded d'
unfolding finalize_instance_destroy update_task_status release_floating_ips
finalize_instance_destroy_done p t i d d' e =
    let (u₁, d₁, e₁, k₁) = and_then-ok _ _ tt d' e in
    let (there, marked) = affected-ok _ _ _ _ e₁ in
    let (free, same) = delete_instance-ok p i (without_bindings i d₁) d' k₁ in
    let done =
      subst (TaskIs p t TaskStatus.succeeded) marked (TaskIs-with_task p t _ none d there) in
    (
      subst (Gone p i) same (without_instance-Gone p i (without_bindings i d₁) free),
      subst (TaskIs p t TaskStatus.succeeded) same
          (TaskIs-without_instance p t i TaskStatus.succeeded (without_bindings i d₁) done),
    )

-- If the task of a destroy returns without an error, whichever parts the worker has, then the last
-- request was to delete the domain of the instance that was found, the task has succeeded, and no row
-- of the tables is of the instance.
pub handle_destroy_task_done :
    (s : Wiring) (t p i : Uuid) (w w' : World)
    → handle_destroy_task s t p i w ≡ (ok tt, w')
    → (inst : Instance) × (select_row (is_instance p i) w.db.instances ≡ some inst)
      × ((log : List Event) × (w'.log ≡ Event.delete_vm inst.name inst.id ∷ log))
      × Gone p i w'.db
      × TaskIs p t TaskStatus.succeeded w'.db
unfolding handle_destroy_task
handle_destroy_task_done s t p i w w' e =
    let (u₁, w₁, e₁, k₁) = >>=-ok _ _ tt w w' e in
    let (inst, w₂, e₂, k₂) = >>=-ok _ _ tt w₁ w' k₁ in
    let (u₃, w₃, e₃, k₃) = >>=-ok _ _ tt w₂ w' k₂ in
    let (u₄, w₄, e₄, k₄) = >>=-ok _ _ tt w₃ w' k₃ in
    let (u₅, w₅, e₅, k₅) = >>=-ok _ _ tt w₄ w' k₄ in
    let (u₆, w₆, e₆, k₆) = >>=-ok _ _ tt w₅ w' k₅ in
    let (u₇, w₇, e₇, k₇) = >>=-ok _ _ tt w₆ w' k₆ in
    let (f₁, d₁, o₁) = set_task-ok p t _ _ w w₁ e₁ in
    let (f₂, d₂, o₂) = get_instance-ok p i inst w₁ w₂ (on_error-ok _ _ inst w₁ w₂ e₂) in
    let (d₇, q₇, l₇) = request-ok _ _ w₆ w₇ (on_error-ok _ _ tt w₆ w₇ e₇) in
    let (f, q, l) = db_call-ok _ tt w₇ w' k₇ in
    let (gone, done) = finalize_instance_destroy_done p t i w₇.db w'.db f in
    (
      inst,
      ap (λ d. select_row (is_instance p i) d.instances) (sym d₁) ∙ f₂,
      (w₆.log, l ∙ l₇),
      gone,
      done,
    )
