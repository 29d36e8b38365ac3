-- ===== src/Service/Outcomes/Associate.antt =====
-- What the task of a floating IP's association has done when it returns.
use casper_cloud.Prelude.{
  ◌≡◌, ◌∙◌, refl, sym, ap, subst, Bool, true, false, some, ◌∷◌, points_to, select_row, Bool-cases,
  inl, inr, arith,
}
use casper_cloud.Data.{Uuid, Inet, TaskStatus, FloatingIp, Db}
use casper_cloud.Exec.{World, Event, ok, raise, db_call}
use casper_cloud.Exec.Success.{>>=-ok, on_error-ok, db_call-ok, request-ok, or_raise-ok}
use casper_cloud.Repository.Kept.{one_row-ok}
use casper_cloud.Repository.FloatingIps.{is_floating_ip, is_active, get_floating_ip_for_project}
use casper_cloud.Service.FloatingIps.{check_bound, handle_associate_task}
use casper_cloud.Service.Outcomes.Steps.{TaskIs, TaskIs-with_task, set_task-ok}

get_floating_ip-ok :
    (p f : Uuid) (r : FloatingIp) (w w' : World)
    → db_call (get_floating_ip_for_project p f) w ≡ (ok r, w')
    → (select_row (is_floating_ip p f) w.db.floating_ips ≡ some r) × (w'.log ≡ w.log)
unfolding get_floating_ip_for_project
get_floating_ip-ok p f r w w' e =
    let (run, queue, log) = db_call-ok _ r w w' e in
    let (found, same) = one_row-ok _ _ _ _ _ run in (found, log)

check_bound-ok :
    (r : FloatingIp) (i : Uuid) (a : Inet) (w w' : World)
    → check_bound r i w ≡ (ok a, w')
    → (is_active r.status ≡ true)
      × (points_to r.instance_id i ≡ true)
      × (r.private_ip ≡ some a)
      × (w ≡ w')
unfolding raise
check_bound-ok r i a w w' e = elim (Bool-cases (is_active r.status)) [
  | inl t ↦ elim (Bool-cases (points_to r.instance_id i)) [
    | inl u ↦
        let (found, same) = or_raise-ok r.private_ip _ a w w' (rw (t, u) at e) in
        (t, u, found, same)
    | inr u ↦ ground (arith, (rw (t, u) at e))
  ]
  | inr t ↦ ground (arith, (rw t at e))
]

-- If the task of an association returns without an error, the worker has an ingress, the floating IP
-- of the project was active for the instance with a private address, exactly the rules for these two
-- addresses were asked for, and the task has succeeded.
pub handle_associate_task_done :
    (ingress : Bool) (t p i f : Uuid) (w w' : World)
    → handle_associate_task ingress t p i f w ≡ (ok tt, w')
    → (ingress ≡ true)
      × (r : FloatingIp) × (a : Inet) × (select_row (is_floating_ip p f) w.db.floating_ips ≡ some r)
      × (is_active r.status ≡ true)
      × (points_to r.instance_id i ≡ true)
      × (r.private_ip ≡ some a)
      × (w'.log ≡ Event.associate_ip r.public_ip a ∷ w.log)
      × TaskIs p t TaskStatus.succeeded w'.db
unfolding handle_associate_task raise
handle_associate_task_done false t p i f w w' e = ground arith
handle_associate_task_done true t p i f w w' e =
    let (u₁, w₁, e₁, k₁) = >>=-ok _ _ tt w w' e in
    let (r, w₂, e₂, k₂) = >>=-ok _ _ tt w₁ w' k₁ in
    let (a, w₃, e₃, k₃) = >>=-ok _ _ tt w₂ w' k₂ in
    let (u₄, w₄, e₄, k₄) = >>=-ok _ _ tt w₃ w' k₃ in
    let (f₁, d₁, o₁) = set_task-ok p t _ _ w w₁ e₁ in
    let (found, l₂) = get_floating_ip-ok p f r w₁ w₂ (on_error-ok _ _ r w₁ w₂ e₂) in
    let (active, bound, address, same) = check_bound-ok r i a w₂ w₃ (on_error-ok _ _ a w₂ w₃ e₃) in
    let (d₄, q₄, l₄) = request-ok _ _ w₃ w₄ (on_error-ok _ _ tt w₃ w₄ e₄) in
    let (f₅, d₅, o₅) = set_task-ok p t _ _ w₄ w' k₄ in
    (
      refl,
      r,
      a,
      ap (λ (d : Db). select_row (is_floating_ip p f) d.floating_ips) (sym d₁) ∙ found,
      active,
      bound,
      address,
      o₅.1
          ∙ l₄
          ∙ ap (λ l. Event.associate_ip r.public_ip a ∷ l)
              (ap (λ (x : World). x.log) (sym same) ∙ l₂ ∙ o₁.1),
      subst (TaskIs p t TaskStatus.succeeded) (sym d₅) (TaskIs-with_task p t _ _ w₄.db f₅),
    )
