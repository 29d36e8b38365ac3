-- ===== src/Service/Outcomes/Snapshots.antt =====
-- What the tasks of a snapshot and of a revert have done when they return.
use casper_cloud.Prelude.{
  ◌≡◌, refl, sym, subst, some, select_row, select_row-exists, select_row-update,
}
use casper_cloud.Data.{Uuid, InstanceState, TaskStatus, SnapshotStatus, Snapshot, Db}
use casper_cloud.Exec.{World, ok, db_call}
use casper_cloud.Exec.Success.{>>=-ok, on_error-ok, db_call-ok}
use casper_cloud.Repository.Kept.{affected-ok}
use casper_cloud.Repository.Snapshots.{is_snapshot, update_snapshot_status}
use casper_cloud.Service.Snapshots.{handle_snapshot_create_task}
use casper_cloud.Service.Outcomes.Steps.{
  TaskIs, InstanceIs, TaskIs-with_task, InstanceIs-with_state, set_task-ok, set_state-ok,
}

-- The row of the snapshot is there with this status.
abbrev pub SnapshotIs : Uuid → Uuid → SnapshotStatus → Db → Type 0
SnapshotIs p s status d =
    (r : Snapshot) × (select_row (is_snapshot p s) d.snapshots ≡ some r) × (r.status ≡ status)

update_snapshot_status-ok :
    (p s : Uuid) (status : SnapshotStatus) (w w' : World)
    → db_call (update_snapshot_status p s status) w ≡ (ok tt, w')
    → SnapshotIs p s status w'.db
unfolding update_snapshot_status
update_snapshot_status-ok p s status w w' e =
    let (run, queue, log) = db_call-ok _ tt w w' e in
    let (there, same) = affected-ok _ _ _ _ run in
    let (r, found) = select_row-exists (is_snapshot p s) w.db.snapshots there in
    subst (SnapshotIs p s status) same
      (_, select_row-update (is_snapshot p s) _ (λ a k. k) r w.db.snapshots found, refl)

-- If the task of a snapshot returns without an error, the snapshot is available, the instance is back
-- in the state from before the lock, and the task has succeeded.
pub handle_snapshot_create_task_done :
    (t p i s : Uuid) (prior : InstanceState) (w w' : World)
    → handle_snapshot_create_task t p i s prior w ≡ (ok tt, w')
    → SnapshotIs p s SnapshotStatus.available w'.db
      × InstanceIs p i prior w'.db
      × TaskIs p t TaskStatus.succeeded w'.db
unfolding handle_snapshot_create_task
handle_snapshot_create_task_done t p i s prior w w' e =
    let (u₁, w₁, e₁, k₁) = >>=-ok _ _ tt w w' e in
    let (snap, w₂, e₂, k₂) = >>=-ok _ _ tt w₁ w' k₁ in
    let (inst, w₃, e₃, k₃) = >>=-ok _ _ tt w₂ w' k₂ in
    let (u₄, w₄, e₄, k₄) = >>=-ok _ _ tt w₃ w' k₃ in
    let (u₅, w₅, e₅, k₅) = >>=-ok _ _ tt w₄ w' k₄ in
    let (u₆, w₆, e₆, k₆) = >>=-ok _ _ tt w₅ w' k₅ in
    let available = update_snapshot_status-ok p s _ w₄ w₅ (on_error-ok _ _ tt w₄ w₅ e₅) in
    let (f₆, d₆, o₆) = set_state-ok p i prior w₅ w₆ (on_error-ok _ _ tt w₅ w₆ e₆) in
    let (f₇, d₇, o₇) = set_task-ok p t _ _ w₆ w' k₆ in
    (
      subst (SnapshotIs p s SnapshotStatus.available) (sym d₇)
          (subst (SnapshotIs p s SnapshotStatus.available) (sym d₆) available),
      subst (InstanceIs p i prior) (sym d₇)
          (subst (InstanceIs p i prior) (sym d₆) (InstanceIs-with_state p i prior w₅.db f₆)),
      subst (TaskIs p t TaskStatus.succeeded) (sym d₇) (TaskIs-with_task p t _ _ w₆.db f₇),
    )
