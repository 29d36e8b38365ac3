-- ===== src/Repository/Sound/Rows.antt =====
-- The statements on instances, tasks and snapshots keep the tables sound.
use casper_cloud.Prelude.{
  ◌≡◌, refl, ◌≢◌, ◌==◌, ◌&&◌, Option, none, some, ◌∷◌, Text, arith, All-update, select-update,
  select-cons, select_row, select_row-All, select_row_sound, Option-cases, inl, inr,
}
use casper_cloud.Data.{
  Uuid, InstanceState, TaskStatus, TaskType, SnapshotStatus, Error, not_found, Instance, Task,
  Snapshot, Db,
}
use casper_cloud.Exec.{ok}
use casper_cloud.Exec.Keeps.{Kept}
use casper_cloud.Repository.Kept.{Kept-one_row, Kept-affected, one_row-ok}
use casper_cloud.Repository.Instances.{is_instance, get_instance, update_instance_state}
use casper_cloud.Repository.Tasks.{
  new_task, create_task, create_task_without_instance, update_task_status,
}
use casper_cloud.Repository.Snapshots.{
  new_snapshot, lock_instance, update_snapshot_status, get_snapshot, begin_snapshot_create,
  begin_snapshot_revert,
}
use casper_cloud.Repository.Sound.{Sound, InstanceOk, TaskOk, SnapshotOk}
use casper_cloud.Repository.Sound.Change.{with_instances, with_tasks, with_snapshots}

module _ (own : Uuid → Uuid) (p q : Uuid) (ne : p ≢ q) (d₀ d : Db) (h : Sound own q d₀ d) where
  pub get_instance-Sound : (i : Uuid) → Kept (Sound own q d₀) (get_instance p i d)
  unfolding get_instance
  get_instance-Sound i =
      Kept-one_row (Sound own q d₀) (select_row (is_instance p i) d.instances) not_found d h

  -- The instance that a project finds by its id belongs to the project.
  pub found-owner :
      (i : Uuid) (r : Instance) → select_row (is_instance p i) d.instances ≡ some r → own i ≡ p
  found-owner i r found = ground (
    arith,
    select_row_sound (is_instance p i) r d.instances found,
    select_row-All (InstanceOk own) (is_instance p i) r d.instances h.instances.good found,
  )

  pub get_instance-owner :
      (i : Uuid) (r : Instance) (d' : Db) → get_instance p i d ≡ ok (r, d') → own i ≡ p
  unfolding get_instance
  get_instance-owner i r d' e =
      found-owner i r (one_row-ok (select_row (is_instance p i) d.instances) not_found d r d' e).0

  pub update_instance_state-Sound :
      (i : Uuid) (s : InstanceState) → Kept (Sound own q d₀) (update_instance_state p i s d)
  unfolding update_instance_state
  update_instance_state-Sound i s = Kept-affected (Sound own q d₀) _ _ _ (
      with_instances own q d₀ d h _
        (All-update (InstanceOk own) _ _ (λ a e k. k) d.instances h.instances.good)
        (select-update _ _ _ (λ a e. ground arith) d.instances))

  pub update_task_status-Sound :
      (t : Uuid) (s : TaskStatus) (e : Option Error)
      → Kept (Sound own q d₀) (update_task_status p t s e d)
  unfolding update_task_status
  update_task_status-Sound t s e = Kept-affected (Sound own q d₀) _ _ _ (
      with_tasks own q d₀ d h _ (All-update (TaskOk own) _ _ (λ a e k. k) d.tasks h.tasks.good)
        (select-update _ _ _ (λ a e. ground arith) d.tasks))

  added-Sound :
      (r : Task)
      → r.project_id ≡ p
      → TaskOk own r
      → Sound own q d₀ (record d { tasks = r ∷ d.tasks })
  added-Sound r e o =
      with_tasks own q d₀ d h (r ∷ d.tasks) (o, h.tasks.good)
        (select-cons (λ r. r.project_id == q) r d.tasks (ground arith))

  pub create_task-Sound :
      (type : TaskType) (i : Uuid) (s : TaskStatus)
      → own i ≡ p
      → Kept (Sound own q d₀) (create_task type p i s d)
  unfolding create_task
  create_task-Sound type i s o = ground (arith, added-Sound (new_task type p (some i) s d) refl o)

  pub create_task_without_instance-Sound :
      (type : TaskType) (s : TaskStatus)
      → Kept (Sound own q d₀) (create_task_without_instance type p s d)
  unfolding create_task_without_instance
  create_task_without_instance-Sound type s =
      ground (arith, added-Sound (new_task type p none s d) refl tt)

  pub update_snapshot_status-Sound :
      (i : Uuid) (s : SnapshotStatus) → Kept (Sound own q d₀) (update_snapshot_status p i s d)
  unfolding update_snapshot_status
  update_snapshot_status-Sound i s = Kept-affected (Sound own q d₀) _ _ _ (
      with_snapshots own q d₀ d h _
        (All-update (SnapshotOk own) _ _ (λ a e k. k) d.snapshots h.snapshots.good)
        (select-update _ _ _ (λ a e. ground arith) d.snapshots))

  locked-Sound : (i : Uuid) (state : InstanceState) → Sound own q d₀ (lock_instance p i state d)
  locked-Sound i state =
      with_instances own q d₀ d h _
        (All-update (InstanceOk own) _ _ (λ a e k. k) d.instances h.instances.good)
        (select-update _ _ _ (λ a e. ground arith) d.instances)

  pub begin_snapshot_revert-Sound : (i : Uuid) → Kept (Sound own q d₀) (begin_snapshot_revert p i d)
  unfolding begin_snapshot_revert
  begin_snapshot_revert-Sound i = elim (Option-cases (select_row (is_instance p i) d.instances)) [
    | inl e ↦ rw (e, begin_snapshot_revert) tt
    | inr (r, e) ↦ rw (e, begin_snapshot_revert) (ground (arith, locked-Sound i r.state))
  ]

  pub get_snapshot-Sound : (i s : Uuid) → Kept (Sound own q d₀) (get_snapshot p i s d)
  unfolding get_snapshot
  get_snapshot-Sound i s =
      Kept-one_row (Sound own q d₀)
        (select_row (λ r. r.project_id == p && r.instance_id == i && r.id == s) d.snapshots)
        not_found d h

module _ (own : Uuid → Uuid) (p q : Uuid) (ne : p ≢ q) (d₀ d : Db) (h : Sound own q d₀ d) where
  inserted-Sound :
      (r : Snapshot)
      → r.project_id ≡ p
      → SnapshotOk own r
      → Sound own q d₀ (record d { snapshots = r ∷ d.snapshots })
  inserted-Sound r e o =
      with_snapshots own q d₀ d h (r ∷ d.snapshots) (o, h.snapshots.good)
        (select-cons (λ r. r.project_id == q) r d.snapshots (ground arith))

  pub begin_snapshot_create-Sound :
      (i s : Uuid) (name : Text) → Kept (Sound own q d₀) (begin_snapshot_create p i s name d)
  unfolding begin_snapshot_create
  begin_snapshot_create-Sound i s name =
      elim (Option-cases (select_row (is_instance p i) d.instances)) [
        | inl e ↦ rw (e, begin_snapshot_create) tt
        | inr (r, e) ↦
            let row = new_snapshot p i s name r.state d in
            let o = found-owner own p q ne d₀ d h i r e in
            rw (e, begin_snapshot_create)
              (ground (
                arith,
                locked-Sound own p q ne d₀ (record d { snapshots = row ∷ d.snapshots })
                    (inserted-Sound row refl o) i r.state,
              ))
      ]

  -- A snapshot begins only on an instance of the project.
  pub begin_snapshot_create-owner :
      (i s : Uuid) (name : Text) (state : InstanceState) (d' : Db)
      → begin_snapshot_create p i s name d ≡ ok (state, d')
      → own i ≡ p
  unfolding begin_snapshot_create
  begin_snapshot_create-owner i s name state d' e =
      elim (Option-cases (select_row (is_instance p i) d.instances)) [
        | inl k ↦ ground arith
        | inr (r, k) ↦ found-owner own p q ne d₀ d h i r k
      ]

  pub begin_snapshot_revert-owner :
      (i : Uuid) (state : InstanceState) (d' : Db)
      → begin_snapshot_revert p i d ≡ ok (state, d')
      → own i ≡ p
  unfolding begin_snapshot_revert
  begin_snapshot_revert-owner i state d' e =
      elim (Option-cases (select_row (is_instance p i) d.instances)) [
        | inl k ↦ ground arith
        | inr (r, k) ↦ found-owner own p q ne d₀ d h i r k
      ]
