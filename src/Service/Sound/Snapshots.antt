-- ===== src/Service/Sound/Snapshots.antt =====
-- The snapshots.
use casper_cloud.Prelude.{◌≢◌, ◌≡◌, Text, is_empty, trim_space}
use casper_cloud.Data.{
  Uuid, InstanceState, SnapshotStatus, TaskStatus, TaskType, Error, invalid_instance_action, Db,
}
use casper_cloud.Exec.{db_call, ignore, raise}
use casper_cloud.Exec.Keeps.{
  Keeps, Keeps-db_call, Keeps-bind, Keeps-bind-db_call, Keeps-on_error, Keeps-ignore,
  Keeps-publish_task, Keeps-raise, Keeps-if, keeps_rules, Keeps-pure,
}
use casper_cloud.Repository.Sound.{Sound}
use casper_cloud.Service.Sound.{
  Keeps-get_instance, Keeps-set_task, Keeps-set_state, Keeps-fail_task, Keeps-fail_with_state,
}
use casper_cloud.Repository.Tasks.{create_task}
use casper_cloud.Repository.Snapshots.{
  begin_snapshot_create, begin_snapshot_revert, update_snapshot_status, get_snapshot,
}
use casper_cloud.Repository.Sound.Rows.{
  create_task-Sound, update_snapshot_status-Sound, get_snapshot-Sound, begin_snapshot_create-Sound,
  begin_snapshot_revert-Sound, begin_snapshot_create-owner, begin_snapshot_revert-owner,
}
use casper_cloud.Service.Steps.{set_state}
use casper_cloud.Service.Snapshots.{
  fail_snapshot, fail_snapshot_task, snapshot_create_named, request_snapshot_create,
  request_snapshot_revert, handle_snapshot_create_task, handle_snapshot_revert_task,
}

module _ (own : Uuid → Uuid) (p q : Uuid) (ne : p ≢ q) (d₀ : Db) where
  Keeps-mark :
      (s : Uuid) (status : SnapshotStatus)
      → Keeps (Sound own q d₀) (db_call (update_snapshot_status p s status))
  Keeps-mark s status =
      Keeps-db_call _ (λ d h. update_snapshot_status-Sound own p q ne d₀ d h s status)

  Keeps-fail_snapshot : (s : Uuid) → Keeps (Sound own q d₀) (fail_snapshot p s)
  unfolding fail_snapshot
  Keeps-fail_snapshot s = Keeps-ignore _ (Keeps-mark s SnapshotStatus.error)

  Keeps-get_snapshot : (i s : Uuid) → Keeps (Sound own q d₀) (db_call (get_snapshot p i s))
  Keeps-get_snapshot i s = Keeps-db_call _ (λ d h. get_snapshot-Sound own p q ne d₀ d h i s)

  Keeps-create_task :
      (type : TaskType) (i : Uuid)
      → own i ≡ p
      → Keeps (Sound own q d₀) (db_call (create_task type p i TaskStatus.pending))
  Keeps-create_task type i o =
      Keeps-db_call _ (λ d h. create_task-Sound own p q ne d₀ d h type i TaskStatus.pending o)

  Keeps-fail_snapshot_task :
      (t i s : Uuid) (prior : InstanceState) (e : Error)
      → Keeps (Sound own q d₀) (fail_snapshot_task p t i s prior e)
  unfolding fail_snapshot_task
  Keeps-fail_snapshot_task t i s prior e =
      Keeps-bind _ _ (Keeps-fail_snapshot s) (λ _. Keeps-fail_with_state own p q ne d₀ t i prior e)

  pub Keeps-handle_snapshot_create_task :
      (t i s : Uuid) (prior : InstanceState)
      → Keeps (Sound own q d₀) (handle_snapshot_create_task t p i s prior)
  unfolding handle_snapshot_create_task
  Keeps-handle_snapshot_create_task t i s prior =
      search
        (
          keeps_rules,
          Keeps-get_snapshot,
          Keeps-mark,
          Keeps-fail_snapshot_task,
          Keeps-get_instance own p q ne d₀,
          Keeps-set_task own p q ne d₀,
          Keeps-set_state own p q ne d₀,
          Keeps-fail_task own p q ne d₀,
          Keeps-fail_with_state own p q ne d₀,
        )
        depth 14

  pub Keeps-handle_snapshot_revert_task :
      (t i s : Uuid) (prior : InstanceState)
      → Keeps (Sound own q d₀) (handle_snapshot_revert_task t p i s prior)
  unfolding handle_snapshot_revert_task
  Keeps-handle_snapshot_revert_task t i s prior =
      search
        (
          keeps_rules,
          Keeps-get_snapshot,
          Keeps-get_instance own p q ne d₀,
          Keeps-set_task own p q ne d₀,
          Keeps-set_state own p q ne d₀,
          Keeps-fail_task own p q ne d₀,
          Keeps-fail_with_state own p q ne d₀,
        )
        depth 14

  Keeps-restore :
      (i : Uuid) (prior : InstanceState) → Keeps (Sound own q d₀) (ignore (set_state p i prior))
  Keeps-restore i prior = Keeps-ignore _ (Keeps-set_state own p q ne d₀ i prior)

  pub Keeps-request_snapshot_revert :
      (i s : Uuid) → Keeps (Sound own q d₀) (request_snapshot_revert p i s)
  unfolding request_snapshot_revert
  Keeps-request_snapshot_revert i s = Keeps-bind _ _ (Keeps-get_snapshot i s) λ snap.
      Keeps-bind _ _ (search keeps_rules) λ _.
        Keeps-bind-db_call (begin_snapshot_revert p i) _ (λ _. own i ≡ p)
          (λ d h. begin_snapshot_revert-Sound own p q ne d₀ d h i)
          (λ d r d' h e. begin_snapshot_revert-owner own p q ne d₀ d h i r d' e)
          λ prior o.
            Keeps-bind _ _
              (Keeps-on_error _ _ (Keeps-create_task TaskType.instance_snapshot_revert i o)
                (λ e. Keeps-restore i prior))
              λ task.
                Keeps-bind _ _
                  (Keeps-on_error _ _ (Keeps-publish_task _) (λ e.
                    Keeps-bind _ _ (Keeps-fail_task own p q ne d₀ task.id e)
                      (λ _. Keeps-restore i prior)))
                  (λ _. Keeps-pure task)

  Keeps-locked_create :
      (s i : Uuid) (name : Text) → Keeps (Sound own q d₀) (snapshot_create_named s p i name)
  unfolding snapshot_create_named
  Keeps-locked_create s i name =
      Keeps-bind-db_call (begin_snapshot_create p i s name) _ (λ _. own i ≡ p)
        (λ d h. begin_snapshot_create-Sound own p q ne d₀ d h i s name)
        (λ d r d' h e. begin_snapshot_create-owner own p q ne d₀ d h i s name r d' e)
        λ prior o.
          Keeps-bind _ _
            (Keeps-on_error _ _ (Keeps-create_task TaskType.instance_snapshot_create i o)
              (λ e. Keeps-bind _ _ (Keeps-fail_snapshot s) (λ _. Keeps-restore i prior)))
            λ task.
              Keeps-bind _ _
                (Keeps-on_error _ _ (Keeps-publish_task _) (λ e.
                  Keeps-bind _ _
                    (Keeps-bind _ _ (Keeps-fail_task own p q ne d₀ task.id e)
                      (λ _. Keeps-fail_snapshot s))
                    (λ _. Keeps-restore i prior)))
                (λ _. Keeps-pure task)

  pub Keeps-request_snapshot_create :
      (s i : Uuid) (raw : Text) → Keeps (Sound own q d₀) (request_snapshot_create s p i raw)
  unfolding request_snapshot_create
  Keeps-request_snapshot_create s i raw =
      Keeps-if (is_empty (trim_space raw)) (raise invalid_instance_action)
        (snapshot_create_named s p i (trim_space raw)) (λ _. Keeps-raise _)
        (λ _. Keeps-locked_create s i (trim_space raw))
