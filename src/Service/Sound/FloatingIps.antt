-- ===== src/Service/Sound/FloatingIps.antt =====
-- The floating IPs.
use casper_cloud.Prelude.{◌≢◌, ◌≡◌, Bool}
use casper_cloud.Data.{Uuid, Inet, TaskStatus, TaskType, Db}
use casper_cloud.Exec.{db_call}
use casper_cloud.Exec.Keeps.{
  Keeps, Keeps-db_call, Keeps-bind, Keeps-bind-db_call, Keeps-on_error, Keeps-ignore,
  Keeps-publish_task, Keeps-or_raise, keeps_rules, Keeps-pure,
}
use casper_cloud.Repository.Sound.{Sound}
use casper_cloud.Service.Sound.{
  Keeps-get_instance, Keeps-set_task, Keeps-set_state, Keeps-fail_task, Keeps-fail_with_state,
}
use casper_cloud.Repository.Tasks.{create_task, create_task_without_instance}
use casper_cloud.Repository.FloatingIps.{
  get_floating_ip_for_project, try_associate_floating_ip, take_disassociate_floating_ip,
  rollback_floating_ip_association,
}
use casper_cloud.Repository.Sound.Rows.{create_task-Sound, create_task_without_instance-Sound}
use casper_cloud.Repository.Sound.FloatingIps.{
  get_floating_ip_for_project-Sound, try_associate_floating_ip-Sound,
  try_associate_floating_ip-owner, take_disassociate_floating_ip-Sound,
  rollback_floating_ip_association-Sound,
}
use casper_cloud.Repository.Sound.Allocation.{allocate-Sound}
use casper_cloud.Service.FloatingIps.{
  allocate, request_associate, request_disassociate, handle_associate_task,
  handle_disassociate_task,
}

module _ (own : Uuid → Uuid) (p q : Uuid) (ne : p ≢ q) (d₀ : Db) where
  Keeps-get_floating_ip :
      (f : Uuid) → Keeps (Sound own q d₀) (db_call (get_floating_ip_for_project p f))
  Keeps-get_floating_ip f =
      Keeps-db_call _ (λ d h. get_floating_ip_for_project-Sound own p q ne d₀ d h f)

  Keeps-take : (f : Uuid) → Keeps (Sound own q d₀) (db_call (take_disassociate_floating_ip p f))
  Keeps-take f = Keeps-db_call _ (λ d h. take_disassociate_floating_ip-Sound own p q ne d₀ d h f)

  Keeps-rollback :
      (f : Uuid) → Keeps (Sound own q d₀) (db_call (rollback_floating_ip_association p f))
  Keeps-rollback f =
      Keeps-db_call _ (λ d h. rollback_floating_ip_association-Sound own p q ne d₀ d h f)

  Keeps-create_task :
      (i : Uuid)
      → own i ≡ p
      → Keeps
          (Sound own q d₀)
          (db_call (create_task TaskType.floating_ip_associate p i TaskStatus.pending))
  Keeps-create_task i o = Keeps-db_call _ (λ d h.
      create_task-Sound own p q ne d₀ d h TaskType.floating_ip_associate i TaskStatus.pending o)

  Keeps-create_task_without : Keeps (Sound own q d₀) (
      db_call (create_task_without_instance TaskType.floating_ip_disassociate p TaskStatus.pending))
  Keeps-create_task_without = Keeps-db_call _ (λ d h.
      create_task_without_instance-Sound own p q ne d₀ d h TaskType.floating_ip_disassociate
        TaskStatus.pending)

  pub Keeps-request_associate : (f i : Uuid) → Keeps (Sound own q d₀) (request_associate p f i)
  unfolding request_associate
  Keeps-request_associate f i =
      Keeps-bind-db_call (try_associate_floating_ip p f i) _ (λ _. own i ≡ p)
        (λ d h. try_associate_floating_ip-Sound own p q ne d₀ d h f i)
        (λ d x d' h e. try_associate_floating_ip-owner own p q ne d₀ d h f i x d' e)
        λ fip o. Keeps-bind _ _ (Keeps-or_raise _ _) λ private.
          Keeps-bind _ _ (Keeps-create_task i o) λ task.
            Keeps-bind _ _
              (Keeps-on_error _ _ (Keeps-publish_task _) (λ e.
                Keeps-bind _ _ (Keeps-fail_task own p q ne d₀ task.id e)
                  (λ _. Keeps-ignore _ (Keeps-rollback f))))
              (λ _. Keeps-pure task)

  pub Keeps-request_disassociate : (f : Uuid) → Keeps (Sound own q d₀) (request_disassociate p f)
  unfolding request_disassociate
  Keeps-request_disassociate f = Keeps-bind _ _ (Keeps-take f) λ b.
      Keeps-bind _ _ Keeps-create_task_without λ task.
        Keeps-bind _ _
          (Keeps-on_error _ _ (Keeps-publish_task _) (Keeps-fail_task own p q ne d₀ task.id))
          (λ _. Keeps-pure task)

  pub Keeps-handle_associate_task :
      (ingress : Bool) (t i f : Uuid)
      → Keeps (Sound own q d₀) (handle_associate_task ingress t p i f)
  unfolding handle_associate_task
  Keeps-handle_associate_task ingress t i f =
      search
        (
          keeps_rules,
          Keeps-get_floating_ip,
          Keeps-get_instance own p q ne d₀,
          Keeps-set_task own p q ne d₀,
          Keeps-set_state own p q ne d₀,
          Keeps-fail_task own p q ne d₀,
          Keeps-fail_with_state own p q ne d₀,
        )
        depth 14

  pub Keeps-handle_disassociate_task :
      (ingress : Bool) (t : Uuid) (a b : Inet)
      → Keeps (Sound own q d₀) (handle_disassociate_task ingress t p a b)
  unfolding handle_disassociate_task
  Keeps-handle_disassociate_task ingress t a b =
      search
        (
          keeps_rules,
          Keeps-get_instance own p q ne d₀,
          Keeps-set_task own p q ne d₀,
          Keeps-set_state own p q ne d₀,
          Keeps-fail_task own p q ne d₀,
          Keeps-fail_with_state own p q ne d₀,
        )
        depth 14

  pub Keeps-allocate : (locked : Uuid → Bool) → Keeps (Sound own q d₀) (allocate locked p)
  unfolding allocate
  Keeps-allocate locked = Keeps-db_call _ (λ d h. allocate-Sound own p q ne d₀ d h locked)
