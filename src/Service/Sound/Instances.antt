-- ===== src/Service/Sound/Instances.antt =====
-- The lifecycle of an instance, its destruction and creation, and the requests for them.
use casper_cloud.Prelude.{◌≢◌, ◌≡◌, Option, Text, List, [], ◌∷◌}
use casper_cloud.Data.{
  Uuid, InstanceState, TaskStatus, TaskType, Instance, FloatingIpNatBinding, Db,
}
use casper_cloud.Exec.{Event, db_call}
use casper_cloud.Exec.Keeps.{
  Keeps, Keeps-db_call, Keeps-bind-db_call, Keeps-bind, Keeps-on_error, Keeps-ignore, Keeps-request,
  Keeps-publish_task, Keeps-or_raise, keeps_rules, Keeps-pure,
}
use casper_cloud.Repository.Sound.{Sound}
use casper_cloud.Service.Sound.{
  Keeps-get_instance, Keeps-set_task, Keeps-set_state, Keeps-fail_task, Keeps-fail_with_state,
}
use casper_cloud.Repository.Instances.{get_instance}
use casper_cloud.Repository.Images.{get_image}
use casper_cloud.Repository.Volumes.{count_volumes_attached_to_instance}
use casper_cloud.Repository.FloatingIps.{
  list_active_floating_ip_nat_bindings_by_instance, clear_floating_ip_bindings_for_instance,
}
use casper_cloud.Repository.Destroy.{finalize_instance_destroy}
use casper_cloud.Repository.Sound.Rows.{get_instance-Sound, get_instance-owner, create_task-Sound}
use casper_cloud.Repository.Sound.FloatingIps.{clear_floating_ip_bindings_for_instance-Sound}
use casper_cloud.Repository.Sound.Destroy.{finalize_instance_destroy-Sound}
use casper_cloud.Repository.Kept.{Kept-one_row}
use casper_cloud.Service.Lifecycle.{handle_simple_lifecycle}
use casper_cloud.Service.Destroy.{Wiring, disassociate_each, tear_down_nat, handle_destroy_task}
use casper_cloud.Service.Create.{Defaults, handle_create_task}
use casper_cloud.Service.Requests.{check_no_volumes, enqueue, request_instance_action}
use casper_cloud.Service.Sound.Volumes.{Keeps-detach_all}

module _ (own : Uuid → Uuid) (p q : Uuid) (ne : p ≢ q) (d₀ : Db) where
  pub Keeps-handle_simple_lifecycle :
      (t i : Uuid) (call : Instance → Event) (want : InstanceState)
      → Keeps (Sound own q d₀) (handle_simple_lifecycle t p i call want)
  unfolding handle_simple_lifecycle
  Keeps-handle_simple_lifecycle t i call want =
      search
        (
          keeps_rules,
          Keeps-get_instance own p q ne d₀,
          Keeps-set_task own p q ne d₀,
          Keeps-set_state own p q ne d₀,
          Keeps-fail_task own p q ne d₀,
          Keeps-fail_with_state own p q ne d₀,
        )
        depth 14

  Keeps-disassociate_each :
      (t i : Uuid) (bs : List FloatingIpNatBinding)
      → Keeps (Sound own q d₀) (disassociate_each t p i bs)
  unfolding disassociate_each
  Keeps-disassociate_each t i [] = Keeps-pure tt
  Keeps-disassociate_each t i (b ∷ bs) =
      Keeps-bind _ _
        (Keeps-on_error _ _ (Keeps-ignore _ (Keeps-request _ _))
          (Keeps-fail_with_state own p q ne d₀ t i InstanceState.error))
        (λ _. Keeps-disassociate_each t i bs)

  Keeps-bindings :
      (i : Uuid)
      → Keeps (Sound own q d₀) (db_call (list_active_floating_ip_nat_bindings_by_instance p i))
  unfolding list_active_floating_ip_nat_bindings_by_instance
  Keeps-bindings i = Keeps-db_call _ (λ d h. h)

  Keeps-clear :
      (i : Uuid) → Keeps (Sound own q d₀) (db_call (clear_floating_ip_bindings_for_instance p i))
  Keeps-clear i =
      Keeps-db_call _ (λ d h. clear_floating_ip_bindings_for_instance-Sound own p q ne d₀ d h i)

  Keeps-finalize : (t i : Uuid) → Keeps (Sound own q d₀) (db_call (finalize_instance_destroy p t i))
  Keeps-finalize t i =
      Keeps-db_call _ (λ d h. finalize_instance_destroy-Sound own p q ne d₀ t i d h)

  Keeps-tear_down_nat : (t i : Uuid) → Keeps (Sound own q d₀) (tear_down_nat t p i)
  unfolding tear_down_nat
  Keeps-tear_down_nat t i =
      search
        (
          keeps_rules,
          Keeps-bindings,
          Keeps-disassociate_each,
          Keeps-get_instance own p q ne d₀,
          Keeps-set_task own p q ne d₀,
          Keeps-set_state own p q ne d₀,
          Keeps-fail_task own p q ne d₀,
          Keeps-fail_with_state own p q ne d₀,
        )
        depth 14

  pub Keeps-handle_destroy_task :
      (s : Wiring) (t i : Uuid) → Keeps (Sound own q d₀) (handle_destroy_task s t p i)
  unfolding handle_destroy_task
  Keeps-handle_destroy_task s t i =
      search
        (
          keeps_rules,
          Keeps-detach_all own p q ne d₀,
          Keeps-tear_down_nat,
          Keeps-clear,
          Keeps-finalize,
          Keeps-get_instance own p q ne d₀,
          Keeps-set_task own p q ne d₀,
          Keeps-set_state own p q ne d₀,
          Keeps-fail_task own p q ne d₀,
          Keeps-fail_with_state own p q ne d₀,
        )
        depth 14

  Keeps-get_image : (i : Uuid) → Keeps (Sound own q d₀) (db_call (get_image p i))
  unfolding get_image
  Keeps-get_image i = Keeps-db_call _ (λ d h. Kept-one_row (Sound own q d₀) _ _ d h)

  pub Keeps-handle_create_task :
      (s : Defaults) (resolve : Text → Option Text) (t i : Uuid)
      → Keeps (Sound own q d₀) (handle_create_task s resolve t p i)
  unfolding handle_create_task
  Keeps-handle_create_task s resolve t i =
      search
        (
          keeps_rules,
          Keeps-get_image,
          Keeps-get_instance own p q ne d₀,
          Keeps-set_task own p q ne d₀,
          Keeps-set_state own p q ne d₀,
          Keeps-fail_task own p q ne d₀,
          Keeps-fail_with_state own p q ne d₀,
        )
        depth 14

  Keeps-counted :
      (i : Uuid) → Keeps (Sound own q d₀) (db_call (count_volumes_attached_to_instance p i))
  unfolding count_volumes_attached_to_instance
  Keeps-counted i = Keeps-db_call _ (λ d h. h)

  Keeps-check_no_volumes :
      (type : TaskType) (i : Uuid) → Keeps (Sound own q d₀) (check_no_volumes type p i)
  unfolding check_no_volumes
  Keeps-check_no_volumes type i = search (keeps_rules, Keeps-counted)

  Keeps-enqueue :
      (type : TaskType) (i : Uuid) → own i ≡ p → Keeps (Sound own q d₀) (enqueue type p i)
  unfolding enqueue
  Keeps-enqueue type i o =
      Keeps-bind _ _
        (Keeps-db_call _ (λ d h. create_task-Sound own p q ne d₀ d h type i TaskStatus.pending o))
        (λ task.
          Keeps-bind _ _
            (Keeps-on_error _ _ (Keeps-publish_task _) (Keeps-fail_task own p q ne d₀ task.id))
            (λ _. Keeps-pure task))

  pub Keeps-request_instance_action :
      (i : Uuid) (action : Text) → Keeps (Sound own q d₀) (request_instance_action p i action)
  unfolding request_instance_action
  Keeps-request_instance_action i action = Keeps-bind _ _ (Keeps-or_raise _ _) λ type.
      Keeps-bind-db_call (get_instance p i) _ (λ _. own i ≡ p)
        (λ d h. get_instance-Sound own p q ne d₀ d h i)
        (λ d r d' h e. get_instance-owner own p q ne d₀ d h i r d' e)
        λ inst o.
          Keeps-bind _ _ (search keeps_rules)
            (λ _. Keeps-bind _ _ (Keeps-check_no_volumes type i) (λ _. Keeps-enqueue type i o))
