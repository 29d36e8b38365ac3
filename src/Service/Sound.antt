-- ===== src/Service/Sound.antt =====
-- The handlers keep the tables sound, whichever of their calls fail.
pub mod Instances
pub mod Volumes
pub mod Snapshots
pub mod FloatingIps
pub mod Create
use casper_cloud.Prelude.{◌≢◌, Option}
use casper_cloud.Data.{Uuid, InstanceState, TaskStatus, Error, Db}
use casper_cloud.Exec.{db_call}
use casper_cloud.Exec.Keeps.{Keeps, Keeps-db_call, keeps_rules}
use casper_cloud.Repository.Instances.{get_instance}
use casper_cloud.Repository.Sound.{Sound}
use casper_cloud.Repository.Sound.Rows.{
  get_instance-Sound, update_instance_state-Sound, update_task_status-Sound,
}
use casper_cloud.Service.Steps.{set_task, set_state, fail_task, fail_with_state}

module _ (own : Uuid → Uuid) (p q : Uuid) (ne : p ≢ q) (d₀ : Db) where
  pub Keeps-get_instance : (i : Uuid) → Keeps (Sound own q d₀) (db_call (get_instance p i))
  Keeps-get_instance i = Keeps-db_call _ (λ d h. get_instance-Sound own p q ne d₀ d h i)

  pub Keeps-set_task :
      (t : Uuid) (s : TaskStatus) (e : Option Error) → Keeps (Sound own q d₀) (set_task p t s e)
  unfolding set_task
  Keeps-set_task t s e = Keeps-db_call _ (λ d h. update_task_status-Sound own p q ne d₀ d h t s e)

  pub Keeps-set_state : (i : Uuid) (s : InstanceState) → Keeps (Sound own q d₀) (set_state p i s)
  unfolding set_state
  Keeps-set_state i s = Keeps-db_call _ (λ d h. update_instance_state-Sound own p q ne d₀ d h i s)

  pub Keeps-fail_task : (t : Uuid) (e : Error) → Keeps (Sound own q d₀) (fail_task p t e)
  unfolding fail_task
  Keeps-fail_task t e = search (keeps_rules, Keeps-set_task)

  pub Keeps-fail_with_state :
      (t i : Uuid) (s : InstanceState) (e : Error)
      → Keeps (Sound own q d₀) (fail_with_state p t i s e)
  unfolding fail_with_state
  Keeps-fail_with_state t i s e = search (keeps_rules, Keeps-set_state, Keeps-fail_task)
