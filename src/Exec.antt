-- ===== src/Exec.antt =====
-- How the services run. A call of the database, the hypervisor, the broker or the host may fail, and
-- what was done before a failure stays done; so the world comes back beside an error too.
pub mod Keeps
pub mod Success
use casper_cloud.Prelude.{
  ℕ, Bool, true, false, Option, none, some, List, [], ◌∷◌, ◌++◌, Text, if◌then◌else◌,
}
use casper_cloud.Data.{Uuid, Inet, Error, database_failed, broker_failed, Db, TaskMessage}

pub data Result {ℓ} (A : Type ℓ) : Type ℓ where
  ok : A → Result A
  err : Error → Result A

-- `libvirt.VMConfig`
pub record VmConfig : Type 0 where
  pub instance_id : Uuid
  pub instance_name : Text
  pub hostname : Text
  pub base_image_path : Text
  pub user_data : Text
  pub network_config_yaml : Text
  pub mac_address : Text
  pub bridge_name : Text
  pub memory_mb : ℕ
  pub vcpus : ℕ

-- A request to the hypervisor, the host's NAT or its disks. A domain is named by its instance.
pub data Event : Type 0 where
  create_vm : VmConfig → Event
  list_domains : Event
  start_vm graceful_shutdown reboot_vm : Text → Event
  delete_vm : Text → Uuid → Event
  create_internal_snapshot : Text → Uuid → Text → Bool → Event
  revert_to_internal_snapshot : Text → Uuid → Bool → Bool → Event
  attach_volume detach_volume : Text → Uuid → Text → Bool → Event
  associate_ip disassociate_ip : Inet → Inet → Event
  create_sparse_qcow2 : Uuid → ℕ → Event
  remove_qcow2 : Uuid → Event

-- `faults` tells of each coming call whether it fails (past its end, none does); `log` holds the
-- requests that were made, the newest first, and `queue` the tasks that were published.
pub record World : Type 0 where
  pub db : Db
  pub faults : List Bool
  pub queue : List TaskMessage
  pub log : List Event

abbrev pub Exec : Type 0 → Type 0
Exec A = World → Result A × World

-- Whether the next call fails, and the calls after it.
abbrev pub fails : List Bool → Bool
fails [] = false
fails (b ∷ bs) = b

abbrev pub later : List Bool → List Bool
later [] = []
later (b ∷ bs) = bs

module _ {A : Type 0} where
  unfoldable pub pure : A → Exec A
  pure a w = (ok a, w)

  unfoldable pub raise : Error → Exec A
  raise e w = (err e, w)

  abbrev pub or_raise : Option A → Error → Exec A
  or_raise none e = raise e
  or_raise (some a) e = pure a

  abbrev pub commit : Result (A × Db) → World → Result A × World
  commit (ok (a, d)) w = (ok a, record w { db = d })
  commit (err e) w = (err e, w)

  -- One statement, or one transaction: it fails and changes nothing, or all of it is done.
  unfoldable pub db_call : (Db → Result (A × Db)) → Exec A
  db_call f w =
      let w' = record w { faults = later w.faults } in
      if fails w.faults then (err database_failed, w') else commit (f w.db) w'

  abbrev pub recover : (Error → Exec (Unit {0})) → Result A → World → Result A × World
  recover h (ok a) w = (ok a, w)
  recover h (err e) w = (err e, (h e w).1)

  -- `if err := m; err != nil { h(err); return err }`
  unfoldable pub on_error : Exec A → (Error → Exec (Unit {0})) → Exec A
  on_error m h w = let (r, w') = m w in recover h r w'

  -- `_ = m`
  unfoldable pub ignore : Exec A → Exec (Unit {0})
  ignore m w = (ok tt, (m w).1)

-- A request to the hypervisor or the host, which answers with success or a failure.
unfoldable pub request : Event → Error → Exec (Unit {0})
request ev e w =
    let w' = record w { faults = later w.faults; log = ev ∷ w.log } in
    if fails w.faults then (err e, w') else (ok tt, w')

-- `PublishTask`: a message that the broker refuses is not in the queue.
unfoldable pub publish_task : TaskMessage → Exec (Unit {0})
publish_task msg w =
    let w' = record w { faults = later w.faults } in
    if fails w.faults
    then (err broker_failed, w')
    else (ok tt, record w' { queue = w.queue ++ msg ∷ [] })

abbrev pub continue : {A B : Type 0} → Result A → (A → Exec B) → Exec B
continue (ok a) f w = f a w
continue (err e) f w = (err e, w)

infixl 5 ◌>>=◌ ◌>>◌
unfoldable pub ◌>>=◌ : {A B : Type 0} → Exec A → (A → Exec B) → Exec B
◌>>=◌ m f w = let (r, w') = m w in continue r f w'

abbrev pub ◌>>◌ : {A B : Type 0} → Exec A → Exec B → Exec B
m >> k = m >>= λ _. k
