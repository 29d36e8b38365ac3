-- ===== src/Service/Volumes.antt =====
-- internal/service/volume_service.go. A volume's file is named by the volume's id
-- (`storage.VolumeQCOW2Path`), so a request names the volume.
use casper_cloud.Prelude.{
  not, ltb, ℕ, Bool, true, Option, none, some, List, [], ◌∷◌, Text, is_some, points_to,
  if◌then◌else◌,
}
use casper_cloud.Data.{
  Uuid, InstanceState, eq_state, VolumeStatus, Error, volume_not_available,
  volume_not_attached_to_instance, instance_busy_snapshotting, instance_not_running,
  no_free_disk_slot, record_attach_failed, invalid_size, hypervisor_failed, host_failed, Volume,
}
use casper_cloud.Exec.{
  Result, ok, err, World, Exec, Event, pure, raise, or_raise, db_call, on_error, ignore, request,
  recover, ◌>>=◌, ◌>>◌,
}
use casper_cloud.Exec
use casper_cloud.Repository.Statement.{Done}
use casper_cloud.Repository.Instances.{get_instance}
use casper_cloud.Repository.Volumes.{
  create_volume, get_volume, delete_volume, list_volumes_attached_to_instance, attach_volume_record,
  detach_volume_record, set_volume_error, is_status_available,
}

-- `isUniqueViolation`
abbrev pub volume_error : Error → Error
volume_error Error.unique_violation = Error.volume_name_conflict
volume_error e = e

abbrev pub rename_error : {A : Type 0} → Exec.Result A × Exec.World → Exec.Result A × Exec.World
rename_error (Exec.Result.ok a, w) = (Exec.Result.ok a, w)
rename_error (Exec.Result.err e, w) = (Exec.Result.err (volume_error e), w)

unfoldable pub insert_volume : Uuid → Uuid → Text → ℕ → Exec Volume
insert_volume p v name size_gb w =
    rename_error (db_call (create_volume p v name size_gb VolumeStatus.available) w)

-- `storage.CreateSparseQCOW2`
unfoldable pub create_sparse_qcow2 : Uuid → ℕ → Exec Done
create_sparse_qcow2 v size_gb =
    if ltb 0 size_gb
    then request (Event.create_sparse_qcow2 v size_gb) host_failed
    else raise invalid_size

-- `v` is the id of `uuid.New()`.
unfoldable pub create : Uuid → Uuid → Text → ℕ → Exec Volume
unfolding insert_volume create_sparse_qcow2
create v p name size_gb = do
  vol ← insert_volume p v name size_gb
  on_error (create_sparse_qcow2 v size_gb) (λ e.
      ignore (db_call (set_volume_error p v))
      >> ignore (request (Event.remove_qcow2 v) host_failed))
  pure vol

-- A file that cannot be removed is logged.
unfoldable pub delete : Uuid → Uuid → Exec Done
delete p v = do db_call (delete_volume p v); ignore (request (Event.remove_qcow2 v) host_failed)

abbrev check_running : InstanceState → Exec Done
check_running state =
    if eq_state InstanceState.snapshotting state
    then raise instance_busy_snapshotting
    else if eq_state InstanceState.running state
    then pure tt
    else raise instance_not_running

abbrev check_free : Volume → Exec Done
check_free vol =
    if not (is_status_available vol.status)
    then raise volume_not_available
    else if is_some vol.instance_id
    then raise volume_not_available
    else pure tt

abbrev pub attach_error : Error → Error
attach_error Error.not_found = record_attach_failed
attach_error e = e

abbrev pub attach_wrapped : Result (Unit {0}) × World → Result (Unit {0}) × World
attach_wrapped (ok x, w) = (ok x, w)
attach_wrapped (err e, w) = (err (attach_error e), w)

-- `fmt.Errorf("record attach: %w", err)`, which is not `ErrNotFound` any more.
unfoldable pub wrap_attach : Exec (Unit {0}) → Exec (Unit {0})
wrap_attach m w = attach_wrapped (m w)

-- `target` is what `NextVirtioDiskTarget` answers of the domain, `none` where it fails.
unfoldable pub attach : Option Text → Uuid → Uuid → Uuid → Exec Done
attach target p i v = do
  inst ← db_call (get_instance p i)
  check_running inst.state
  vol ← db_call (get_volume p v)
  check_free vol
  dev ← or_raise target no_free_disk_slot
  request (Event.attach_volume inst.name v dev true) hypervisor_failed
  wrap_attach (
      on_error (db_call (attach_volume_record p v i dev))
        (λ e. ignore (request (Event.detach_volume inst.name v dev true) hypervisor_failed)))

abbrev attached_target : Volume → Uuid → Option Text
attached_target vol i = if points_to vol.instance_id i then vol.target_dev else none

unfoldable pub detach : Uuid → Uuid → Uuid → Exec Done
detach p i v = do
  inst ← db_call (get_instance p i)
  vol ← db_call (get_volume p v)
  dev ← or_raise (attached_target vol i) volume_not_attached_to_instance
  (if eq_state InstanceState.snapshotting inst.state
      then raise instance_busy_snapshotting
      else pure tt)
  request (Event.detach_volume inst.name v dev (eq_state InstanceState.running inst.state))
      hypervisor_failed
  db_call (detach_volume_record p i v)

-- A volume with no target is passed over; a failure of the hypervisor is logged.
unfoldable pub detach_each : Uuid → Uuid → Text → Bool → List Volume → Exec Done
detach_each p i name live [] = pure tt
detach_each p i name live (v ∷ vs) =
    let rest = detach_each p i name live vs in
    elim v.target_dev [
      | none ↦ rest
      | some dev ↦ do
        ignore (request (Event.detach_volume name v.id dev live) hypervisor_failed)
        db_call (detach_volume_record p i v.id)
        rest
    ]

unfoldable pub detach_all_from_instance_for_destroy : Uuid → Uuid → Text → Bool → Exec Done
unfolding detach_each
detach_all_from_instance_for_destroy p i name live = do
  vols ← db_call (list_volumes_attached_to_instance p i)
  detach_each p i name live vols
