-- ===== src/Repository/Sound/Volumes.antt =====
-- The statements on volumes keep the tables sound.
use casper_cloud.Prelude.{
  ◌≡◌, refl, ◌≢◌, ◌==◌, ◌&&◌, not, some, ◌∷◌, Text, ℕ, arith, is_some, All-update, All-delete,
  select-update, select-delete, select-cons, select_row,
}
use casper_cloud.Data.{Uuid, VolumeStatus, not_found, Volume, Db}
use casper_cloud.Exec.Keeps.{Kept}
use casper_cloud.Repository.Kept.{Kept-one_row, Kept-affected}
use casper_cloud.Repository.Volumes.{
  is_volume, is_free_volume, new_volume, create_volume, get_volume, delete_volume,
  attach_volume_record, detach_volume_record, set_volume_error,
}
use casper_cloud.Repository.Sound.{Sound, VolumeOk}
use casper_cloud.Repository.Sound.Change.{with_volumes}

module _ (own : Uuid → Uuid) (p q : Uuid) (ne : p ≢ q) (d₀ d : Db) (h : Sound own q d₀ d) where
  added-Sound :
      (r : Volume)
      → r.project_id ≡ p
      → VolumeOk own r
      → Sound own q d₀ (record d { volumes = r ∷ d.volumes })
  added-Sound r e o =
      with_volumes own q d₀ d h (r ∷ d.volumes) (o, h.volumes.good)
        (select-cons (λ r. r.project_id == q) r d.volumes (ground arith))

  pub create_volume-Sound :
      (v : Uuid) (name : Text) (n : ℕ)
      → Kept (Sound own q d₀) (create_volume p v name n VolumeStatus.available d)
  unfolding create_volume
  create_volume-Sound v name n =
      ground
        (arith, added-Sound (new_volume p v name n VolumeStatus.available d) refl (refl, refl, tt))

  pub get_volume-Sound : (v : Uuid) → Kept (Sound own q d₀) (get_volume p v d)
  unfolding get_volume
  get_volume-Sound v =
      Kept-one_row (Sound own q d₀) (select_row (is_volume p v) d.volumes) not_found d h

  pub delete_volume-Sound : (v : Uuid) → Kept (Sound own q d₀) (delete_volume p v d)
  unfolding delete_volume
  delete_volume-Sound v =
      let gone = λ (r : Volume). is_volume p v r && not (is_some r.instance_id) in
      ground (
        arith,
        with_volumes own q d₀ d h _ (All-delete (VolumeOk own) gone d.volumes h.volumes.good)
            (select-delete (λ r. r.project_id == q) gone (λ a e. ground arith) d.volumes),
      )

  pub attach_volume_record-Sound :
      (v i : Uuid) (target : Text)
      → own i ≡ p
      → Kept (Sound own q d₀) (attach_volume_record p v i target d)
  unfolding attach_volume_record
  attach_volume_record-Sound v i target o =
      let attach = λ (r : Volume). record r {
        instance_id = some i;
        target_dev = some target;
        status = VolumeStatus.in_use;
        updated_at = d.now;
      } in
      ground (
        arith,
        with_volumes own q d₀ d h _
            (All-update (VolumeOk own) (is_free_volume p v) attach (λ a e k. ground arith) d.volumes
              h.volumes.good)
            (select-update (λ r. r.project_id == q) (is_free_volume p v) attach
              (λ a e. ground arith) d.volumes),
      )

  pub detach_volume_record-Sound :
      (i v : Uuid) → Kept (Sound own q d₀) (detach_volume_record p i v d)
  unfolding detach_volume_record
  detach_volume_record-Sound i v = Kept-affected (Sound own q d₀) _ _ _ (
      with_volumes own q d₀ d h _
        (All-update (VolumeOk own) _ _ (λ a e k. (refl, refl, tt)) d.volumes h.volumes.good)
        (select-update _ _ _ (λ a e. ground arith) d.volumes))

  -- A volume that has no instance may be marked.
  pub set_volume_error-Sound : (v : Uuid) → Kept (Sound own q d₀) (set_volume_error p v d)
  unfolding set_volume_error
  set_volume_error-Sound v =
      with_volumes own q d₀ d h _
        (All-update (VolumeOk own) _ _ (λ a e k. (tt, k.1, k.2)) d.volumes h.volumes.good)
        (select-update _ _ _ (λ a e. ground arith) d.volumes)
