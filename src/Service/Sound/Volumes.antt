-- ===== src/Service/Sound/Volumes.antt =====
-- The volumes.
use casper_cloud.Prelude.{◌≢◌, ◌≡◌, ℕ, Bool, Option, none, some, Text, List, [], ◌∷◌}
use casper_cloud.Data.{Uuid, VolumeStatus, hypervisor_failed, Volume, Db}
use casper_cloud.Exec.{Result, ok, err, World, Exec, Event, db_call, ignore, request, ◌>>◌}
use casper_cloud.Exec.Keeps.{
  Keeps, Kept, Keeps-db_call, Keeps-bind-db_call, Keeps-bind, Keeps-on_error, Keeps-ignore,
  Keeps-request, keeps_rules, Keeps-pure,
}
use casper_cloud.Repository.Statement.{Statement}
use casper_cloud.Repository.Sound.{Sound}
use casper_cloud.Service.Sound.{
  Keeps-get_instance, Keeps-set_task, Keeps-set_state, Keeps-fail_task, Keeps-fail_with_state,
}
use casper_cloud.Repository.Instances.{get_instance}
use casper_cloud.Repository.Volumes.{
  create_volume, get_volume, delete_volume, list_volumes_attached_to_instance, attach_volume_record,
  detach_volume_record, set_volume_error,
}
use casper_cloud.Repository.Sound.Rows.{get_instance-Sound, get_instance-owner}
use casper_cloud.Repository.Sound.Volumes.{
  create_volume-Sound, get_volume-Sound, delete_volume-Sound, attach_volume_record-Sound,
  detach_volume_record-Sound, set_volume_error-Sound,
}
use casper_cloud.Service.Volumes.{
  insert_volume, wrap_attach, attach_wrapped, rename_error, create_sparse_qcow2, detach_each,
  detach_all_from_instance_for_destroy,
}
use casper_cloud.Service.Volumes

module _ (own : Uuid → Uuid) (p q : Uuid) (ne : p ≢ q) (d₀ : Db) where
  Keeps-get_volume : (v : Uuid) → Keeps (Sound own q d₀) (db_call (get_volume p v))
  Keeps-get_volume v = Keeps-db_call _ (λ d h. get_volume-Sound own p q ne d₀ d h v)

  Keeps-detach_volume_record :
      (i v : Uuid) → Keeps (Sound own q d₀) (db_call (detach_volume_record p i v))
  Keeps-detach_volume_record i v =
      Keeps-db_call _ (λ d h. detach_volume_record-Sound own p q ne d₀ d h i v)

  Keeps-delete_volume : (v : Uuid) → Keeps (Sound own q d₀) (db_call (delete_volume p v))
  Keeps-delete_volume v = Keeps-db_call _ (λ d h. delete_volume-Sound own p q ne d₀ d h v)

  Keeps-set_volume_error : (v : Uuid) → Keeps (Sound own q d₀) (db_call (set_volume_error p v))
  Keeps-set_volume_error v = Keeps-db_call _ (λ d h. set_volume_error-Sound own p q ne d₀ d h v)

  Keeps-listed :
      (i : Uuid) → Keeps (Sound own q d₀) (db_call (list_volumes_attached_to_instance p i))
  unfolding list_volumes_attached_to_instance
  Keeps-listed i = Keeps-db_call _ (λ d h. h)

  Keeps-detach_each :
      (i : Uuid) (name : Text) (live : Bool) (vs : List Volume)
      → Keeps (Sound own q d₀) (detach_each p i name live vs)
  unfolding detach_each
  Keeps-detach_each i name live [] = Keeps-pure tt
  Keeps-detach_each i name live (v ∷ vs) = go v.target_dev (Keeps-detach_each i name live vs)
    where
      go :
          (o : Option Text)
          → Keeps (Sound own q d₀) (detach_each p i name live vs)
          → Keeps (Sound own q d₀) (elim o [
            | none ↦ detach_each p i name live vs
            | some dev ↦
                ignore (request (Event.detach_volume name v.id dev live) hypervisor_failed)
                >> (db_call (detach_volume_record p i v.id) >> detach_each p i name live vs)
          ])
      go none rest = rest
      go (some dev) rest =
          Keeps-bind _ _ (Keeps-ignore _ (Keeps-request _ _))
            (λ _. Keeps-bind _ _ (Keeps-detach_volume_record i v.id) (λ _. rest))

  pub Keeps-detach_all :
      (i : Uuid) (name : Text) (live : Bool)
      → Keeps (Sound own q d₀) (detach_all_from_instance_for_destroy p i name live)
  unfolding detach_all_from_instance_for_destroy
  Keeps-detach_all i name live =
      search
        (
          keeps_rules,
          Keeps-listed,
          Keeps-detach_each,
          Keeps-get_instance own p q ne d₀,
          Keeps-set_task own p q ne d₀,
          Keeps-set_state own p q ne d₀,
          Keeps-fail_task own p q ne d₀,
          Keeps-fail_with_state own p q ne d₀,
        )
        depth 14

  pub Keeps-delete : (v : Uuid) → Keeps (Sound own q d₀) (Volumes.delete p v)
  unfolding Volumes.delete
  Keeps-delete v =
      search
        (
          keeps_rules,
          Keeps-delete_volume,
          Keeps-get_instance own p q ne d₀,
          Keeps-set_task own p q ne d₀,
          Keeps-set_state own p q ne d₀,
          Keeps-fail_task own p q ne d₀,
          Keeps-fail_with_state own p q ne d₀,
        )
        depth 14

  pub Keeps-detach : (i v : Uuid) → Keeps (Sound own q d₀) (Volumes.detach p i v)
  unfolding Volumes.detach
  Keeps-detach i v =
      search
        (
          keeps_rules,
          Keeps-get_volume,
          Keeps-detach_volume_record,
          Keeps-get_instance own p q ne d₀,
          Keeps-set_task own p q ne d₀,
          Keeps-set_state own p q ne d₀,
          Keeps-fail_task own p q ne d₀,
          Keeps-fail_with_state own p q ne d₀,
        )
        depth 14

  Keeps-wrap_attach :
      (m : Exec (Unit {0})) → Keeps (Sound own q d₀) m → Keeps (Sound own q d₀) (wrap_attach m)
  unfolding wrap_attach
  Keeps-wrap_attach m k = record { at = λ w h. go (m w) (k.at w h) }
    where
      go :
          (r : Result (Unit {0}) × World)
          → Sound own q d₀ r.1.db
          → Sound own q d₀ (attach_wrapped r).1.db
      go (ok a, w) h = h
      go (err e, w) h = h

  pub Keeps-attach :
      (target : Option Text) (i v : Uuid) → Keeps (Sound own q d₀) (Volumes.attach target p i v)
  unfolding Volumes.attach
  Keeps-attach target i v =
      Keeps-bind-db_call (get_instance p i) _ (λ _. own i ≡ p)
        (λ d h. get_instance-Sound own p q ne d₀ d h i)
        (λ d r d' h e. get_instance-owner own p q ne d₀ d h i r d' e)
        (λ inst o.
          search (keeps_rules, Keeps-wrap_attach, Keeps-get_volume, Keeps-attach_volume_record o)
            depth 14)
    where
      Keeps-attach_volume_record :
          own i ≡ p
          → (dev : Text) → Keeps (Sound own q d₀) (db_call (attach_volume_record p v i dev))
      Keeps-attach_volume_record o dev =
          Keeps-db_call _ (λ d h. attach_volume_record-Sound own p q ne d₀ d h v i dev o)

  Keeps-create_sparse_qcow2 : (v : Uuid) (n : ℕ) → Keeps (Sound own q d₀) (create_sparse_qcow2 v n)
  unfolding create_sparse_qcow2
  Keeps-create_sparse_qcow2 v n = search keeps_rules

  Keeps-insert_volume :
      (v : Uuid) (name : Text) (n : ℕ) → Keeps (Sound own q d₀) (insert_volume p v name n)
  unfolding insert_volume
  Keeps-insert_volume v name n = record {
    at = λ w h. go (db_call f w) ((Keeps-db_call f keep).at w h);
  }
    where
      f : Statement Volume
      f = create_volume p v name n VolumeStatus.available

      keep : (d : Db) → Sound own q d₀ d → Kept (Sound own q d₀) (f d)
      keep d h = create_volume-Sound own p q ne d₀ d h v name n

      go :
          (r : Result Volume × World) → Sound own q d₀ r.1.db → Sound own q d₀ (rename_error r).1.db
      go (ok a, w) h = h
      go (err e, w) h = h

  pub Keeps-create :
      (v : Uuid) (name : Text) (n : ℕ) → Keeps (Sound own q d₀) (Volumes.create v p name n)
  unfolding Volumes.create
  Keeps-create v name n = Keeps-bind _ _ (Keeps-insert_volume v name n) λ vol.
      Keeps-bind _ _
        (Keeps-on_error _ _ (Keeps-create_sparse_qcow2 v n) (λ e.
          Keeps-bind _ _ (Keeps-ignore _ (Keeps-set_volume_error v))
            (λ _. Keeps-ignore _ (Keeps-request _ _))))
        (λ _. Keeps-pure vol)
