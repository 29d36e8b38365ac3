-- ===== src/Repository/Sound/Destroy.antt =====
-- The end of an instance keeps the tables sound.
use casper_cloud.Prelude.{
  ◌≡◌, refl, ◌∙◌, ◌≢◌, Bool, true, false, ◌==◌, none, List, [], ◌∷◌, arith, All, All-update,
  All-delete, update, delete, select-delete, points_to, select, exists, select_row-exists,
  Bool-cases, inl, inr,
}
use casper_cloud.Data.{Uuid, TaskStatus, Db}
use casper_cloud.Exec.Keeps.{Kept}
use casper_cloud.Repository.Kept.{Kept-and_then}
use casper_cloud.Repository.Instances.{is_instance}
use casper_cloud.Repository.Tasks.{update_task_status}
use casper_cloud.Repository.FloatingIps.{clear_binding}
use casper_cloud.Repository.Destroy.{
  unset_task, without_instance, delete_instance, finalize_instance_destroy,
}
use casper_cloud.Repository.Sound.{
  Sound, InstanceOk, TaskOk, SnapshotOk, FloatingIpOk, SlotOk, AllocationOk,
}
use casper_cloud.Repository.Sound.Change.{with_floating_ips, DistinctIds-update}
use casper_cloud.Repository.Sound.Rows.{found-owner, update_task_status-Sound}

-- A property of rows, with what a row of the list is known by.
module _ {ℓ} {A : Type ℓ} where
  -- An UPDATE of rows that all belong elsewhere does not change a view.
  select-update-All {κ} :
      (P : A → Type κ) (q p : A → Bool) (f : A → A)
      → ((a : A) → P a → p a ≡ true → (q a ≡ false) × (q (f a) ≡ false))
      → (xs : List A) → All P xs
      → select q (update p f xs) ≡ select q xs
  unfolding select update
  select-update-All P q p f h [] v = refl
  select-update-All P q p f h (x ∷ xs) v =
      ground (arith, h x v.0, select-update-All P q p f h xs v.1)

  select-delete-All {κ} :
      (P : A → Type κ) (q p : A → Bool)
      → ((a : A) → P a → p a ≡ true → q a ≡ false)
      → (xs : List A) → All P xs
      → select q (delete p xs) ≡ select q xs
  unfolding select delete
  select-delete-All P q p h [] v = refl
  select-delete-All P q p h (x ∷ xs) v = ground (arith, h x v.0, select-delete-All P q p h xs v.1)

module _ (own : Uuid → Uuid) (p q : Uuid) (ne : p ≢ q) (i : Uuid) (o : own i ≡ p) (d₀ d : Db)
    (h : Sound own q d₀ d) where
  released-Sound : Sound own q d₀ (record d {
    floating_ips = update (λ r. points_to r.instance_id i) (clear_binding d) d.floating_ips;
  })
  released-Sound =
      with_floating_ips own q d₀ d h _
        (All-update (FloatingIpOk own) _ _ (λ a e k. ground arith) d.floating_ips
          h.floating_ips.good)
        (DistinctIds-update _ (clear_binding d) (λ r. refl) d.floating_ips h.distinct)
        (select-update-All (FloatingIpOk own) (λ r. points_to r.project_id q)
          (λ r. points_to r.instance_id i) (clear_binding d) (λ a k e. ground arith) d.floating_ips
          h.floating_ips.good)

  without_instance-Sound : Sound own q d₀ (without_instance p i d)
  without_instance-Sound = record {
    instances = record {
      good = All-delete (InstanceOk own) (is_instance p i) d.instances h.instances.good;
      same =
          select-delete (λ r. r.project_id == q) (is_instance p i) (λ a e. ground arith) d.instances
          ∙ h.instances.same;
    };
    tasks = record {
      good =
          All-update (TaskOk own) (λ r. points_to r.instance_id i) (unset_task d) (λ a e k. tt)
            d.tasks h.tasks.good;
      same =
          select-update-All (TaskOk own) (λ r. r.project_id == q) (λ r. points_to r.instance_id i)
            (unset_task d) (λ a k e. ground arith) d.tasks h.tasks.good
          ∙ h.tasks.same;
    };
    snapshots = record {
      good = All-delete (SnapshotOk own) (λ r. r.instance_id == i) d.snapshots h.snapshots.good;
      same =
          select-delete-All (SnapshotOk own) (λ r. r.project_id == q) (λ r. r.instance_id == i)
            (λ a k e. ground arith) d.snapshots h.snapshots.good
          ∙ h.snapshots.same;
    };
    volumes = h.volumes;
    floating_ips = h.floating_ips;
    networks = h.networks;
    slots = record {
      good =
          All-update (SlotOk own) (λ r. points_to r.instance_id i)
            (λ r. record r { instance_id = none }) (λ a e k. tt) d.ip_slots h.slots.good;
      same =
          select-update-All (SlotOk own) (λ r. own r.network_id == q)
            (λ r. points_to r.instance_id i) (λ r. record r { instance_id = none })
            (λ a k e. ground arith) d.ip_slots h.slots.good
          ∙ h.slots.same;
    };
    allocations = record {
      good =
          All-delete (AllocationOk own) (λ r. r.instance_id == i) d.ip_allocations
            h.allocations.good;
      same =
          select-delete-All (AllocationOk own) (λ r. r.project_id == q) (λ r. r.instance_id == i)
            (λ a k e. ground arith) d.ip_allocations h.allocations.good
          ∙ h.allocations.same;
    };
    images = h.images;
    projects = h.projects;
    memberships = h.memberships;
    distinct = h.distinct;
  }

-- `finalize_instance_destroy` finds no instance of another project, and then changes nothing.
module _ (own : Uuid → Uuid) (p q : Uuid) (ne : p ≢ q) (d₀ : Db) where
  delete_instance-Sound :
      (i : Uuid) (d : Db) → Sound own q d₀ d → Kept (Sound own q d₀) (delete_instance p i d)
  unfolding delete_instance
  delete_instance-Sound i d h = elim (Bool-cases (exists (is_instance p i) d.instances)) [
    | inl e ↦
        let (r, found) = select_row-exists (is_instance p i) d.instances e in
        let o = found-owner own p q ne d₀ d h i r found in
        rw e (ground (arith, without_instance-Sound own p q ne i o d₀ d h))
    | inr e ↦ rw e tt
  ]

  release_then_delete-Sound :
      (i : Uuid) (d : Db)
      → Sound own q d₀ d
      → Kept (Sound own q d₀) (
          delete_instance p i (record d {
            floating_ips = update (λ r. points_to r.instance_id i) (clear_binding d) d.floating_ips;
          }))
  unfolding delete_instance
  release_then_delete-Sound i d h = elim (Bool-cases (exists (is_instance p i) d.instances)) [
    | inl e ↦
        let (r, found) = select_row-exists (is_instance p i) d.instances e in
        let o = found-owner own p q ne d₀ d h i r found in
        let d' : Db = record d {
          floating_ips = update (λ r. points_to r.instance_id i) (clear_binding d) d.floating_ips;
        } in
        delete_instance-Sound i d' (released-Sound own p q ne i o d₀ d h)
    | inr e ↦ rw e tt
  ]

  pub finalize_instance_destroy-Sound :
      (t i : Uuid) (d : Db)
      → Sound own q d₀ d
      → Kept (Sound own q d₀) (finalize_instance_destroy p t i d)
  unfolding finalize_instance_destroy
  finalize_instance_destroy-Sound t i d h =
      Kept-and_then (Sound own q d₀) (update_task_status p t TaskStatus.succeeded none d)
        (λ _ d₁. delete_instance p i (record d₁ {
          floating_ips = update (λ r. points_to r.instance_id i) (clear_binding d₁) d₁.floating_ips;
        }))
        (update_task_status-Sound own p q ne d₀ d h t TaskStatus.succeeded none)
        (λ _ d₁ h₁. release_then_delete-Sound i d₁ h₁)
