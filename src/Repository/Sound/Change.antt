-- ===== src/Repository/Sound/Change.antt =====
-- One table of sound tables changes.
use casper_cloud.Prelude.{
  ◌≡◌, ◌≢◌, ◌∙◌, refl, sym, subst, Bool, true, false, if◌then◌else◌, ◌==◌, List, [], ◌∷◌, All,
  All-update, update, points_to, select,
}
use casper_cloud.Data.{
  Uuid, Project, Membership, Network, IpSlot, IpAllocation, Image, Instance, Task, Snapshot, Volume,
  FloatingIp, Db,
}
use casper_cloud.Repository.Sound.{
  Sound, InstanceOk, TaskOk, SnapshotOk, VolumeOk, FloatingIpOk, NetworkOk, SlotOk, AllocationOk,
  DistinctIds,
}

-- An UPDATE that keeps the ids keeps them distinct.
pub DistinctIds-update :
    (g : FloatingIp → Bool) (f : FloatingIp → FloatingIp)
    → ((r : FloatingIp) → (f r).id ≡ r.id)
    → (xs : List FloatingIp) → DistinctIds xs
    → DistinctIds (update g f xs)
unfolding update
DistinctIds-update g f same [] u = tt
DistinctIds-update g f same (x ∷ xs) u = (
  subst (λ i. All (λ r. r.id ≢ i) (update g f xs)) (sym (kept (g x)))
      (All-update (λ r. r.id ≢ x.id) g f (λ r t ne e. ne (sym (same r) ∙ e)) xs u.0),
  DistinctIds-update g f same xs u.1,
)
  where
    kept : (b : Bool) → (if b then f x else x).id ≡ x.id
    kept true = same x
    kept false = refl

module _ (own : Uuid → Uuid) (q : Uuid) (d₀ d : Db) (h : Sound own q d₀ d) where
  pub with_instances :
      (xs : List Instance)
      → All (InstanceOk own) xs
      → select (λ r. r.project_id == q) xs ≡ select (λ r. r.project_id == q) d.instances
      → Sound own q d₀ (record d { instances = xs })
  with_instances xs k e = record {
    instances = record { good = k; same = e ∙ h.instances.same };
    tasks = h.tasks;
    snapshots = h.snapshots;
    volumes = h.volumes;
    floating_ips = h.floating_ips;
    networks = h.networks;
    slots = h.slots;
    allocations = h.allocations;
    images = h.images;
    projects = h.projects;
    memberships = h.memberships;
    distinct = h.distinct;
  }

  pub with_tasks :
      (xs : List Task)
      → All (TaskOk own) xs
      → select (λ r. r.project_id == q) xs ≡ select (λ r. r.project_id == q) d.tasks
      → Sound own q d₀ (record d { tasks = xs })
  with_tasks xs k e = record {
    instances = h.instances;
    tasks = record { good = k; same = e ∙ h.tasks.same };
    snapshots = h.snapshots;
    volumes = h.volumes;
    floating_ips = h.floating_ips;
    networks = h.networks;
    slots = h.slots;
    allocations = h.allocations;
    images = h.images;
    projects = h.projects;
    memberships = h.memberships;
    distinct = h.distinct;
  }

  pub with_snapshots :
      (xs : List Snapshot)
      → All (SnapshotOk own) xs
      → select (λ r. r.project_id == q) xs ≡ select (λ r. r.project_id == q) d.snapshots
      → Sound own q d₀ (record d { snapshots = xs })
  with_snapshots xs k e = record {
    instances = h.instances;
    tasks = h.tasks;
    snapshots = record { good = k; same = e ∙ h.snapshots.same };
    volumes = h.volumes;
    floating_ips = h.floating_ips;
    networks = h.networks;
    slots = h.slots;
    allocations = h.allocations;
    images = h.images;
    projects = h.projects;
    memberships = h.memberships;
    distinct = h.distinct;
  }

  pub with_volumes :
      (xs : List Volume)
      → All (VolumeOk own) xs
      → select (λ r. r.project_id == q) xs ≡ select (λ r. r.project_id == q) d.volumes
      → Sound own q d₀ (record d { volumes = xs })
  with_volumes xs k e = record {
    instances = h.instances;
    tasks = h.tasks;
    snapshots = h.snapshots;
    volumes = record { good = k; same = e ∙ h.volumes.same };
    floating_ips = h.floating_ips;
    networks = h.networks;
    slots = h.slots;
    allocations = h.allocations;
    images = h.images;
    projects = h.projects;
    memberships = h.memberships;
    distinct = h.distinct;
  }

  pub with_floating_ips :
      (xs : List FloatingIp)
      → All (FloatingIpOk own) xs
      → DistinctIds xs
      → select (λ r. points_to r.project_id q) xs
        ≡ select (λ r. points_to r.project_id q) d.floating_ips
      → Sound own q d₀ (record d { floating_ips = xs })
  with_floating_ips xs k u e = record {
    instances = h.instances;
    tasks = h.tasks;
    snapshots = h.snapshots;
    volumes = h.volumes;
    floating_ips = record { good = k; same = e ∙ h.floating_ips.same };
    networks = h.networks;
    slots = h.slots;
    allocations = h.allocations;
    images = h.images;
    projects = h.projects;
    memberships = h.memberships;
    distinct = u;
  }

  pub with_networks :
      (xs : List Network)
      → All (NetworkOk own) xs
      → select (λ r. r.project_id == q) xs ≡ select (λ r. r.project_id == q) d.networks
      → Sound own q d₀ (record d { networks = xs })
  with_networks xs k e = record {
    instances = h.instances;
    tasks = h.tasks;
    snapshots = h.snapshots;
    volumes = h.volumes;
    floating_ips = h.floating_ips;
    networks = record { good = k; same = e ∙ h.networks.same };
    slots = h.slots;
    allocations = h.allocations;
    images = h.images;
    projects = h.projects;
    memberships = h.memberships;
    distinct = h.distinct;
  }

  pub with_slots :
      (xs : List IpSlot)
      → All (SlotOk own) xs
      → select (λ r. own r.network_id == q) xs ≡ select (λ r. own r.network_id == q) d.ip_slots
      → Sound own q d₀ (record d { ip_slots = xs })
  with_slots xs k e = record {
    instances = h.instances;
    tasks = h.tasks;
    snapshots = h.snapshots;
    volumes = h.volumes;
    floating_ips = h.floating_ips;
    networks = h.networks;
    slots = record { good = k; same = e ∙ h.slots.same };
    allocations = h.allocations;
    images = h.images;
    projects = h.projects;
    memberships = h.memberships;
    distinct = h.distinct;
  }

  pub with_allocations :
      (xs : List IpAllocation)
      → All (AllocationOk own) xs
      → select (λ r. r.project_id == q) xs ≡ select (λ r. r.project_id == q) d.ip_allocations
      → Sound own q d₀ (record d { ip_allocations = xs })
  with_allocations xs k e = record {
    instances = h.instances;
    tasks = h.tasks;
    snapshots = h.snapshots;
    volumes = h.volumes;
    floating_ips = h.floating_ips;
    networks = h.networks;
    slots = h.slots;
    allocations = record { good = k; same = e ∙ h.allocations.same };
    images = h.images;
    projects = h.projects;
    memberships = h.memberships;
    distinct = h.distinct;
  }

  pub with_images :
      (xs : List Image)
      → select (λ r. r.project_id == q) xs ≡ select (λ r. r.project_id == q) d.images
      → Sound own q d₀ (record d { images = xs })
  with_images xs e = record {
    instances = h.instances;
    tasks = h.tasks;
    snapshots = h.snapshots;
    volumes = h.volumes;
    floating_ips = h.floating_ips;
    networks = h.networks;
    slots = h.slots;
    allocations = h.allocations;
    images = e ∙ h.images;
    projects = h.projects;
    memberships = h.memberships;
    distinct = h.distinct;
  }

  pub with_projects :
      (xs : List Project)
      → select (λ r. r.id == q) xs ≡ select (λ r. r.id == q) d.projects
      → Sound own q d₀ (record d { projects = xs })
  with_projects xs e = record {
    instances = h.instances;
    tasks = h.tasks;
    snapshots = h.snapshots;
    volumes = h.volumes;
    floating_ips = h.floating_ips;
    networks = h.networks;
    slots = h.slots;
    allocations = h.allocations;
    images = h.images;
    projects = e ∙ h.projects;
    memberships = h.memberships;
    distinct = h.distinct;
  }

  pub with_memberships :
      (xs : List Membership)
      → select (λ r. r.project_id == q) xs ≡ select (λ r. r.project_id == q) d.memberships
      → Sound own q d₀ (record d { memberships = xs })
  with_memberships xs e = record {
    instances = h.instances;
    tasks = h.tasks;
    snapshots = h.snapshots;
    volumes = h.volumes;
    floating_ips = h.floating_ips;
    networks = h.networks;
    slots = h.slots;
    allocations = h.allocations;
    images = h.images;
    projects = h.projects;
    memberships = e ∙ h.memberships;
    distinct = h.distinct;
  }
