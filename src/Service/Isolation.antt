-- ===== src/Service/Isolation.antt =====
-- What one project's calls do to the tables as a whole and to another project.
use casper_cloud.Prelude.{
  ◌≢◌, ◌≡◌, refl, ◌==◌, ◌&&◌, suc, Bool, true, List, [], ◌∷◌, All, arith, select, select-view,
  exists, points_to, Bool-cases, inl, inr,
}
use casper_cloud.Data.{
  Uuid, Project, Membership, Network, IpSlot, IpAllocation, Image, Instance, Task, Snapshot, Volume,
  FloatingIp, Db,
}
use casper_cloud.Exec.{World, Exec, pure, ◌>>◌}
use casper_cloud.Exec.Keeps.{Keeps, Keeps-bind, Keeps-pure}
use casper_cloud.Repository.Sound.{
  Sound, InstanceOk, TaskOk, SnapshotOk, VolumeOk, FloatingIpOk, NetworkOk, SlotOk, AllocationOk,
  DistinctIds,
}
use casper_cloud.Service.Calls.{Call, perform}
use casper_cloud.Service.Lifecycle.{handle_start_task, handle_stop_task, handle_reboot_task}
use casper_cloud.Service.Sound.Instances.{
  Keeps-handle_simple_lifecycle, Keeps-handle_destroy_task, Keeps-handle_create_task,
  Keeps-request_instance_action,
}
use casper_cloud.Service.Sound.Snapshots.{
  Keeps-handle_snapshot_create_task, Keeps-handle_snapshot_revert_task,
  Keeps-request_snapshot_revert, Keeps-request_snapshot_create,
}
use casper_cloud.Service.Sound.FloatingIps.{
  Keeps-request_associate, Keeps-request_disassociate, Keeps-handle_associate_task,
  Keeps-handle_disassociate_task, Keeps-allocate,
}
use casper_cloud.Service.Sound.Create.{Keeps-create_async}
use casper_cloud.Service.Sound.Volumes.{Keeps-create, Keeps-delete, Keeps-attach, Keeps-detach}

-- Every row is well formed, and the ids of floating IPs are distinct; `own` gives the project of each
-- instance and of each network.
pub record WellFormed (own : Uuid → Uuid) (d : Db) : Type 0 where
  pub instances : All (InstanceOk own) d.instances
  pub tasks : All (TaskOk own) d.tasks
  pub snapshots : All (SnapshotOk own) d.snapshots
  pub volumes : All (VolumeOk own) d.volumes
  pub floating_ips : All (FloatingIpOk own) d.floating_ips
  pub networks : All (NetworkOk own) d.networks
  pub ip_slots : All (SlotOk own) d.ip_slots
  pub ip_allocations : All (AllocationOk own) d.ip_allocations
  pub distinct : DistinctIds d.floating_ips

-- The slot is one of a network of the project.
abbrev pub is_slot_of : Uuid → List Network → IpSlot → Bool
is_slot_of q ns r = exists (λ (n : Network). n.id == r.network_id && n.project_id == q) ns

-- Project `q` has the same rows in both, in the same order: of each table that has a project's rows,
-- which are all but the users.
pub record SameRows (q : Uuid) (d d' : Db) : Type 0 where
  pub instances :
      select (λ (r : Instance). r.project_id == q) d'.instances
      ≡ select (λ (r : Instance). r.project_id == q) d.instances
  pub tasks :
      select (λ (r : Task). r.project_id == q) d'.tasks
      ≡ select (λ (r : Task). r.project_id == q) d.tasks
  pub snapshots :
      select (λ (r : Snapshot). r.project_id == q) d'.snapshots
      ≡ select (λ (r : Snapshot). r.project_id == q) d.snapshots
  pub volumes :
      select (λ (r : Volume). r.project_id == q) d'.volumes
      ≡ select (λ (r : Volume). r.project_id == q) d.volumes
  pub floating_ips :
      select (λ (r : FloatingIp). points_to r.project_id q) d'.floating_ips
      ≡ select (λ (r : FloatingIp). points_to r.project_id q) d.floating_ips
  pub networks :
      select (λ (r : Network). r.project_id == q) d'.networks
      ≡ select (λ (r : Network). r.project_id == q) d.networks
  pub ip_slots :
      select (is_slot_of q d.networks) d'.ip_slots ≡ select (is_slot_of q d.networks) d.ip_slots
  pub ip_allocations :
      select (λ (r : IpAllocation). r.project_id == q) d'.ip_allocations
      ≡ select (λ (r : IpAllocation). r.project_id == q) d.ip_allocations
  pub images :
      select (λ (r : Image). r.project_id == q) d'.images
      ≡ select (λ (r : Image). r.project_id == q) d.images
  pub projects :
      select (λ (r : Project). r.id == q) d'.projects
      ≡ select (λ (r : Project). r.id == q) d.projects
  pub memberships :
      select (λ (r : Membership). r.project_id == q) d'.memberships
      ≡ select (λ (r : Membership). r.project_id == q) d.memberships

Sound-refl : (own : Uuid → Uuid) (q : Uuid) (d : Db) → WellFormed own d → Sound own q d d
Sound-refl own q d v = record {
  instances = record { good = v.instances; same = refl };
  tasks = record { good = v.tasks; same = refl };
  snapshots = record { good = v.snapshots; same = refl };
  volumes = record { good = v.volumes; same = refl };
  floating_ips = record { good = v.floating_ips; same = refl };
  networks = record { good = v.networks; same = refl };
  slots = record { good = v.ip_slots; same = refl };
  allocations = record { good = v.ip_allocations; same = refl };
  images = refl;
  projects = refl;
  memberships = refl;
  distinct = v.distinct;
}

-- The owner of a network in the table is its project.
is_slot_of-own :
    (own : Uuid → Uuid) (q : Uuid) (r : IpSlot) (ns : List Network)
    → All (NetworkOk own) ns
    → is_slot_of q ns r ≡ true
    → (own r.network_id == q) ≡ true
unfolding exists
is_slot_of-own own q r [] v e = ground arith
is_slot_of-own own q r (n ∷ ns) v e =
    elim (Bool-cases (n.id == r.network_id && n.project_id == q)) [
      | inl t ↦ ground (arith, v.0)
      | inr t ↦ is_slot_of-own own q r ns v.1 (rw t at e)
    ]

of_Sound :
    (own : Uuid → Uuid) (q : Uuid) (d₀ d : Db)
    → All (NetworkOk own) d₀.networks
    → Sound own q d₀ d
    → WellFormed own d × SameRows q d₀ d
of_Sound own q d₀ d v h = (
  record {
    instances = h.instances.good;
    tasks = h.tasks.good;
    snapshots = h.snapshots.good;
    volumes = h.volumes.good;
    floating_ips = h.floating_ips.good;
    networks = h.networks.good;
    ip_slots = h.slots.good;
    ip_allocations = h.allocations.good;
    distinct = h.distinct;
  },
  record {
    instances = h.instances.same;
    tasks = h.tasks.same;
    snapshots = h.snapshots.same;
    volumes = h.volumes.same;
    floating_ips = h.floating_ips.same;
    networks = h.networks.same;
    ip_slots =
        select-view (λ r. own r.network_id == q) (is_slot_of q d₀.networks)
          (λ r. is_slot_of-own own q r d₀.networks v) d.ip_slots d₀.ip_slots h.slots.same;
    ip_allocations = h.allocations.same;
    images = h.images;
    projects = h.projects;
    memberships = h.memberships;
  },
)

pub isolated_world :
    (own : Uuid → Uuid) (q : Uuid) (d d' : Db)
    → (Sound own q d d → Sound own q d d')
    → WellFormed own d
    → WellFormed own d' × SameRows q d d'
isolated_world own q d d' k v = of_Sound own q d d' v.networks (k (Sound-refl own q d v))

-- A run that keeps the tables sound for `q` leaves them well formed, and the rows of `q` as they were.
pub isolated :
    {A : Type 0} (own : Uuid → Uuid) (q : Uuid) (m : Exec A) (w : World)
    → Keeps (Sound own q w.db) m
    → WellFormed own w.db
    → WellFormed own (m w).1.db × SameRows q w.db (m w).1.db
isolated own q m w k v = of_Sound own q w.db _ v.networks (k.at w (Sound-refl own q w.db v))

-- The id of a new instance is one of the project that asks for it.
abbrev pub NewId : (Uuid → Uuid) → Uuid → Call → Type 0
NewId own p (Call.create_instance net locked i mac input) = own i ≡ p
NewId own p _ = Unit

module _ (own : Uuid → Uuid) (p q : Uuid) (ne : p ≢ q) (d₀ : Db) where
  Keeps-void :
      {A : Type 0} (m : Exec A) → Keeps (Sound own q d₀) m → Keeps (Sound own q d₀) (m >> pure tt)
  Keeps-void m k = Keeps-bind m (λ _. pure tt) k (λ _. Keeps-pure tt)

  Keeps-perform : (c : Call) → NewId own p c → Keeps (Sound own q d₀) (perform p c)
  unfolding perform handle_start_task handle_stop_task handle_reboot_task
  Keeps-perform (Call.start_task t i) new = Keeps-handle_simple_lifecycle own p q ne d₀ t i _ _
  Keeps-perform (Call.stop_task t i) new = Keeps-handle_simple_lifecycle own p q ne d₀ t i _ _
  Keeps-perform (Call.reboot_task t i) new = Keeps-handle_simple_lifecycle own p q ne d₀ t i _ _
  Keeps-perform (Call.destroy_task s t i) new = Keeps-handle_destroy_task own p q ne d₀ s t i
  Keeps-perform (Call.create_task s r t i) new = Keeps-handle_create_task own p q ne d₀ s r t i
  Keeps-perform (Call.request_action i a) new =
      Keeps-void _ (Keeps-request_instance_action own p q ne d₀ i a)
  Keeps-perform (Call.request_create_snapshot s i n) new =
      Keeps-void _ (Keeps-request_snapshot_create own p q ne d₀ s i n)
  Keeps-perform (Call.request_revert_snapshot i s) new =
      Keeps-void _ (Keeps-request_snapshot_revert own p q ne d₀ i s)
  Keeps-perform (Call.create_snapshot_task t i s prior) new =
      Keeps-handle_snapshot_create_task own p q ne d₀ t i s prior
  Keeps-perform (Call.revert_snapshot_task t i s prior) new =
      Keeps-handle_snapshot_revert_task own p q ne d₀ t i s prior
  Keeps-perform (Call.associate f i) new = Keeps-void _ (Keeps-request_associate own p q ne d₀ f i)
  Keeps-perform (Call.disassociate f) new =
      Keeps-void _ (Keeps-request_disassociate own p q ne d₀ f)
  Keeps-perform (Call.associate_task g t i f) new =
      Keeps-handle_associate_task own p q ne d₀ g t i f
  Keeps-perform (Call.disassociate_task g t a b) new =
      Keeps-handle_disassociate_task own p q ne d₀ g t a b
  Keeps-perform (Call.create_volume v n s) new = Keeps-void _ (Keeps-create own p q ne d₀ v n s)
  Keeps-perform (Call.delete_volume v) new = Keeps-delete own p q ne d₀ v
  Keeps-perform (Call.attach_volume target i v) new = Keeps-attach own p q ne d₀ target i v
  Keeps-perform (Call.detach_volume i v) new = Keeps-detach own p q ne d₀ i v
  Keeps-perform (Call.create_instance net locked i mac input) new =
      Keeps-void _ (Keeps-create_async own p q ne d₀ net locked i mac input new)
  Keeps-perform (Call.allocate_floating_ip locked) new =
      Keeps-void _ (Keeps-allocate own p q ne d₀ locked)

-- From well-formed tables, any call of a project, whichever of its database, hypervisor, host and
-- broker calls fail, and whether it returns or fails, leaves the tables well formed, if the id of a
-- new instance is one of the project: a floating IP has a project unless it is unallocated, and an
-- instance and a private address exactly while it is active; ids of floating IPs are distinct; a
-- volume has no instance while it is available, has one while it is in use, and a target exactly while
-- it has an instance; a claimed slot is of an instance of the project that has the network; and each
-- instance and network, and each task, snapshot, volume, floating IP and allocation that names an
-- instance, is of the project that owns it.
pub perform-WellFormed :
    (own : Uuid → Uuid) (p : Uuid) (c : Call) (w : World)
    → NewId own p c
    → WellFormed own w.db
    → WellFormed own (perform p c w).1.db
perform-WellFormed own p c w new v =
    (isolated own (suc p) (perform p c) w (Keeps-perform own p (suc p) (omega arith) w.db c new)
      v).0
