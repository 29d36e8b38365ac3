-- ===== src/Repository/Sound.antt =====
-- The invariant of the tables, and the rows that a project can see. `own` gives the project of each
-- instance and of each network; `q` is a project whose rows are compared with those of an earlier database.
pub mod Change
pub mod Rows
pub mod Volumes
pub mod FloatingIps
pub mod Destroy
pub mod Allocation
pub mod Slots
pub mod Create
pub mod Images
pub mod Projects
use casper_cloud.Prelude.{
  ◌≡◌, ◌≢◌, refl, ◌∙◌, [], ◌∷◌, Bool, true, false, not, ◌==◌, Option, none, some, List, arith, All,
  is_some, points_to, select,
}
use casper_cloud.Data.{
  Uuid, FloatingIpStatus, VolumeStatus, Project, Membership, Network, IpSlot, IpAllocation, Image,
  Instance, Task, Snapshot, Volume, FloatingIp, Db,
}
use casper_cloud.Repository.FloatingIps.{is_unallocated, is_active}

-- A row that names an instance belongs to the instance's project.
abbrev pub OwnedBy : (Uuid → Uuid) → Option Uuid → Option Uuid → Type 0
OwnedBy own none p = Unit
OwnedBy own (some i) none = ⊥
OwnedBy own (some i) (some p) = own i ≡ p

abbrev pub InstanceOk : (Uuid → Uuid) → Instance → Type 0
InstanceOk own r = own r.id ≡ r.project_id

abbrev pub TaskOk : (Uuid → Uuid) → Task → Type 0
TaskOk own r = OwnedBy own r.instance_id (some r.project_id)

abbrev pub SnapshotOk : (Uuid → Uuid) → Snapshot → Type 0
SnapshotOk own r = own r.instance_id ≡ r.project_id

-- An available volume has no instance, and a volume in use has one.
abbrev pub VolumeStatusOk : VolumeStatus → Bool → Type 0
VolumeStatusOk VolumeStatus.available b = b ≡ false
VolumeStatusOk VolumeStatus.in_use b = b ≡ true
VolumeStatusOk VolumeStatus.error b = Unit

abbrev pub VolumeOk : (Uuid → Uuid) → Volume → Type 0
VolumeOk own r =
    VolumeStatusOk r.status (is_some r.instance_id)
    × (is_some r.target_dev ≡ is_some r.instance_id)
    × OwnedBy own r.instance_id (some r.project_id)

-- A floating IP has a project unless it is unallocated, and an instance with its private address
-- exactly while it is active.
abbrev pub FloatingIpOk : (Uuid → Uuid) → FloatingIp → Type 0
FloatingIpOk own r =
    (is_some r.project_id ≡ not (is_unallocated r.status))
    × (is_some r.instance_id ≡ is_active r.status)
    × (is_some r.private_ip ≡ is_active r.status)
    × OwnedBy own r.instance_id r.project_id

-- The primary key of the table.
abbrev pub DistinctIds : List FloatingIp → Type 0
DistinctIds [] = Unit
DistinctIds (x ∷ xs) = All (λ r. r.id ≢ x.id) xs × DistinctIds xs

abbrev pub NetworkOk : (Uuid → Uuid) → Network → Type 0
NetworkOk own r = own r.id ≡ r.project_id

-- A slot is claimed by an instance of the project that has the network.
abbrev pub SlotOk : (Uuid → Uuid) → IpSlot → Type 0
SlotOk own r = OwnedBy own r.instance_id (some (own r.network_id))

abbrev pub AllocationOk : (Uuid → Uuid) → IpAllocation → Type 0
AllocationOk own r = own r.instance_id ≡ r.project_id

-- The rows of a table are well formed, and those of a view are the ones of another table.
pub record Part {A : Type 0} (P : A → Type 0) (view : A → Bool) (before rows : List A)
    : Type 0 where
  pub good : All P rows
  pub same : select view rows ≡ select view before

-- The rows of the tables are well formed, and those of project `q` are the rows that it has in `d₀`.
pub record SoundTables (own : Uuid → Uuid) (q : Uuid) (d₀ : Db) (is : List Instance)
    (ts : List Task) (ss : List Snapshot) (vs : List Volume) (fs : List FloatingIp)
    (ns : List Network) (sl : List IpSlot) (al : List IpAllocation) (im : List Image)
    (ps : List Project) (ms : List Membership) : Type 0 where
  pub instances : Part (InstanceOk own) (λ r. r.project_id == q) d₀.instances is
  pub tasks : Part (TaskOk own) (λ r. r.project_id == q) d₀.tasks ts
  pub snapshots : Part (SnapshotOk own) (λ r. r.project_id == q) d₀.snapshots ss
  pub volumes : Part (VolumeOk own) (λ r. r.project_id == q) d₀.volumes vs
  pub floating_ips : Part (FloatingIpOk own) (λ r. points_to r.project_id q) d₀.floating_ips fs
  pub networks : Part (NetworkOk own) (λ r. r.project_id == q) d₀.networks ns
  pub slots : Part (SlotOk own) (λ r. own r.network_id == q) d₀.ip_slots sl
  pub allocations : Part (AllocationOk own) (λ r. r.project_id == q) d₀.ip_allocations al
  pub images : select (λ r. r.project_id == q) im ≡ select (λ r. r.project_id == q) d₀.images
  pub projects : select (λ r. r.id == q) ps ≡ select (λ r. r.id == q) d₀.projects
  pub memberships :
      select (λ r. r.project_id == q) ms ≡ select (λ r. r.project_id == q) d₀.memberships
  pub distinct : DistinctIds fs

abbrev pub Sound : (Uuid → Uuid) → Uuid → Db → Db → Type 0
Sound own q d₀ d =
    SoundTables own q d₀ d.instances d.tasks d.snapshots d.volumes d.floating_ips d.networks
      d.ip_slots d.ip_allocations d.images d.projects d.memberships
