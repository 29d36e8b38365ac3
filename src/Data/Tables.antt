-- ===== src/Data/Tables.antt =====
-- The database that the API and the worker share: the tables of migrations/*.sql.
use casper_cloud.Prelude.{List}
use casper_cloud.Data.States.{Uuid, Seconds}
use casper_cloud.Data.Rows.{
  User, Project, Membership, Network, IpSlot, IpAllocation, Image, Instance, Task, Snapshot, Volume,
  FloatingIp,
}

-- `next_id` is what `gen_random_uuid()` gives next, and `now` what `now()` gives.
pub record Db : Type 0 where
  pub users : List User
  pub projects : List Project
  pub memberships : List Membership
  pub networks : List Network
  pub ip_slots : List IpSlot
  pub ip_allocations : List IpAllocation
  pub images : List Image
  pub instances : List Instance
  pub tasks : List Task
  pub snapshots : List Snapshot
  pub volumes : List Volume
  pub floating_ips : List FloatingIp
  pub next_id : Uuid
  pub now : Seconds
