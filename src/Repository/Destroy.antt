-- ===== src/Repository/Destroy.antt =====
-- The end of an instance: internal/repository/state_sync.go, with the foreign keys of migrations/.
use casper_cloud.Prelude.{◌==◌, ◌||◌, Bool, none, points_to, update, delete, exists, if◌then◌else◌}
use casper_cloud.Data.{
  Uuid, TaskStatus, not_found, constraint_violation, IpSlot, IpAllocation, Task, Snapshot, Volume,
  FloatingIp, Db,
}
use casper_cloud.Exec.{ok, err}
use casper_cloud.Repository.Statement.{Statement, Done, and_then}
use casper_cloud.Repository.Instances.{is_instance}
use casper_cloud.Repository.Tasks.{update_task_status}
use casper_cloud.Repository.FloatingIps.{clear_binding}

-- ON DELETE RESTRICT of `volumes.instance_id` and `floating_ips.instance_id`.
abbrev pub is_restricted : Uuid → Db → Bool
is_restricted i d =
    exists (λ (r : Volume). points_to r.instance_id i) d.volumes
    || exists (λ (r : FloatingIp). points_to r.instance_id i) d.floating_ips

-- ON DELETE SET NULL, and the trigger `trg_tasks_updated_at`.
abbrev pub unset_task : Db → Task → Task
unset_task d r = record r { instance_id = none; updated_at = d.now }

-- ON DELETE SET NULL of the tasks and the slots, and CASCADE of the snapshots and the allocations.
abbrev pub without_instance : Uuid → Uuid → Db → Db
without_instance p i d = record d {
  instances = delete (is_instance p i) d.instances;
  tasks = update (λ (r : Task). points_to r.instance_id i) (unset_task d) d.tasks;
  ip_slots =
      update (λ (r : IpSlot). points_to r.instance_id i) (λ r. record r { instance_id = none })
        d.ip_slots;
  snapshots = delete (λ (r : Snapshot). r.instance_id == i) d.snapshots;
  ip_allocations = delete (λ (r : IpAllocation). r.instance_id == i) d.ip_allocations;
}

-- `DeleteInstance` and `DeleteInstanceTx`.
unfoldable pub delete_instance : Uuid → Uuid → Statement Done
delete_instance p i d =
    if exists (is_instance p i) d.instances
    then (if is_restricted i d then err constraint_violation else ok (tt, without_instance p i d))
    else err not_found

-- `UPDATE floating_ips … WHERE instance_id = $1`
unfoldable pub release_floating_ips : Uuid → Statement Done
release_floating_ips i d = ok (
  tt,
  record d {
    floating_ips = update (λ r. points_to r.instance_id i) (clear_binding d) d.floating_ips;
  },
)

unfoldable pub finalize_instance_destroy : Uuid → Uuid → Uuid → Statement Done
unfolding update_task_status release_floating_ips delete_instance
finalize_instance_destroy p t i d =
    and_then (update_task_status p t TaskStatus.succeeded none d)
      λ _ d₁. and_then (release_floating_ips i d₁) λ _. delete_instance p i
