-- ===== src/Tests/Statements.antt =====
-- The statements at the small database.
use casper_cloud.Prelude.{◌≡◌, refl, true, false, none, some, codes, Text, select_row}
use casper_cloud.Prelude.{[], ◌∷◌, ℕ, Bool, select}
use casper_cloud.Prelude.{exists, count}
use casper_cloud.Service.Outcomes.Stale.{
  Rowwise, Counts, ChangedIf, TimedOut, Stuck, failed_at, error_at,
  reconcile_stale_running_tasks_done,
}
use casper_cloud.Repository.Tasks.{is_stale, has_timed_out, reconcile_stale_running_tasks}
use casper_cloud.Data.{TaskStatus, FloatingIp, FloatingIpStatus, Uuid, InstanceState, Db}
use casper_cloud.Exec.{Result, ok, err}
use casper_cloud.Repository.Snapshots.{begin_snapshot_create, begin_snapshot_revert, is_lockable}
use casper_cloud.Repository.FloatingIps.{
  can_bind, is_bindable, bind_to, get_floating_ip_for_project, try_associate_floating_ip,
  take_disassociate_floating_ip,
}
use casper_cloud.Service.Outcomes.Steps.{InstanceIs}
use casper_cloud.Service.Outcomes.Locks.{
  Locked, begin_snapshot_create-Locked, begin_snapshot_revert-Locked, action_allowed-snapshotting,
}
use casper_cloud.Service.Outcomes.Bindings.{bound, unbound, freed, try_associate-take_disassociate}
use casper_cloud.Service.Actions.{action_allowed}
use casper_cloud.Tests.Fixtures.{web, idle, start_web, address, small}

abbrev db_of : Result (InstanceState × Db) → Db
db_of (ok (s, d)) = d
db_of (err e) = small

abbrev locked : Db
locked = db_of (begin_snapshot_create 1 10 61 (codes "nightly") small)

snapshot_begins :
    begin_snapshot_create 1 10 61 (codes "nightly") small ≡ ok (InstanceState.running, locked)
unfolding begin_snapshot_create select_row casper_cloud.Data.eq_state casper_cloud.Prelude.exists
snapshot_begins = refl

begin_snapshot_create-Locked_example :
    InstanceIs 1 10 InstanceState.running small
    × (is_lockable InstanceState.running ≡ true)
    × Locked 1 10 locked
begin_snapshot_create-Locked_example =
    begin_snapshot_create-Locked 1 10 61 (codes "nightly") InstanceState.running small locked
      snapshot_begins

abbrev reverting : Db
reverting = db_of (begin_snapshot_revert 2 20 small)

revert_begins : begin_snapshot_revert 2 20 small ≡ ok (InstanceState.stopped, reverting)
unfolding begin_snapshot_revert select_row casper_cloud.Data.eq_state casper_cloud.Prelude.exists
revert_begins = refl

begin_snapshot_revert-Locked_example :
    InstanceIs 2 20 InstanceState.stopped small
    × (is_lockable InstanceState.stopped ≡ true)
    × Locked 2 20 reverting
begin_snapshot_revert-Locked_example =
    begin_snapshot_revert-Locked 2 20 InstanceState.stopped small reverting revert_begins

action_allowed-snapshotting_example :
    action_allowed InstanceState.snapshotting (codes "destroy") ≡ false
action_allowed-snapshotting_example = action_allowed-snapshotting (codes "destroy")

address_found : get_floating_ip_for_project 1 50 small ≡ ok (address, small)
unfolding get_floating_ip_for_project select_row
address_found = refl

address_free : is_bindable 1 50 address ≡ true
address_free = refl

web_binds : select_row (can_bind 1 10) small.instances ≡ some web
unfolding select_row casper_cloud.Data.eq_state
web_binds = refl

try_associate-take_disassociate_example :
    (try_associate_floating_ip 1 50 10 small ≡ ok (bind_to web small address, bound 1 50 web small))
    × (get_floating_ip_for_project 1 50 (bound 1 50 web small)
        ≡ ok (bind_to web small address, bound 1 50 web small))
    × (take_disassociate_floating_ip 1 50 (bound 1 50 web small)
        ≡ ok (record { public_ip = 900; private_ip = 77 }, unbound 1 50 (bound 1 50 web small)))
    × (get_floating_ip_for_project 1 50 (unbound 1 50 (bound 1 50 web small))
        ≡ ok (freed address small, unbound 1 50 (bound 1 50 web small)))
try_associate-take_disassociate_example =
    try_associate-take_disassociate 1 50 10 77 web address small address_found address_free
      web_binds refl

abbrev spare : FloatingIp
spare = record address {
  id = 51;
  project_id = none;
  public_ip = 890;
  status = FloatingIpStatus.unallocated;
}

abbrev pool : Db
pool = record small {
  floating_ips = record spare { id = 52; public_ip = 899 } ∷ address ∷ spare ∷ [];
}

abbrev none_locked : Uuid → Bool
none_locked f = false

abbrev granted : FloatingIp
granted = record spare {
  project_id = some 2;
  status = FloatingIpStatus.allocated;
  updated_at = 5000;
}

abbrev after_grant : Db
after_grant = record pool {
  floating_ips = record spare { id = 52; public_ip = 899 } ∷ address ∷ granted ∷ [];
}

abbrev stuck : Db
stuck = record small { tasks = record start_web { status = TaskStatus.running } ∷ start_web ∷ [] }

abbrev swept : Db
swept = record stuck {
  tasks = failed_at 5000 (record start_web { status = TaskStatus.running }) ∷ start_web ∷ [];
  instances = error_at 5000 web ∷ idle ∷ [];
}

sweep_returns : reconcile_stale_running_tasks stuck ≡ ok (1, swept)
unfolding reconcile_stale_running_tasks count has_timed_out exists select is_stale
    casper_cloud.Prelude.update
sweep_returns = refl

reconcile_stale_running_tasks_done_example :
    (n : ℕ) × (d' : Db) × (reconcile_stale_running_tasks stuck ≡ ok (n, d'))
    × Rowwise (ChangedIf (TimedOut 5000) (failed_at 5000)) stuck.tasks d'.tasks
    × Rowwise (ChangedIf (Stuck 5000 stuck.tasks) (error_at 5000)) stuck.instances d'.instances
    × Counts (Stuck 5000 stuck.tasks) stuck.instances n
    × (d' ≡ record stuck { tasks = d'.tasks; instances = d'.instances })
reconcile_stale_running_tasks_done_example = reconcile_stale_running_tasks_done stuck
