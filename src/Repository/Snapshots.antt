-- ===== src/Repository/Snapshots.antt =====
-- The snapshots of an instance: internal/repository/snapshots.go.
use casper_cloud.Prelude.{
  ◌==◌, ◌&&◌, ◌||◌, Bool, Option, none, some, List, ◌∷◌, Text, eq_text, select, select_row, update,
  exists, order_by_desc, if◌then◌else◌,
}
use casper_cloud.Data.{
  Uuid, InstanceState, eq_state, SnapshotStatus, not_found, snapshot_state_conflict,
  snapshot_name_conflict, Instance, Snapshot, Db,
}
use casper_cloud.Exec.{ok, err}
use casper_cloud.Repository.Statement.{Statement, Done, one_row, affected}
use casper_cloud.Repository.Instances.{is_instance}

-- `WHERE id = $2 AND project_id = $1`
abbrev pub is_snapshot : Uuid → Uuid → Snapshot → Bool
is_snapshot p s r = r.project_id == p && r.id == s

unfoldable pub update_snapshot_status : Uuid → Uuid → SnapshotStatus → Statement Done
update_snapshot_status p s status d =
    affected (exists (is_snapshot p s) d.snapshots) not_found (record d {
      snapshots = update (is_snapshot p s) (λ r. record r { status = status }) d.snapshots;
    })

unfoldable pub list_snapshots_for_instance : Uuid → Uuid → Statement (List Snapshot)
list_snapshots_for_instance p i d = ok (
  order_by_desc (λ r. r.created_at)
      (select (λ r. r.project_id == p && r.instance_id == i) d.snapshots),
  d,
)

unfoldable pub get_snapshot : Uuid → Uuid → Uuid → Statement Snapshot
get_snapshot p i s d =
    one_row (select_row (λ r. r.project_id == p && r.instance_id == i && r.id == s) d.snapshots)
      not_found d

-- `UPDATE instances SET state = 'snapshotting' … AND state = $3`
abbrev pub lock_instance : Uuid → Uuid → InstanceState → Db → Db
lock_instance p i state d = record d {
  instances =
      update (λ r. is_instance p i r && eq_state state r.state)
        (λ r. record r { state = InstanceState.snapshotting; updated_at = d.now }) d.instances;
}

abbrev lock_affected : Uuid → Uuid → InstanceState → Db → Bool
lock_affected p i state d = exists (λ r. is_instance p i r && eq_state state r.state) d.instances

-- `state == "running" || state == "stopped"`
abbrev pub is_lockable : InstanceState → Bool
is_lockable state = eq_state InstanceState.running state || eq_state InstanceState.stopped state

-- UNIQUE (instance_id, name), and the primary key.
abbrev pub snapshot_clashes : Uuid → Uuid → Text → Snapshot → Bool
snapshot_clashes i s name r = r.id == s || (r.instance_id == i && eq_text r.name name)

abbrev pub new_snapshot : Uuid → Uuid → Uuid → Text → InstanceState → Db → Snapshot
new_snapshot p i s name state d = record {
  id = s;
  project_id = p;
  instance_id = i;
  name = name;
  status = SnapshotStatus.creating;
  domain_was_running = eq_state InstanceState.running state;
  created_at = d.now;
}

abbrev insert_and_lock : Uuid → Uuid → Uuid → Text → InstanceState → Statement InstanceState
insert_and_lock p i s name state d =
    if exists (snapshot_clashes i s name) d.snapshots
    then err snapshot_name_conflict
    else if lock_affected p i state d
    then ok (
      state,
      lock_instance p i state
          (record d { snapshots = new_snapshot p i s name state d ∷ d.snapshots }),
    )
    else err snapshot_state_conflict

abbrev pub begin_create_on : Option Instance → Uuid → Uuid → Uuid → Text → Statement InstanceState
begin_create_on none p i s name d = err not_found
begin_create_on (some r) p i s name d =
    if is_lockable r.state
    then insert_and_lock p i s name r.state d
    else err snapshot_state_conflict

-- Gives the state before the lock.
unfoldable pub begin_snapshot_create : Uuid → Uuid → Uuid → Text → Statement InstanceState
begin_snapshot_create p i s name d =
    begin_create_on (select_row (is_instance p i) d.instances) p i s name d

abbrev pub begin_revert_on : Option Instance → Uuid → Uuid → Statement InstanceState
begin_revert_on none p i d = err not_found
begin_revert_on (some r) p i d =
    if is_lockable r.state
    then (if lock_affected p i r.state d
        then ok (r.state, lock_instance p i r.state d)
        else err snapshot_state_conflict)
    else err snapshot_state_conflict

unfoldable pub begin_snapshot_revert : Uuid → Uuid → Statement InstanceState
begin_snapshot_revert p i d = begin_revert_on (select_row (is_instance p i) d.instances) p i d
