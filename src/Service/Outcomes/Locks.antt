-- ===== src/Service/Outcomes/Locks.antt =====
-- The lock that a snapshot takes on its instance, and what gives it back.
use casper_cloud.Prelude.{
  ==_refl, eq_text, [], ◌∷◌, ◌≡◌, refl, subst, ◌&&◌, true, false, none, some, Text, select_row,
  select_row_sound, select_row-update_in, Option, arith,
}
use casper_cloud.Data.{Uuid, InstanceState, eq_state, snapshot_state_conflict, Instance, Db}
use casper_cloud.Exec.{ok, err}
use casper_cloud.Repository.Instances.{is_instance}
use casper_cloud.Repository.Snapshots.{
  begin_snapshot_create, begin_snapshot_revert, new_snapshot, begin_create_on, begin_revert_on,
  is_lockable, lock_instance,
}
use casper_cloud.Service.Actions.{Action, parse_action, allows_parsed, action_allowed}
use casper_cloud.Service.Outcomes.Steps.{InstanceIs}

eq_text_refl : (s : Text) → eq_text s s ≡ true
unfolding eq_text
eq_text_refl [] = refl
eq_text_refl (c ∷ s) = rw (==_refl c) (eq_text_refl s)

eq_state_refl : (s : InstanceState) → eq_state s s ≡ true
unfolding eq_state
eq_state_refl InstanceState.creating = refl
eq_state_refl InstanceState.running = refl
eq_state_refl InstanceState.stopped = refl
eq_state_refl InstanceState.deleting = refl
eq_state_refl InstanceState.error = refl
eq_state_refl InstanceState.snapshotting = refl
eq_state_refl (InstanceState.other s) = eq_text_refl s

-- What is refused while the instance is locked: another snapshot or revert, and every action.
pub record Locked (p i : Uuid) (d : Db) : Type 0 where
  pub state : InstanceIs p i InstanceState.snapshotting d
  pub create :
      (s : Uuid) (name : Text) → begin_snapshot_create p i s name d ≡ err snapshot_state_conflict
  pub revert : begin_snapshot_revert p i d ≡ err snapshot_state_conflict

allows_parsed-snapshotting :
    (a : Option Action) → allows_parsed InstanceState.snapshotting a ≡ false
unfolding eq_state
allows_parsed-snapshotting none = refl
allows_parsed-snapshotting (some Action.start) = refl
allows_parsed-snapshotting (some Action.stop) = refl
allows_parsed-snapshotting (some Action.reboot) = refl
allows_parsed-snapshotting (some Action.destroy) = refl

Locked-of_state : (p i : Uuid) (d : Db) → InstanceIs p i InstanceState.snapshotting d → Locked p i d
unfolding begin_snapshot_create begin_snapshot_revert eq_state
Locked-of_state p i d (r, found, is) = record {
  state = (r, found, is);
  create = λ s name. rw (found, is) refl;
  revert = rw (found, is) refl;
}

lock_instance-InstanceIs :
    (p i : Uuid) (r : Instance) (d : Db)
    → select_row (is_instance p i) d.instances ≡ some r
    → InstanceIs p i InstanceState.snapshotting (lock_instance p i r.state d)
lock_instance-InstanceIs p i r d found = (
  _,
  select_row-update_in (is_instance p i) (λ x. is_instance p i x && eq_state r.state x.state)
      (λ x. record x { state = InstanceState.snapshotting; updated_at = d.now }) (λ x. refl) r
      d.instances
      (rw (select_row_sound (is_instance p i) r d.instances found, eq_state_refl r.state) refl)
      found,
  refl,
)

begin_create_on-ok :
    (o : Option Instance) (p i s : Uuid) (name : Text) (d : Db) (prior : InstanceState) (d' : Db)
    → begin_create_on o p i s name d ≡ ok (prior, d')
    → (r : Instance) × (o ≡ some r)
      × (r.state ≡ prior)
      × (is_lockable prior ≡ true)
      × (lock_instance p i r.state
            (record d { snapshots = new_snapshot p i s name r.state d ∷ d.snapshots })
          ≡ d')
begin_create_on-ok none p i s name d prior d' e = ground arith
begin_create_on-ok (some r) p i s name d prior d' e =
    (r, refl, (ground arith), (ground arith), (ground arith))

begin_revert_on-ok :
    (o : Option Instance) (p i : Uuid) (d : Db) (prior : InstanceState) (d' : Db)
    → begin_revert_on o p i d ≡ ok (prior, d')
    → (r : Instance) × (o ≡ some r)
      × (r.state ≡ prior)
      × (is_lockable prior ≡ true)
      × (lock_instance p i r.state d ≡ d')
begin_revert_on-ok none p i d prior d' e = ground arith
begin_revert_on-ok (some r) p i d prior d' e =
    (r, refl, (ground arith), (ground arith), (ground arith))

-- A snapshot that begins finds its instance running or stopped, gives that state, and locks the
-- instance: no other snapshot or revert of it can begin.
pub begin_snapshot_create-Locked :
    (p i s : Uuid) (name : Text) (prior : InstanceState) (d d' : Db)
    → begin_snapshot_create p i s name d ≡ ok (prior, d')
    → InstanceIs p i prior d × (is_lockable prior ≡ true) × Locked p i d'
unfolding begin_snapshot_create
begin_snapshot_create-Locked p i s name prior d d' e =
    let (r, found, state, lockable, same) = begin_create_on-ok _ p i s name d prior d' e in
    (
      (r, found, state),
      lockable,
      Locked-of_state p i d' (
          subst (InstanceIs p i InstanceState.snapshotting) same (
            lock_instance-InstanceIs p i r
              (record d { snapshots = new_snapshot p i s name r.state d ∷ d.snapshots }) found)),
    )

-- The same of a revert.
pub begin_snapshot_revert-Locked :
    (p i : Uuid) (prior : InstanceState) (d d' : Db)
    → begin_snapshot_revert p i d ≡ ok (prior, d')
    → InstanceIs p i prior d × (is_lockable prior ≡ true) × Locked p i d'
unfolding begin_snapshot_revert
begin_snapshot_revert-Locked p i prior d d' e =
    let (r, found, state, lockable, same) = begin_revert_on-ok _ p i d prior d' e in
    (
      (r, found, state),
      lockable,
      Locked-of_state p i d' (
          subst (InstanceIs p i InstanceState.snapshotting) same
            (lock_instance-InstanceIs p i r d found)),
    )

-- An action is allowed only by a known word, and none is while the instance is locked.
pub action_allowed-snapshotting : (a : Text) → action_allowed InstanceState.snapshotting a ≡ false
unfolding action_allowed
action_allowed-snapshotting a = allows_parsed-snapshotting (parse_action a)
