-- ===== src/Worker/Dispatched.antt =====
-- A message that the API publishes reaches the handler that it names.
use casper_cloud.Prelude.{
  ◌≡◌, refl, false, Option, none, some, is_empty, if◌then◌else◌, Bool-cases, inl, inr, arith,
}
use casper_cloud.Data.{
  Uuid, Inet, InstanceState, TaskType, TaskMessage, bad_message, not_configured,
}
use casper_cloud.Exec.{World, Exec, pure, raise, or_raise, ◌>>=◌}
use casper_cloud.Repository.Statement.{Done}
use casper_cloud.Service.Lifecycle.{handle_start_task, handle_stop_task, handle_reboot_task}
use casper_cloud.Service.Destroy.{handle_destroy_task}
use casper_cloud.Service.Create.{handle_create_task}
use casper_cloud.Service.Snapshots.{handle_snapshot_create_task, handle_snapshot_revert_task}
use casper_cloud.Service.FloatingIps.{handle_associate_task, handle_disassociate_task}
use casper_cloud.Worker.Messages.{
  Codec, CodecLaws, text_or_none, task_type_text, task_type_of_text, state_text, state_of_text,
  wire_of,
}
use casper_cloud.Worker.Dispatch.{
  Services, need, handle_associate_message, handle_disassociate_message, snapshot_of_message,
  handle_instance_message, handle_typed_message, handle_message_body,
}

-- What a message asks for. A field that the task needs and the message lacks is an error.
abbrev meant_with_instance : Services → TaskType → TaskMessage → Uuid → Exec Done
meant_with_instance s TaskType.instance_create m i =
    handle_create_task s.defaults s.resolve m.task_id m.project_id i
meant_with_instance s TaskType.instance_start m i = handle_start_task m.task_id m.project_id i
meant_with_instance s TaskType.instance_stop m i = handle_stop_task m.task_id m.project_id i
meant_with_instance s TaskType.instance_reboot m i = handle_reboot_task m.task_id m.project_id i
meant_with_instance s TaskType.instance_destroy m i =
    handle_destroy_task s.wiring m.task_id m.project_id i
meant_with_instance s _ m i = pure tt

abbrev meant_snapshot :
    (Uuid → Uuid → Uuid → Uuid → InstanceState → Exec Done)
    → TaskMessage
    → Option Uuid
    → Option Uuid
    → Option InstanceState
    → Exec Done
meant_snapshot handle m none snap prior = raise bad_message
meant_snapshot handle m (some i) none prior = raise bad_message
meant_snapshot handle m (some i) (some snap) none = raise bad_message
meant_snapshot handle m (some i) (some snap) (some prior) =
    handle m.task_id m.project_id i snap prior

abbrev meant_with : (Uuid → Exec Done) → Option Uuid → Exec Done
meant_with next none = raise bad_message
meant_with next (some i) = next i

abbrev meant_instance : Services → TaskType → TaskMessage → Option Uuid → Exec Done
meant_instance s type m i = meant_with (meant_with_instance s type m) i

abbrev meant_associate : Services → TaskMessage → Option Uuid → Option Uuid → Exec Done
meant_associate s m none i = raise bad_message
meant_associate s m (some f) none = raise bad_message
meant_associate s m (some f) (some i) = handle_associate_task s.ingress m.task_id m.project_id i f

abbrev meant_disassociate : Services → TaskMessage → Option Inet → Option Inet → Exec Done
meant_disassociate s m none b = raise bad_message
meant_disassociate s m (some a) none = raise bad_message
meant_disassociate s m (some a) (some b) =
    handle_disassociate_task s.ingress m.task_id m.project_id a b

abbrev meant_typed : Services → TaskType → TaskMessage → Exec Done
meant_typed s TaskType.floating_ip_associate m =
    if s.floating_ips
    then meant_associate s m m.floating_ip_id m.instance_id
    else raise not_configured
meant_typed s TaskType.floating_ip_disassociate m =
    if s.floating_ips then meant_disassociate s m m.public_ip m.private_ip else raise not_configured
meant_typed s TaskType.instance_snapshot_create m =
    meant_snapshot handle_snapshot_create_task m m.instance_id m.snapshot_id m.prior_state
meant_typed s TaskType.instance_snapshot_revert m =
    meant_snapshot handle_snapshot_revert_task m m.instance_id m.snapshot_id m.prior_state
meant_typed s type m = meant_instance s type m m.instance_id

unfoldable pub meant : Services → TaskMessage → Exec Done
meant s m = meant_typed s m.type m

-- The type, and the prior state, is one of the constants.
abbrev pub IsKnownType : TaskType → Type 0
IsKnownType (TaskType.other s) = ⊥
IsKnownType _ = Unit

abbrev pub IsKnownState : Option InstanceState → Type 0
IsKnownState (some (InstanceState.other s)) = ⊥
IsKnownState _ = Unit

task_type_of_text-text :
    (type : TaskType) → IsKnownType type → task_type_of_text (task_type_text type) ≡ type
unfolding task_type_of_text
task_type_of_text-text TaskType.instance_create h = refl
task_type_of_text-text TaskType.instance_start h = refl
task_type_of_text-text TaskType.instance_stop h = refl
task_type_of_text-text TaskType.instance_reboot h = refl
task_type_of_text-text TaskType.instance_destroy h = refl
task_type_of_text-text TaskType.instance_snapshot_create h = refl
task_type_of_text-text TaskType.instance_snapshot_revert h = refl
task_type_of_text-text TaskType.floating_ip_associate h = refl
task_type_of_text-text TaskType.floating_ip_disassociate h = refl
task_type_of_text-text (TaskType.other s) h = absurd h

state_of_text-text :
    (state : InstanceState)
    → IsKnownState (some state)
    → (state_of_text (state_text state) ≡ state) × (is_empty (state_text state) ≡ false)
unfolding state_of_text
state_of_text-text InstanceState.creating h = (refl, refl)
state_of_text-text InstanceState.running h = (refl, refl)
state_of_text-text InstanceState.stopped h = (refl, refl)
state_of_text-text InstanceState.deleting h = (refl, refl)
state_of_text-text InstanceState.error h = (refl, refl)
state_of_text-text InstanceState.snapshotting h = (refl, refl)
state_of_text-text (InstanceState.other s) h = absurd h

module _ (c : Codec) (laws : CodecLaws c) (s : Services) where
  associate-meant :
      (m : TaskMessage) (w : World) (f i : Option Uuid)
      → let m' = record m { instance_id = i; floating_ip_id = f } in
        handle_associate_message c s (wire_of c m') m.task_id m.project_id w
        ≡ (if s.floating_ips then meant_associate s m' f i else raise not_configured) w
  unfolding handle_associate_message wire_of ◌>>=◌ raise pure
  associate-meant m w f i = elim (Bool-cases s.floating_ips) [
    | inl t ↦ rw t (wired f i)
    | inr t ↦ rw t refl
  ]
    where
      wired :
          (f i : Option Uuid)
          → (need (text_or_none c.uuid_text f) >>= λ _. need (text_or_none c.uuid_text i) >>= λ _.
                or_raise (c.parse_uuid (text_or_none c.uuid_text f)) bad_message >>= λ x.
                or_raise (c.parse_uuid (text_or_none c.uuid_text i)) bad_message >>= λ y.
                handle_associate_task s.ingress m.task_id m.project_id y x)
              w
            ≡ meant_associate s m f i w
      wired none i = refl
      wired (some x) none = rw (laws.uuid_text_filled x) refl
      wired (some x) (some y) =
          rw
            (
              laws.uuid_text_filled x,
              laws.uuid_text_filled y,
              laws.parse-uuid_text x,
              laws.parse-uuid_text y,
            )
            refl

  disassociate-meant :
      (m : TaskMessage) (w : World) (a b : Option Inet)
      → let m' = record m { public_ip = a; private_ip = b } in
        handle_disassociate_message c s (wire_of c m') m.task_id m.project_id w
        ≡ (if s.floating_ips then meant_disassociate s m' a b else raise not_configured) w
  unfolding handle_disassociate_message wire_of ◌>>=◌ raise pure
  disassociate-meant m w none b = ground arith
  disassociate-meant m w (some x) none = rw (laws.ip_text_filled x) (ground arith)
  disassociate-meant m w (some x) (some y) =
      rw
        (
          laws.ip_text_filled x,
          laws.ip_text_filled y,
          laws.ip_of_text-ip_text x,
          laws.ip_of_text-ip_text y,
        )
        (ground arith)

  snapshot-meant :
      (m : TaskMessage) (w : World) (i snap : Option Uuid) (prior : Option InstanceState)
      → (handle : Uuid → Uuid → Uuid → Uuid → InstanceState → Exec Done) → IsKnownState prior
      → let m' = record m { instance_id = i; snapshot_id = snap; prior_state = prior } in
        (need (text_or_none c.uuid_text i) >>= λ _.
        or_raise (c.parse_uuid (text_or_none c.uuid_text i)) bad_message >>= λ x.
        snapshot_of_message c s (wire_of c m') >>= λ y.
        handle m.task_id m.project_id x y (state_of_text (text_or_none state_text prior)))
          w
        ≡ meant_snapshot handle m i snap prior w
  unfolding snapshot_of_message wire_of ◌>>=◌ raise pure
  snapshot-meant m w none snap prior handle k = refl
  snapshot-meant m w (some x) none prior handle k =
      rw (laws.uuid_text_filled x, laws.parse-uuid_text x) refl
  snapshot-meant m w (some x) (some y) none handle k =
      rw (laws.uuid_text_filled x, laws.parse-uuid_text x, laws.uuid_text_filled y) refl
  snapshot-meant m w (some x) (some y) (some st) handle k =
      let (same, filled) = state_of_text-text st k in
      rw
        (
          laws.uuid_text_filled x,
          laws.parse-uuid_text x,
          laws.uuid_text_filled y,
          filled,
          laws.parse-uuid_text y,
          same,
        )
        refl

  instance-meant :
      (m : TaskMessage) (w : World) (i : Option Uuid) (next : Uuid → Exec Done)
      → (need (text_or_none c.uuid_text i) >>= λ _.
            or_raise (c.parse_uuid (text_or_none c.uuid_text i)) bad_message >>= next)
          w
        ≡ meant_with next i w
  unfolding ◌>>=◌ raise pure
  instance-meant m w none next = refl
  instance-meant m w (some x) next = rw (laws.uuid_text_filled x, laws.parse-uuid_text x) refl

  typed-meant :
      (m : TaskMessage) (w : World) (type : TaskType)
      → IsKnownType type
      → IsKnownState m.prior_state
      → handle_typed_message c s type (wire_of c m) m.task_id m.project_id w
        ≡ meant_typed s type m w
  unfolding handle_typed_message handle_instance_message wire_of
  typed-meant m w TaskType.instance_create h k = instance-meant m w m.instance_id _
  typed-meant m w TaskType.instance_start h k = instance-meant m w m.instance_id _
  typed-meant m w TaskType.instance_stop h k = instance-meant m w m.instance_id _
  typed-meant m w TaskType.instance_reboot h k = instance-meant m w m.instance_id _
  typed-meant m w TaskType.instance_destroy h k = instance-meant m w m.instance_id _
  typed-meant m w TaskType.instance_snapshot_create h k =
      snapshot-meant m w m.instance_id m.snapshot_id m.prior_state handle_snapshot_create_task k
  typed-meant m w TaskType.instance_snapshot_revert h k =
      snapshot-meant m w m.instance_id m.snapshot_id m.prior_state handle_snapshot_revert_task k
  typed-meant m w TaskType.floating_ip_associate h k =
      associate-meant m w m.floating_ip_id m.instance_id
  typed-meant m w TaskType.floating_ip_disassociate h k =
      disassociate-meant m w m.public_ip m.private_ip
  typed-meant m w (TaskType.other t) h k = absurd h

  -- A message that a service publishes, with a known type and prior state, is handled as it is meant:
  -- after it is written as JSON and read back, the handler of its type runs with the task, project,
  -- instance and further fields that it names, or fails as it lacks one.
  pub handle_message_body-meant :
      (m : TaskMessage) (w : World)
      → IsKnownType m.type
      → IsKnownState m.prior_state
      → handle_message_body c s (c.encode (wire_of c m)) w ≡ meant s m w
  unfolding handle_message_body meant ◌>>=◌ pure wire_of
  handle_message_body-meant m w h k =
      rw
        (
          laws.decode-encode (wire_of c m),
          laws.parse-uuid_text m.task_id,
          laws.parse-uuid_text m.project_id,
          task_type_of_text-text m.type h,
        )
        (typed-meant m w m.type h k)
