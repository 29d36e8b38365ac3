-- ===== src/Worker/Messages.antt =====
-- The message as it is sent: `queue.TaskMessage` has texts, which the worker parses. JSON, UUIDs and IP
-- addresses are read and written by packages; `Codec` is what they do.
use casper_cloud.Prelude.{
  Option, none, some, Text, codes, eq_text, is_empty, if◌then◌else◌, ◌≡◌, false,
}
use casper_cloud.Data.{Uuid, Inet, InstanceState, TaskType, TaskMessage}

-- `queue.TaskMessage`, with its texts.
pub record WireMessage : Type 0 where
  pub task_id : Text
  pub type : Text
  pub project_id : Text
  pub instance_id : Text
  pub snapshot_id : Text
  pub prior_state : Text
  pub floating_ip_id : Text
  pub public_ip : Text
  pub private_ip : Text

-- `json.Marshal`, `json.Unmarshal`, `uuid.Parse`, `UUID.String`, and the address that a text names.
pub record Codec : Type 0 where
  pub encode : WireMessage → Text
  pub decode : Text → Option WireMessage
  pub uuid_text : Uuid → Text
  pub parse_uuid : Text → Option Uuid
  pub ip_text : Inet → Text
  pub ip_of_text : Text → Inet

-- What the packages promise: what is written is read back, and is not the empty text.
pub record CodecLaws (c : Codec) : Type 0 where
  pub decode-encode : (m : WireMessage) → c.decode (c.encode m) ≡ some m
  pub parse-uuid_text : (i : Uuid) → c.parse_uuid (c.uuid_text i) ≡ some i
  pub uuid_text_filled : (i : Uuid) → is_empty (c.uuid_text i) ≡ false
  pub ip_of_text-ip_text : (a : Inet) → c.ip_of_text (c.ip_text a) ≡ a
  pub ip_text_filled : (a : Inet) → is_empty (c.ip_text a) ≡ false

-- The constants `TaskType…`.
unfoldable pub task_type_text : TaskType → Text
task_type_text TaskType.instance_create = codes "instance.create"
task_type_text TaskType.instance_start = codes "instance.start"
task_type_text TaskType.instance_stop = codes "instance.stop"
task_type_text TaskType.instance_reboot = codes "instance.reboot"
task_type_text TaskType.instance_destroy = codes "instance.destroy"
task_type_text TaskType.instance_snapshot_create = codes "instance.snapshot_create"
task_type_text TaskType.instance_snapshot_revert = codes "instance.snapshot_revert"
task_type_text TaskType.floating_ip_associate = codes "floating_ip.associate"
task_type_text TaskType.floating_ip_disassociate = codes "floating_ip.disassociate"
task_type_text (TaskType.other s) = s

-- The cases of the `switch` on the type.
unfoldable pub task_type_of_text : Text → TaskType
unfolding task_type_text eq_text
task_type_of_text s =
    if eq_text s (task_type_text TaskType.floating_ip_associate)
    then TaskType.floating_ip_associate
    else if eq_text s (task_type_text TaskType.floating_ip_disassociate)
    then TaskType.floating_ip_disassociate
    else if eq_text s (task_type_text TaskType.instance_create)
    then TaskType.instance_create
    else if eq_text s (task_type_text TaskType.instance_start)
    then TaskType.instance_start
    else if eq_text s (task_type_text TaskType.instance_stop)
    then TaskType.instance_stop
    else if eq_text s (task_type_text TaskType.instance_reboot)
    then TaskType.instance_reboot
    else if eq_text s (task_type_text TaskType.instance_destroy)
    then TaskType.instance_destroy
    else if eq_text s (task_type_text TaskType.instance_snapshot_create)
    then TaskType.instance_snapshot_create
    else if eq_text s (task_type_text TaskType.instance_snapshot_revert)
    then TaskType.instance_snapshot_revert
    else TaskType.other s

-- The constants `InstanceState…`.
unfoldable pub state_text : InstanceState → Text
state_text InstanceState.creating = codes "creating"
state_text InstanceState.running = codes "running"
state_text InstanceState.stopped = codes "stopped"
state_text InstanceState.deleting = codes "deleting"
state_text InstanceState.error = codes "error"
state_text InstanceState.snapshotting = codes "snapshotting"
state_text (InstanceState.other s) = s

-- The state of a text, which the source keeps as it is.
unfoldable pub state_of_text : Text → InstanceState
unfolding state_text eq_text
state_of_text s =
    if eq_text s (state_text InstanceState.creating)
    then InstanceState.creating
    else if eq_text s (state_text InstanceState.running)
    then InstanceState.running
    else if eq_text s (state_text InstanceState.stopped)
    then InstanceState.stopped
    else if eq_text s (state_text InstanceState.deleting)
    then InstanceState.deleting
    else if eq_text s (state_text InstanceState.error)
    then InstanceState.error
    else if eq_text s (state_text InstanceState.snapshotting)
    then InstanceState.snapshotting
    else InstanceState.other s

-- `omitempty`: a field that is not set is the empty text.
abbrev pub text_or_none {ℓ} : {A : Type ℓ} → (A → Text) → Option A → Text
text_or_none f none = codes ""
text_or_none f (some a) = f a

-- The message that the services publish, with its texts.
unfoldable pub wire_of : Codec → TaskMessage → WireMessage
unfolding task_type_text state_text
wire_of c m = record {
  task_id = c.uuid_text m.task_id;
  type = task_type_text m.type;
  project_id = c.uuid_text m.project_id;
  instance_id = text_or_none c.uuid_text m.instance_id;
  snapshot_id = text_or_none c.uuid_text m.snapshot_id;
  prior_state = text_or_none state_text m.prior_state;
  floating_ip_id = text_or_none c.uuid_text m.floating_ip_id;
  public_ip = text_or_none c.ip_text m.public_ip;
  private_ip = text_or_none c.ip_text m.private_ip;
}
