-- ===== src/Data/States.antt =====
-- The names that the TEXT columns hold, the errors, and the identifiers.
use casper_cloud.Prelude.{ℕ, Bool, true, false, Text, eq_text}

-- A `uuid.UUID` or another key; 0 is `uuid.Nil`.
abbrev pub Uuid : Type 0
Uuid = ℕ

abbrev pub uuid_nil : Uuid
uuid_nil = 0

-- A point of time in seconds.
abbrev pub Seconds : Type 0
Seconds = ℕ

-- An IPv4 address as its 32-bit number; it stands for the text of an INET column too.
abbrev pub Inet : Type 0
Inet = ℕ

-- `instances.state` has no CHECK: `other` is any text that is not one of the six constants.
pub data InstanceState : Type 0 where
  creating running stopped deleting error snapshotting : InstanceState
  other : Text → InstanceState

-- `a == b` on the texts of two states.
unfoldable pub eq_state : InstanceState → InstanceState → Bool
unfolding eq_text
eq_state InstanceState.creating InstanceState.creating = true
eq_state InstanceState.running InstanceState.running = true
eq_state InstanceState.stopped InstanceState.stopped = true
eq_state InstanceState.deleting InstanceState.deleting = true
eq_state InstanceState.error InstanceState.error = true
eq_state InstanceState.snapshotting InstanceState.snapshotting = true
eq_state (InstanceState.other s) (InstanceState.other t) = eq_text s t
eq_state _ _ = false

pub data TaskStatus : Type 0 where
  pending running failed succeeded : TaskStatus

pub data TaskType : Type 0 where
  instance_create instance_start instance_stop instance_reboot instance_destroy : TaskType
  instance_snapshot_create instance_snapshot_revert : TaskType
  floating_ip_associate floating_ip_disassociate : TaskType
  other : Text → TaskType

pub data SnapshotStatus : Type 0 where
  creating available error : SnapshotStatus

pub data VolumeStatus : Type 0 where
  available in_use error : VolumeStatus

pub data FloatingIpStatus : Type 0 where
  unallocated allocated active : FloatingIpStatus

-- The sentinel errors of the packages, and one constructor for each outside party that fails.
pub data Error : Type 0 where
  not_found no_ips_available no_floating_ips_available : Error
  floating_ip_associate_preconditions floating_ip_missing_address : Error
  floating_ip_not_active floating_ip_missing_private_ip : Error
  volume_in_use volume_not_available volume_not_attached_to_instance volume_name_conflict : Error
  snapshot_state_conflict snapshot_name_conflict snapshot_not_ready : Error
  invalid_instance_action invalid_state_transition : Error
  instance_has_attached_volumes instance_busy_snapshotting instance_not_running : Error
  no_free_disk_slot record_attach_failed invalid_size bad_image_source : Error
  invalid_credentials not_a_member no_usable_hosts unsupported_prefix : Error
  not_configured bad_message stale_running : Error
  missing_cloud_init_field invalid_network_config unreadable_address : Error
  stats_fetcher_not_configured stats_not_in_cache stats_stale no_default_network : Error
  constraint_violation unique_violation : Error
  database_failed hypervisor_failed broker_failed host_failed : Error
