-- ===== src/Data/Rows.antt =====
-- The rows of the tables, and the message of the task queue.
use casper_cloud.Prelude.{ℕ, Bool, Option, Text}
use casper_cloud.Data.States.{
  Uuid, Seconds, Inet, InstanceState, TaskStatus, TaskType, SnapshotStatus, VolumeStatus,
  FloatingIpStatus, Error,
}

pub record User : Type 0 where
  pub id : Uuid
  pub email : Text
  pub password_hash : Text
  pub created_at : Seconds

pub record Project : Type 0 where
  pub id : Uuid
  pub name : Text
  pub owner_id : Uuid
  pub created_at : Seconds

-- `project_memberships`, without the column `role`, which no statement reads.
pub record Membership : Type 0 where
  pub project_id : Uuid
  pub user_id : Uuid

pub record Network : Type 0 where
  pub id : Uuid
  pub project_id : Uuid
  pub name : Text
  pub cidr : Text
  pub gateway : Text
  pub bridge_name : Text
  pub is_default : Bool

-- `network_ip_slots`
pub record IpSlot : Type 0 where
  pub network_id : Uuid
  pub ip_address : Inet
  pub instance_id : Option Uuid

-- `ip_allocations`
pub record IpAllocation : Type 0 where
  pub network_id : Uuid
  pub project_id : Uuid
  pub instance_id : Uuid
  pub ip_address : Inet

pub record Image : Type 0 where
  pub id : Uuid
  pub project_id : Uuid
  pub name : Text
  pub source_url : Text
  pub description : Text
  pub created_at : Seconds

pub record Instance : Type 0 where
  pub id : Uuid
  pub project_id : Uuid
  pub image_id : Uuid
  pub name : Text
  pub state : InstanceState
  pub cloud_init_data : Text
  pub network_id : Option Uuid
  pub mac_address : Option Text
  pub bridge_name : Text
  pub ipv4_address : Option Inet
  pub network_config_yaml : Text
  pub created_at : Seconds
  pub updated_at : Seconds

-- The column `error` holds the text of an error; here, the error.
pub record Task : Type 0 where
  pub id : Uuid
  pub type : TaskType
  pub project_id : Uuid
  pub instance_id : Option Uuid
  pub status : TaskStatus
  pub error : Option Error
  pub created_at : Seconds
  pub updated_at : Seconds

pub record Snapshot : Type 0 where
  pub id : Uuid
  pub project_id : Uuid
  pub instance_id : Uuid
  pub name : Text
  pub status : SnapshotStatus
  pub domain_was_running : Bool
  pub created_at : Seconds

pub record Volume : Type 0 where
  pub id : Uuid
  pub project_id : Uuid
  pub name : Text
  pub size_gb : ℕ
  pub status : VolumeStatus
  pub instance_id : Option Uuid
  pub target_dev : Option Text
  pub created_at : Seconds
  pub updated_at : Seconds

pub record FloatingIp : Type 0 where
  pub id : Uuid
  pub project_id : Option Uuid
  pub public_ip : Inet
  pub instance_id : Option Uuid
  pub private_ip : Option Inet
  pub status : FloatingIpStatus
  pub created_at : Seconds
  pub updated_at : Seconds

pub record FloatingIpNatBinding : Type 0 where
  pub public_ip : Inet
  pub private_ip : Inet

-- `queue.TaskMessage`. The identifiers and addresses are written as texts in the source; `none` is
-- the empty text.
pub record TaskMessage : Type 0 where
  pub task_id : Uuid
  pub type : TaskType
  pub project_id : Uuid
  pub instance_id : Option Uuid
  pub snapshot_id : Option Uuid
  pub prior_state : Option InstanceState
  pub floating_ip_id : Option Uuid
  pub public_ip : Option Inet
  pub private_ip : Option Inet
