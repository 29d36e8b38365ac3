-- ===== src/Worker/Dispatch.antt =====
-- `handleMessageBody` in internal/worker/worker.go.
use casper_cloud.Prelude.{◌||◌, not, Bool, Option, Text, is_empty, if◌then◌else◌}
use casper_cloud.Data.{Uuid, TaskType, bad_message, not_configured}
use casper_cloud.Exec.{Exec, pure, raise, or_raise, ◌>>=◌, ◌>>◌}
use casper_cloud.Repository.Statement.{Done}
use casper_cloud.Service.Lifecycle.{handle_start_task, handle_stop_task, handle_reboot_task}
use casper_cloud.Service.Destroy.{Wiring, handle_destroy_task}
use casper_cloud.Service.Create.{Defaults, handle_create_task}
use casper_cloud.Service.Snapshots.{handle_snapshot_create_task, handle_snapshot_revert_task}
use casper_cloud.Service.FloatingIps.{handle_associate_task, handle_disassociate_task}
use casper_cloud.Worker.Messages.{WireMessage, Codec, task_type_of_text, state_of_text}

-- What the worker is made of: `floating_ips` is `w.floatingIPSvc != nil`, and `ingress` whether that
-- has one.
pub record Services : Type 0 where
  pub wiring : Wiring
  pub defaults : Defaults
  pub resolve : Text → Option Text
  pub floating_ips : Bool
  pub ingress : Bool

-- A field that must be there.
abbrev pub need : Text → Exec Done
need s = if is_empty s then raise bad_message else pure tt

module _ (c : Codec) (s : Services) where
  abbrev pub parse : Text → Exec Uuid
  parse text = or_raise (c.parse_uuid text) bad_message

  unfoldable pub handle_associate_message : WireMessage → Uuid → Uuid → Exec Done
  handle_associate_message m t p = if not s.floating_ips then raise not_configured else do
    need m.floating_ip_id
    need m.instance_id
    f ← parse m.floating_ip_id
    i ← parse m.instance_id
    handle_associate_task s.ingress t p i f

  unfoldable pub handle_disassociate_message : WireMessage → Uuid → Uuid → Exec Done
  handle_disassociate_message m t p =
      if not s.floating_ips
      then raise not_configured
      else if is_empty m.public_ip || is_empty m.private_ip
      then raise bad_message
      else handle_disassociate_task s.ingress t p (c.ip_of_text m.public_ip)
          (c.ip_of_text m.private_ip)

  -- Both snapshot tasks want the snapshot and the prior state.
  unfoldable pub snapshot_of_message : WireMessage → Exec Uuid
  snapshot_of_message m =
      if is_empty m.snapshot_id || is_empty m.prior_state
      then raise bad_message
      else parse m.snapshot_id

  -- A type that is not known is logged, and the message acknowledged.
  unfoldable pub handle_instance_message : TaskType → WireMessage → Uuid → Uuid → Uuid → Exec Done
  unfolding state_of_text snapshot_of_message
  handle_instance_message TaskType.instance_create m t p i =
      handle_create_task s.defaults s.resolve t p i
  handle_instance_message TaskType.instance_start m t p i = handle_start_task t p i
  handle_instance_message TaskType.instance_stop m t p i = handle_stop_task t p i
  handle_instance_message TaskType.instance_reboot m t p i = handle_reboot_task t p i
  handle_instance_message TaskType.instance_destroy m t p i = handle_destroy_task s.wiring t p i
  handle_instance_message TaskType.instance_snapshot_create m t p i =
      snapshot_of_message m >>= λ snap.
      handle_snapshot_create_task t p i snap (state_of_text m.prior_state)
  handle_instance_message TaskType.instance_snapshot_revert m t p i =
      snapshot_of_message m >>= λ snap.
      handle_snapshot_revert_task t p i snap (state_of_text m.prior_state)
  handle_instance_message _ m t p i = pure tt

  unfoldable pub handle_typed_message : TaskType → WireMessage → Uuid → Uuid → Exec Done
  unfolding handle_associate_message handle_disassociate_message handle_instance_message
  handle_typed_message TaskType.floating_ip_associate m t p = handle_associate_message m t p
  handle_typed_message TaskType.floating_ip_disassociate m t p = handle_disassociate_message m t p
  handle_typed_message type m t p = do
    need m.instance_id
    i ← parse m.instance_id
    handle_instance_message type m t p i

  unfoldable pub handle_message : WireMessage → Exec Done
  unfolding task_type_of_text handle_typed_message
  handle_message m = do
    t ← parse m.task_id
    p ← parse m.project_id
    handle_typed_message (task_type_of_text m.type) m t p

  unfoldable pub handle_message_body : Text → Exec Done
  unfolding handle_message
  handle_message_body body = or_raise (c.decode body) bad_message >>= handle_message
