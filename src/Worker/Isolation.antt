-- ===== src/Worker/Isolation.antt =====
-- A message of the queue touches the rows of its own project only.
use casper_cloud.Prelude.{◌≢◌, ◌∙◌, ap, Option, none, some, Text}
use casper_cloud.Data.{Uuid, TaskType, Db, bad_message}
use casper_cloud.Exec.{World, or_raise, ◌>>=◌}
use casper_cloud.Exec.Keeps.{
  Keeps, Keeps-bind, Keeps-pure, Keeps-or_raise, Keeps-bind-or_raise, keeps_rules,
}
use casper_cloud.Repository.Sound.{Sound}
use casper_cloud.Service.Lifecycle.{handle_start_task, handle_stop_task, handle_reboot_task}
use casper_cloud.Service.Sound.Instances.{
  Keeps-handle_simple_lifecycle, Keeps-handle_destroy_task, Keeps-handle_create_task,
}
use casper_cloud.Service.Sound.Snapshots.{
  Keeps-handle_snapshot_create_task, Keeps-handle_snapshot_revert_task,
}
use casper_cloud.Service.Sound.FloatingIps.{
  Keeps-handle_associate_task, Keeps-handle_disassociate_task,
}
use casper_cloud.Service.Isolation.{WellFormed, SameRows, isolated}
use casper_cloud.Worker.Messages.{Codec, WireMessage}
use casper_cloud.Worker.Dispatch.{
  Services, need, handle_associate_message, handle_disassociate_message, snapshot_of_message,
  handle_instance_message, handle_typed_message, handle_message, handle_message_body,
}

-- The project that a message is of, if it can be read.
abbrev pub project_of_message : Codec → Option WireMessage → Option Uuid
project_of_message c none = none
project_of_message c (some m) = c.parse_uuid m.project_id

abbrev pub project_of_body : Codec → Text → Option Uuid
project_of_body c body = project_of_message c (c.decode body)

module _ (own : Uuid → Uuid) (p q : Uuid) (ne : p ≢ q) (d₀ : Db) (c : Codec) (s : Services) where
  Keeps-need : (text : Text) → Keeps (Sound own q d₀) (need text)
  Keeps-need text = search keeps_rules

  Keeps-snapshot_of_message : (m : WireMessage) → Keeps (Sound own q d₀) (snapshot_of_message c s m)
  unfolding snapshot_of_message
  Keeps-snapshot_of_message m = search keeps_rules

  Keeps-start_stop_reboot :
      (t i : Uuid)
      → Keeps (Sound own q d₀) (handle_start_task t p i)
        × Keeps (Sound own q d₀) (handle_stop_task t p i)
        × Keeps (Sound own q d₀) (handle_reboot_task t p i)
  unfolding handle_start_task handle_stop_task handle_reboot_task
  Keeps-start_stop_reboot t i = (
    Keeps-handle_simple_lifecycle own p q ne d₀ t i _ _,
    Keeps-handle_simple_lifecycle own p q ne d₀ t i _ _,
    Keeps-handle_simple_lifecycle own p q ne d₀ t i _ _,
  )

  Keeps-handle_instance_message :
      (type : TaskType) (m : WireMessage) (t i : Uuid)
      → Keeps (Sound own q d₀) (handle_instance_message c s type m t p i)
  unfolding handle_instance_message
  Keeps-handle_instance_message TaskType.instance_create m t i =
      Keeps-handle_create_task own p q ne d₀ s.defaults s.resolve t i
  Keeps-handle_instance_message TaskType.instance_start m t i = (Keeps-start_stop_reboot t i).0
  Keeps-handle_instance_message TaskType.instance_stop m t i = (Keeps-start_stop_reboot t i).1
  Keeps-handle_instance_message TaskType.instance_reboot m t i = (Keeps-start_stop_reboot t i).2
  Keeps-handle_instance_message TaskType.instance_destroy m t i =
      Keeps-handle_destroy_task own p q ne d₀ s.wiring t i
  Keeps-handle_instance_message TaskType.instance_snapshot_create m t i =
      Keeps-bind _ _ (Keeps-snapshot_of_message m)
        (λ snap. Keeps-handle_snapshot_create_task own p q ne d₀ t i snap _)
  Keeps-handle_instance_message TaskType.instance_snapshot_revert m t i =
      Keeps-bind _ _ (Keeps-snapshot_of_message m)
        (λ snap. Keeps-handle_snapshot_revert_task own p q ne d₀ t i snap _)
  Keeps-handle_instance_message TaskType.floating_ip_associate m t i = Keeps-pure tt
  Keeps-handle_instance_message TaskType.floating_ip_disassociate m t i = Keeps-pure tt
  Keeps-handle_instance_message (TaskType.other x) m t i = Keeps-pure tt

  Keeps-with_instance :
      (type : TaskType) (m : WireMessage) (t : Uuid)
      → Keeps (Sound own q d₀) (
          need m.instance_id >>= λ _. or_raise (c.parse_uuid m.instance_id) bad_message >>= λ i.
          handle_instance_message c s type m t p i)
  Keeps-with_instance type m t =
      Keeps-bind _ _ (Keeps-need m.instance_id)
        (λ _. Keeps-bind _ _ (Keeps-or_raise _ _) (Keeps-handle_instance_message type m t))

  Keeps-handle_typed_message :
      (type : TaskType) (m : WireMessage) (t : Uuid)
      → Keeps (Sound own q d₀) (handle_typed_message c s type m t p)
  unfolding handle_typed_message handle_associate_message handle_disassociate_message
  Keeps-handle_typed_message TaskType.floating_ip_associate m t =
      search (keeps_rules, Keeps-need, Keeps-handle_associate_task own p q ne d₀) depth 14
  Keeps-handle_typed_message TaskType.floating_ip_disassociate m t =
      search (keeps_rules, Keeps-handle_disassociate_task own p q ne d₀) depth 14
  Keeps-handle_typed_message TaskType.instance_create m t =
      Keeps-with_instance TaskType.instance_create m t
  Keeps-handle_typed_message TaskType.instance_start m t =
      Keeps-with_instance TaskType.instance_start m t
  Keeps-handle_typed_message TaskType.instance_stop m t =
      Keeps-with_instance TaskType.instance_stop m t
  Keeps-handle_typed_message TaskType.instance_reboot m t =
      Keeps-with_instance TaskType.instance_reboot m t
  Keeps-handle_typed_message TaskType.instance_destroy m t =
      Keeps-with_instance TaskType.instance_destroy m t
  Keeps-handle_typed_message TaskType.instance_snapshot_create m t =
      Keeps-with_instance TaskType.instance_snapshot_create m t
  Keeps-handle_typed_message TaskType.instance_snapshot_revert m t =
      Keeps-with_instance TaskType.instance_snapshot_revert m t
  Keeps-handle_typed_message (TaskType.other x) m t = Keeps-with_instance (TaskType.other x) m t

module _ (own : Uuid → Uuid) (q : Uuid) (d₀ : Db) (c : Codec) (s : Services) where
  Keeps-handle_message :
      (m : WireMessage)
      → c.parse_uuid m.project_id ≢ some q
      → Keeps (Sound own q d₀) (handle_message c s m)
  unfolding handle_message
  Keeps-handle_message m other = Keeps-bind _ _ (Keeps-or_raise _ _) (λ t.
      Keeps-bind-or_raise _ _ _ (λ p found.
        Keeps-handle_typed_message own p q (λ same. other (found ∙ ap some same)) d₀ c s _ m t))

  Keeps-handle_message_body :
      (body : Text)
      → project_of_body c body ≢ some q
      → Keeps (Sound own q d₀) (handle_message_body c s body)
  unfolding handle_message_body
  Keeps-handle_message_body body other =
      Keeps-bind-or_raise _ _ _
        (λ m found. Keeps-handle_message m (λ e. other (ap (project_of_message c) found ∙ e)))

-- Whatever the body of a message, and whichever calls of its handler fail, the tables stay well formed,
-- and a project that the message is not of has exactly the rows that it had, in every table that has
-- rows of projects.
pub handle_message_body_isolated :
    (own : Uuid → Uuid) (q : Uuid) (c : Codec) (s : Services) (body : Text) (w : World)
    → WellFormed own w.db
    → project_of_body c body ≢ some q
    → WellFormed own (handle_message_body c s body w).1.db
      × SameRows q w.db (handle_message_body c s body w).1.db
handle_message_body_isolated own q c s body w v other =
    isolated own q (handle_message_body c s body) w
      (Keeps-handle_message_body own q w.db c s body other) v
