-- ===== src/Service/Actions.antt =====
-- The actions of an instance and the states that allow them: internal/service/instance_service.go.
use casper_cloud.Prelude.{
  ◌&&◌, ◌||◌, not, Bool, false, Option, none, some, Text, codes, eq_text, trim_space, to_lower,
  if◌then◌else◌,
}
use casper_cloud.Data.{InstanceState, eq_state, TaskType}

-- The words of the `switch` statements.
pub data Action : Type 0 where
  start stop reboot destroy : Action

-- `strings.ToLower(strings.TrimSpace(action))`, and the `switch` on it.
unfoldable pub parse_action : Text → Option Action
unfolding eq_text trim_space to_lower
parse_action s =
    let word = to_lower (trim_space s) in
    if eq_text word (codes "start")
    then some Action.start
    else if eq_text word (codes "stop")
    then some Action.stop
    else if eq_text word (codes "reboot")
    then some Action.reboot
    else if eq_text word (codes "destroy")
    then some Action.destroy
    else none

abbrev pub type_of_action : Action → TaskType
type_of_action Action.start = TaskType.instance_start
type_of_action Action.stop = TaskType.instance_stop
type_of_action Action.reboot = TaskType.instance_reboot
type_of_action Action.destroy = TaskType.instance_destroy

-- `none` is the error `ErrInvalidInstanceAction`.
abbrev pub typed : Option Action → Option TaskType
typed none = none
typed (some a) = some (type_of_action a)

unfoldable pub task_type_for_action : Text → Option TaskType
unfolding parse_action
task_type_for_action s = typed (parse_action s)

abbrev pub allows : InstanceState → Action → Bool
allows state Action.start =
    eq_state InstanceState.stopped state || eq_state InstanceState.error state
allows state Action.stop = eq_state InstanceState.running state
allows state Action.reboot = eq_state InstanceState.running state
allows state Action.destroy =
    not (eq_state InstanceState.creating state)
    && not (eq_state InstanceState.deleting state)
    && not (eq_state InstanceState.snapshotting state)

abbrev pub allows_parsed : InstanceState → Option Action → Bool
allows_parsed state none = false
allows_parsed state (some a) = allows state a

unfoldable pub action_allowed : InstanceState → Text → Bool
unfolding eq_state parse_action
action_allowed state s = allows_parsed state (parse_action s)
