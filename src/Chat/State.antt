-- ===== src/Chat/State.antt =====
-- The data of chat_controller.py: actions, events, and the attributes of `ChatController`. Texts are
-- lists of code points, and time is a natural number of ticks.
use simple_harness_service_s.Text.{codes}
use simple_harness_service_s.Commands.{CommandSnapshot}
use simple_harness_service_s.Common.{
  ℕ, Bool, true, false, Option, none, some, List, is_some, is_none, if◌then◌else◌,
}

abbrev pub Text : Type 0
Text = List ℕ

pub data ControllerState : Type 0 where
  idle pending cancel_in_flight : ControllerState

pub data ChatAction : Type 0 where
  submit : Text → ChatAction
  cancel quit clear help status : ChatAction
  set_session : Text → ChatAction
  new_session : ChatAction

pub data ChatEvent : Type 0 where
  accepted : Text → Text → ChatEvent
  pending : Text → Text → Option Text → ChatEvent
  completed : Text → ChatEvent
  failed : Option Text → ChatEvent
  cancelled : ChatEvent
  timeout : Text → Text → ChatEvent
  cancel_pending : Text → Text → Text → ChatEvent
  protocol_error : Text → ChatEvent
  notice : Text → ChatEvent
  transcript_cleared : ChatEvent
  session_changed : Text → ChatEvent
  quit_requested : Bool → ChatEvent

-- `cancel_task` is the number of the task that calls `cancel` of the client: tasks are compared by
-- identity. `task_count` is the number that the next task gets.
pub record ChatController : Type 0 where
  pub session : Text
  pub run_id : Option Text
  pub start_command_id : Option Text
  pub cancel_command_id : Option Text
  pub cancel_task : Option ℕ
  pub cancel_accepted : Bool
  pub cancel_pending_reported : Bool
  pub start_snapshot : Option CommandSnapshot
  pub cancel_snapshot : Option CommandSnapshot
  pub quit_after_settle : Bool
  pub run_deadline : Option ℕ
  pub cancel_deadline : Option ℕ
  pub last_outcome : Text
  pub task_count : ℕ

-- The two durations that a controller is built with
pub record Deadlines : Type 0 where
  pub observe_deadline : ℕ
  pub cancel_reconcile : ℕ

unfoldable pub init : Text → ChatController
init session = record {
  session = session;
  run_id = none;
  start_command_id = none;
  cancel_command_id = none;
  cancel_task = none;
  cancel_accepted = false;
  cancel_pending_reported = false;
  start_snapshot = none;
  cancel_snapshot = none;
  quit_after_settle = false;
  run_deadline = none;
  cancel_deadline = none;
  last_outcome = codes "idle";
  task_count = 0;
}

unfoldable pub state_of : ChatController → ControllerState
state_of s =
    if is_none s.run_id
    then ControllerState.idle
    else if is_some s.cancel_task
    then ControllerState.cancel_in_flight
    else ControllerState.pending

abbrev pub is_idle : ControllerState → Bool
is_idle ControllerState.idle = true
is_idle _ = false

-- `active_identity`: the ids of the run and of its start command
unfoldable pub active_identity : ChatController → Option (Text × Text)
active_identity s = elim s.run_id [
  | none ↦ none
  | some run ↦ elim s.start_command_id [ none ↦ none | some command ↦ some (run, command) ]
]

-- `_event_name`
unfoldable pub event_name : ChatEvent → Text
event_name (completed text) = codes "completed"
event_name (failed code) = codes "failed"
event_name cancelled = codes "cancelled"
event_name (protocol_error detail) = codes "protocol_error"
event_name _ = codes "settled"

-- `_settle`
unfoldable pub settle : ChatEvent → ChatController → ChatController
unfolding event_name
settle event s = record s {
  last_outcome = event_name event;
  run_id = none;
  start_command_id = none;
  cancel_command_id = none;
  cancel_task = none;
  cancel_accepted = false;
  cancel_pending_reported = false;
  start_snapshot = none;
  cancel_snapshot = none;
  quit_after_settle = false;
  run_deadline = none;
  cancel_deadline = none;
}
