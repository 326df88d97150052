-- ===== src/Commands.antt =====
-- The outcome of a durable command, `_closed_outcome` of service.py, on the enums of contracts.py, and
-- the codes that `_mapped_command_error` answers with.
pub mod Outcome
use simple_harness_service_s.Common.{
  ℕ, List, not, is_none, is_some, Bool, true, false, ◌&&◌, ◌||◌, Option, none, some, if◌then◌else◌,
}

pub data CommandState : Type 0 where
  accepted context_call_intent context_ready applied rejected cancelled : CommandState

pub data CommandKind : Type 0 where
  start continue cancel : CommandKind

pub data OutputState : Type 0 where
  pending present absent unknown : OutputState

pub data RunState : Type 0 where
  created admission_pending queued running waiting : RunState
  cancel_requested completed failed cancelled : RunState

pub data CommandOutcome : Type 0 where
  pending completed failed cancelled protocol_error : CommandOutcome

-- command_state in {ACCEPTED, CONTEXT_CALL_INTENT, CONTEXT_READY}
abbrev pub is_open : CommandState → Bool
is_open CommandState.accepted = true
is_open CommandState.context_call_intent = true
is_open CommandState.context_ready = true
is_open _ = false

abbrev pub is_completed : Option RunState → Bool
is_completed (some RunState.completed) = true
is_completed _ = false

abbrev pub is_failed : Option RunState → Bool
is_failed (some RunState.failed) = true
is_failed _ = false

abbrev pub is_cancelled : Option RunState → Bool
is_cancelled (some RunState.cancelled) = true
is_cancelled _ = false

abbrev pub is_applied : CommandState → Bool
is_applied CommandState.applied = true
is_applied _ = false

abbrev pub is_rejected : CommandState → Bool
is_rejected CommandState.rejected = true
is_rejected _ = false

abbrev pub is_cancelled_command : CommandState → Bool
is_cancelled_command CommandState.cancelled = true
is_cancelled_command _ = false

abbrev pub is_cancel : Option CommandKind → Bool
is_cancel (some CommandKind.cancel) = true
is_cancel _ = false

-- command_kind in {START, CONTINUE}
abbrev pub is_run : Option CommandKind → Bool
is_run (some CommandKind.start) = true
is_run (some CommandKind.continue) = true
is_run _ = false

abbrev pub has_no_run : Option RunState → Bool
has_no_run none = true
has_no_run (some _) = false

-- The tests that are left when the output is absent
unfoldable pub absent_outcome : CommandState → Option RunState → Option CommandKind → CommandOutcome
absent_outcome command_state run_state command_kind =
    if is_cancel command_kind && is_applied command_state && has_no_run run_state
    then CommandOutcome.cancelled
    else if is_run command_kind && is_applied command_state && has_no_run run_state
    then CommandOutcome.protocol_error
    else if is_failed run_state || is_rejected command_state
    then CommandOutcome.failed
    else if is_cancelled run_state || is_cancelled_command command_state
    then CommandOutcome.cancelled
    else if is_completed run_state
    then CommandOutcome.completed
    else CommandOutcome.pending

unfoldable pub outcome_of_output :
    OutputState → CommandState → Option RunState → Option CommandKind → CommandOutcome
unfolding absent_outcome
outcome_of_output OutputState.unknown command_state run_state command_kind =
    CommandOutcome.protocol_error
outcome_of_output OutputState.present command_state run_state command_kind =
    if is_completed run_state then CommandOutcome.completed else CommandOutcome.protocol_error
outcome_of_output OutputState.pending command_state run_state command_kind =
    if is_completed run_state || is_failed run_state || is_cancelled run_state
    then CommandOutcome.protocol_error
    else CommandOutcome.pending
outcome_of_output OutputState.absent command_state run_state command_kind =
    absent_outcome command_state run_state command_kind

unfoldable pub closed_outcome :
    CommandState → OutputState → Option RunState → Option CommandKind → CommandOutcome
unfolding outcome_of_output
closed_outcome command_state output_state run_state command_kind =
    if is_open command_state
    then CommandOutcome.pending
    else outcome_of_output output_state command_state run_state command_kind

-- `CommandSnapshot`, without the receipt, which its readers pass on
pub record CommandSnapshot : Type 0 where
  pub output_state : OutputState
  pub output_text : Option (List ℕ)
  pub error_code : Option (List ℕ)
  pub run_state : Option RunState
  pub outcome : CommandOutcome

abbrev pub is_present : OutputState → Bool
is_present OutputState.present = true
is_present _ = false

-- The two tests of its constructor: only a present output has a text, and it has one.
unfoldable pub has_valid_output : CommandSnapshot → Bool
has_valid_output s =
    not (is_present s.output_state && is_none s.output_text)
    && not (not (is_present s.output_state) && is_some s.output_text)
