-- ===== src/Chat/Reconcile.antt =====
-- `_reconcile` of chat_controller.py: what the snapshots of the start command and of the cancel command
-- say about the end of a run.
pub mod Verdict
pub mod Open
use simple_harness_service_s.Text.{codes}
use simple_harness_service_s.Commands.{
  CommandSnapshot, CommandOutcome, is_completed, is_failed, is_cancelled, is_present,
}
use simple_harness_service_s.Chat.State.{
  Text, ChatEvent, completed, failed, cancelled, protocol_error,
}
use simple_harness_service_s.Common.{
  Bool, true, false, not, ◌&&◌, ◌||◌, Option, none, some, List, [], ◌∷◌, is_some, is_none,
  if◌then◌else◌,
}

-- (start,) if cancel is None else (start, cancel)
abbrev pub snapshots_of : CommandSnapshot → Option CommandSnapshot → List CommandSnapshot
snapshots_of start none = start ∷ []
snapshots_of start (some cancel) = start ∷ cancel ∷ []

-- any(...) and all(...)
unfoldable pub any : (CommandSnapshot → Bool) → List CommandSnapshot → Bool
any test [] = false
any test (item ∷ rest) = test item || any test rest

unfoldable pub all : (CommandSnapshot → Bool) → List CommandSnapshot → Bool
all test [] = true
all test (item ∷ rest) = test item && all test rest

abbrev pub is_outcome_completed : CommandOutcome → Bool
is_outcome_completed CommandOutcome.completed = true
is_outcome_completed _ = false

abbrev pub is_outcome_cancelled : CommandOutcome → Bool
is_outcome_cancelled CommandOutcome.cancelled = true
is_outcome_cancelled _ = false

abbrev pub is_outcome_error : CommandOutcome → Bool
is_outcome_error CommandOutcome.protocol_error = true
is_outcome_error _ = false

-- COMPLETED, FAILED or CANCELLED
abbrev pub is_outcome_closed : CommandOutcome → Bool
is_outcome_closed CommandOutcome.completed = true
is_outcome_closed CommandOutcome.failed = true
is_outcome_closed CommandOutcome.cancelled = true
is_outcome_closed _ = false

-- Which of the terminal run states the snapshots show
pub record TerminalStates : Type 0 where
  pub completed : Bool
  pub failed : Bool
  pub cancelled : Bool

unfoldable pub terminal_states : List CommandSnapshot → TerminalStates
unfolding any
terminal_states items = record {
  completed = any (λ item. is_completed item.run_state) items;
  failed = any (λ item. is_failed item.run_state) items;
  cancelled = any (λ item. is_cancelled item.run_state) items;
}

-- len(terminal_states) > 1
abbrev pub is_conflict : TerminalStates → Bool
is_conflict t =
    (t.completed && t.failed) || ((t.completed && t.cancelled) || (t.failed && t.cancelled))

-- The end of a completed run
unfoldable pub completed_run : CommandSnapshot → ChatEvent
completed_run start = elim start.output_text [
  | none ↦ protocol_error (codes "completed run lacks start output")
  | some text ↦
      if not (is_outcome_completed start.outcome) || not (is_present start.output_state)
      then protocol_error (codes "completed run lacks start output")
      else completed text
]

-- start.error_code or (cancel.error_code if cancel else None): the empty text is false, too
unfoldable pub error_of : Option Text → Option CommandSnapshot → Option Text
error_of (some (c ∷ code)) cancel = some (c ∷ code)
error_of _ none = none
error_of _ (some cancel) = cancel.error_code

-- No snapshot shows a terminal run state.
unfoldable pub reconcile_open : CommandSnapshot → Option CommandSnapshot → Option ChatEvent
unfolding any all
reconcile_open start cancel =
    let items = snapshots_of start cancel in
    if any (λ item. is_outcome_error item.outcome) items
    then some (protocol_error (codes "backend protocol error"))
    else if is_some cancel
        && all (λ item. is_outcome_cancelled item.outcome && is_none item.run_state) items
    then some cancelled
    else if any (λ item. is_outcome_closed item.outcome) items
    then some (protocol_error (codes "closed command lacks authoritative run state"))
    else none

unfoldable pub reconcile : CommandSnapshot → Option CommandSnapshot → Option ChatEvent
unfolding terminal_states completed_run error_of reconcile_open
reconcile start cancel =
    let t = terminal_states (snapshots_of start cancel) in
    if is_conflict t
    then some (protocol_error (codes "conflicting terminal run states"))
    else if t.completed
    then some (completed_run start)
    else if t.failed
    then some (failed (error_of start.error_code cancel))
    else if t.cancelled
    then some cancelled
    else reconcile_open start cancel
