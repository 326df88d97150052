-- ===== src/Session/Tools/Forward.antt =====
-- The attempt that sends the output of a tool call (realtime/session.py), and the state of the call.
use simple_harness_service_s.Events.{ToolCallState}
use simple_harness_service_s.Session.State.{Session, ToolRecord, ToolAttempt}
use simple_harness_service_s.Session.Tools.{is_requested, prepare_result, followup_record}
use simple_harness_service_s.Common.{
  ◌⊎◌, false, ℕ, ◌≤◌, ◌≡◌, true, false, ◌||◌, Option, none, some, String, string_eq, is_some,
}

-- How far a tool call has come
unfoldable pub rank : ToolCallState → ℕ
rank ToolCallState.requested = 0
rank ToolCallState.result_sent = 1
rank ToolCallState.result_acked = 2
rank ToolCallState.followup_requested = 3
rank ToolCallState.followup_started = 4

-- From the sending of its result on, a call has an output, and an attempt that is under way is for this
-- output.
pub record IsRecorded (entry : ToolRecord) : Type 0 where
  pub recorded : (is_requested entry.state || is_some entry.output) ≡ true
  pub attempted :
      (a : ToolAttempt) (o : String)
      → entry.attempt ≡ some a
      → a.is_done ≡ false
      → entry.output ≡ some o
      → o ≡ a.output

-- The attempt that a submission of `output` waits for
pub record IsAwaited (output : String) (entry entry' : ToolRecord) : Type 0 where
  pub attempt : ToolAttempt
  pub awaited : entry'.attempt ≡ some attempt
  pub running : attempt.is_done ≡ false
  pub own : (attempt.output ≡ output) ⊎ ((entry.output ≡ none) × (entry.attempt ≡ some attempt))
  pub well_formed : IsRecorded entry'
  pub same_state : entry'.state ≡ entry.state

-- What the attempt for `output` does to the record before its sends
pub record IsSent (output : String) (entry : ToolRecord) : Type 0 where
  pub sent : (prepare_result output entry).output ≡ some output
  pub well_formed : IsRecorded (prepare_result output entry)
  pub forward : rank entry.state ≤ rank (prepare_result output entry).state
  pub later_forward : rank entry.state ≤ rank (followup_record entry).state
