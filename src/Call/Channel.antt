-- ===== src/Call/Channel.antt =====
-- How the controller of realtime/local_channel.py writes to its channel, claims the terminal and fails:
-- `_send_json`, `_try_send_json`, `_claim_terminal`, `_fail`, `_close_session`, and the handlers of
-- exceptions in `run`. What `_fail` sends after its claim is left in `ending`, and each message is
-- tried in a step of its own.
use simple_harness_service_s.Events.{SessionClosed}
use simple_harness_service_s.Call.{
  Call, LocalMessage, call_state, call_error, call_closed, Problem, raised, connection_lost,
  unexpected, Attempt, returns, times_out, raises, Ending, goes_on, raising,
}
use simple_harness_service_s.Call.Reasons.{closed_reason, closed_reason_for_error}
use simple_harness_service_s.Common.{
  Bool, true, false, none, some, [], ◌∷◌, ◌++◌, if◌then◌else◌, RealtimeErrorCode, realtime_error,
  value_error, struct_error, key_error, protocol_error, internal, busy,
}

abbrev pub write : LocalMessage → Call → Call
write message s = record s { written = s.written ++ message ∷ [] }

-- `_send_json` with `_send_channel`
unfoldable pub send_json : Attempt → LocalMessage → Call → Call × Ending
send_json returns message s = (write message s, goes_on)
send_json times_out message s = (s, raising (raised (realtime_error busy false)))
send_json (raises p) message s = (s, raising p)

-- `_close_session`: whatever comes of the close, the session is given up.
abbrev pub close_session : Call → Call
close_session s = record s { has_session = false }

unfoldable pub fail : RealtimeErrorCode → Bool → Call → Call
unfolding closed_reason_for_error
fail code retryable s = if s.terminal then s else record s {
  terminal = true;
  has_session = false;
  ending =
      call_state "error"
      ∷ call_error code retryable
      ∷ call_closed (closed_reason_for_error code)
      ∷ [];
}

-- The branch of `_forward_events` on `SessionClosed`
unfoldable pub session_ended : SessionClosed → Call → Call
unfolding closed_reason
session_ended event s = if s.terminal then s else record s {
  terminal = true;
  ending =
      call_closed (elim s.requested_stop_reason [ none ↦ closed_reason event | some r ↦ r ]) ∷ [];
}

-- The owner of the terminal tries to send the next of its messages.
unfoldable pub try_next : Bool → Call → Call
try_next is_sent s = elim s.ending [
  | [] ↦ s
  | message ∷ rest ↦
      if is_sent then write message (record s { ending = rest }) else record s { ending = rest }
]

-- The `except` clauses of `run`
unfoldable pub handle_problem : Problem → Call → Call
unfolding fail
handle_problem connection_lost s = close_session s
handle_problem unexpected s = fail internal false s
handle_problem (raised (realtime_error code retryable)) s = fail code retryable s
handle_problem (raised value_error) s = fail protocol_error false s
handle_problem (raised struct_error) s = fail internal false s
handle_problem (raised key_error) s = fail internal false s

-- Its `finally` clause
unfoldable pub leave_run : Call → Call
leave_run s = record s { has_ack_timer = false; has_session = false }

-- The `except` clauses of `_forward_events`
unfoldable pub handle_stream_problem : Problem → Call → Call
unfolding fail
handle_stream_problem (raised (realtime_error code retryable)) s = fail code retryable s
handle_stream_problem p s = fail internal false s
