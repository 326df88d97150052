-- ===== src/Session/Tools.antt =====
-- The results of tool calls: `submit_tool_result`, `_submit_tool_result_attempt`, the output that
-- `_dispatch_tool` submits, and `_send_runtime_event`, of realtime/session.py. An attempt is split at
-- its awaits, since the receiver may change the record there; what the transport does with a send is
-- an input.
pub mod Forward
use simple_harness_service_s.Text.{codes}
use simple_harness_service_s.Events.{ToolCallState}
use simple_harness_service_s.Session.State.{Config, Session, ToolRecord, ToolAttempt}
use simple_harness_service_s.Session.Terminal.{fail}
use simple_harness_service_s.Session.Requests.{require_active}
use simple_harness_service_s.Common.{
  ℕ, ◌+◌, Bool, true, false, not, ◌&&◌, ◌||◌, Option, none, some, List, [], ◌∷◌, ◌++◌, String,
  string_eq, ◌==◌, ltb, if◌then◌else◌, contains, get, put, RealtimeErrorCode, Result, ok, raise,
  raise_if, ◌>>=◌, ◌>>◌, realtime_error, timeout, unavailable, protocol_error, unsupported,
  invalid_request,
}

-- len(text.encode("utf-8"))
unfoldable pub utf8_size : List ℕ → ℕ
utf8_size [] = 0
utf8_size (c ∷ rest) =
    (if ltb c 128 then 1 else if ltb c 2048 then 2 else if ltb c 65536 then 3 else 4)
    + utf8_size rest

-- What came of a write to the connection
pub data Write : Type 0 where
  delivered timed_out broken : Write
  refused : RealtimeErrorCode → Bool → Write

unfoldable pub send_runtime_event : Config → Write → Session → Session × Result (Unit {0})
send_runtime_event c delivered s = (s, ok tt)
send_runtime_event c timed_out s = (fail c timeout true s, raise (realtime_error timeout true))
send_runtime_event c (refused code is_retryable) s =
    (fail c code is_retryable s, raise (realtime_error code is_retryable))
send_runtime_event c broken s = (fail c unavailable true s, raise (realtime_error unavailable true))

-- not output or len(output.encode("utf-8")) > limit
unfoldable pub is_bad_output : Config → String → Bool
unfolding utf8_size
is_bad_output c output = output == "" || ltb c.limits.tool_payload_bytes (utf8_size (codes output))

-- What a dispatcher did with a call
pub data Dispatched : Type 0 where
  returned : String → Dispatched
  dispatch_timeout dispatch_failed : Dispatched

-- The output that `_dispatch_tool` submits
unfoldable pub dispatched_output : Config → Bool → Dispatched → String
unfolding is_bad_output
dispatched_output c true outcome = "{\"error\":\"invalid_arguments\"}"
dispatched_output c false (returned output) =
    if is_bad_output c output then "{\"error\":\"invalid_tool_output\"}" else output
dispatched_output c false dispatch_timeout = "{\"error\":\"tool_timeout\"}"
dispatched_output c false dispatch_failed = "{\"error\":\"tool_failed\"}"

unfoldable pub same_output : Option String → String → Bool
same_output none output = true
same_output (some before) output = before == output

-- record.attempt is None or record.attempt.done()
abbrev pub has_ended : Option ToolAttempt → Bool
has_ended none = true
has_ended (some attempt) = attempt.is_done

-- The attempt that is awaited: a new one, or the one that is under way, whatever it submits
unfoldable pub begin_attempt : String → ToolRecord → ToolRecord
begin_attempt output entry =
    if has_ended entry.attempt
    then record entry { attempt = some (record { output = output; is_done = false }) }
    else entry

-- `submit_tool_result` up to the wait for the attempt: the record of the call
unfoldable pub admit_result : Config → String → String → Session → Result ToolRecord
unfolding require_active is_bad_output same_output begin_attempt
admit_result c call_id output s = do
  require_active c s
  raise_if (not c.supports_tools) (realtime_error unsupported false)
  raise_if (is_bad_output c output) (realtime_error invalid_request false)
  elim (get s.tool_book.tools call_id) [
    | none ↦ raise (realtime_error invalid_request false)
    | some entry ↦ do
      raise_if (not (same_output entry.output output)) (realtime_error invalid_request false)
      ok (begin_attempt output entry)
  ]

abbrev pub is_requested : ToolCallState → Bool
is_requested ToolCallState.requested = true
is_requested _ = false

abbrev pub is_acked : ToolCallState → Bool
is_acked ToolCallState.result_acked = true
is_acked _ = false

-- if record.state is REQUESTED, in an attempt for `output`: the result is fixed, and its acknowledgement is awaited
unfoldable pub prepare_result : String → ToolRecord → ToolRecord
prepare_result output entry =
    if is_requested entry.state
    then record entry { state = ToolCallState.result_sent; output = some output; ack = some false }
    else entry

-- if record.state is RESULT_ACKED, on the state of the record
unfoldable pub followup_record : ToolRecord → ToolRecord
followup_record entry =
    if is_acked entry.state
    then record entry { state = ToolCallState.followup_requested }
    else entry

unfoldable pub store_record : String → ToolRecord → Session → Session
store_record call_id entry s = record s {
  tool_book = record s.tool_book { tools = put call_id entry s.tool_book.tools };
}

unfoldable pub request_followup : String → ToolRecord → Session → Session
unfolding followup_record store_record
request_followup call_id entry s =
    let stored = store_record call_id (followup_record entry) s in
    let queued = record stored {
      tool_book = record stored.tool_book {
        followup_waiting = stored.tool_book.followup_waiting ++ call_id ∷ [];
      };
    } in
    if is_acked entry.state
    then (if contains s.tool_book.followup_waiting call_id then stored else queued)
    else s

-- A send of the result or of the follow-up fails the attempt, not the session.
unfoldable pub attempt_send : Write → Result (Unit {0})
attempt_send delivered = ok tt
attempt_send timed_out = raise (realtime_error timeout true)
attempt_send _ = raise (realtime_error unavailable true)

-- The acknowledgement of the result does not come in time.
unfoldable pub ack_timeout : Config → Session → Session × Result (Unit {0})
ack_timeout c s = (fail c protocol_error false s, raise (realtime_error protocol_error false))
