-- ===== src/Session/Terminal.antt =====
-- Who ends a session: `_claim_terminal`, `_claim_clean_close_intent`, `_finish_terminal`, `_fail` and
-- `_shutdown_connection` of realtime/session.py, and the end of `_controlled_close`.
use simple_harness_service_s.Events.{
  RealtimeEvent, CloseInitiator, client, provider, CloseDisposition, clean, retryable, fatal,
  SessionClosed, session_closed, session_failed, response_finished, ResponseStatus,
}
use simple_harness_service_s.Session.State.{Config, Session, Terminal, Pending, waiting, rejected}
use simple_harness_service_s.Session.Queue.{emit_terminal_safe}
use simple_harness_service_s.Common.{
  Bool, true, false, Option, none, some, List, [], ◌∷◌, String, string_eq, Dict, if◌then◌else◌,
  RealtimeErrorCode, cancelled, contains, add,
}

-- Pending acknowledgements fail, and those that are done stay as they are.
unfoldable pub reject_pending : Dict String Pending → Dict String Pending
reject_pending [] = []
reject_pending ((id, waiting) ∷ d) = (id, rejected cancelled) ∷ reject_pending d
reject_pending ((id, p) ∷ d) = (id, p) ∷ reject_pending d

-- The acknowledgements that are waited for fail. The closing of the connection and the cancelling of the
-- tasks, which follow, are not part of the state.
unfoldable pub shutdown_connection : Session → Session
unfolding reject_pending
shutdown_connection s = if s.terminal.shutdown_complete then s else record s {
  terminal = record s.terminal { shutdown_complete = true };
  context_pending = reject_pending s.context_pending;
}

-- The claim of the terminal, on the part of the state that it reads: `none` if it is owned already.
unfoldable pub claim_terminal : CloseInitiator → CloseDisposition → Terminal → Option Terminal
claim_terminal initiator disposition t = elim t.terminal_owner [
  | some owner ↦ none
  | none ↦ some (record t { terminal_owner = some (initiator, disposition) })
]

unfoldable pub claim_clean_close_intent : Session → Session × Bool
claim_clean_close_intent s = elim s.terminal.terminal_owner [
  | some owner ↦ (s, false)
  | none ↦ (
    record s {
      terminal = record s.terminal { terminal_owner = some (client, clean); closing = true };
    },
    true,
  )
]

abbrev pub failure_code : RealtimeEvent → Option RealtimeErrorCode
failure_code (session_failed e) = some e.code
failure_code e = none

abbrev pub publish : Session → Session
publish s = record s { terminal = record s.terminal { terminal_published = true } }

unfoldable pub finish_terminal :
    Config → RealtimeEvent → CloseInitiator → CloseDisposition → Session → Session
unfolding claim_terminal shutdown_connection
finish_terminal c event initiator disposition s =
    elim (claim_terminal initiator disposition s.terminal) [
      | none ↦ s
      | some claimed ↦
          let owned = record s {
            terminal = record claimed { terminal_error_code = failure_code event };
          } in
          shutdown_connection (publish (emit_terminal_safe c event owned))
    ]

-- CloseDisposition.RETRYABLE if retryable else CloseDisposition.FATAL
abbrev pub disposition_of : Bool → CloseDisposition
disposition_of true = retryable
disposition_of false = fatal

unfoldable pub fail : Config → RealtimeErrorCode → Bool → Session → Session
unfolding finish_terminal
fail c code is_retryable s =
    finish_terminal c (session_failed (record { code = code; is_retryable = is_retryable }))
      provider (disposition_of is_retryable) s

-- for response_id in reversed(self._response_order): the last that is not terminal
unfoldable pub last_open : List String → List String → Option String
last_open terminal_responses [] = none
last_open terminal_responses (r ∷ order) = elim (last_open terminal_responses order) [
  | some later ↦ some later
  | none ↦ if contains terminal_responses r then none else some r
]

unfoldable pub current_response : Session → Option String
unfolding last_open
current_response s = last_open s.conversation.terminal_responses s.conversation.response_order

-- The response that is still open is finished locally, as cancelled.
unfoldable pub finish_current_response : Config → Session → Session
unfolding current_response
finish_current_response c s = elim (current_response s) [
  | none ↦ s
  | some response_id ↦
      let finished = response_finished (record {
        response_id = response_id;
        status = ResponseStatus.cancelled;
        usage = none;
        local = true;
      }) in
      let s' = emit_terminal_safe c finished s in
      record s' {
        conversation = record s'.conversation {
          terminal_responses = add response_id s'.conversation.terminal_responses;
        };
      }
]

-- `dataclasses.replace(acknowledgement, reason=reason)`, or the close that needs none
abbrev pub close_event : String → Option SessionClosed → SessionClosed
close_event reason (some acknowledgement) = record acknowledgement { reason = reason }
close_event reason none = record {
  reason = reason;
  initiator = client;
  disposition = clean;
  active_response = "none";
  settlement = "none";
  related_event_id = none;
}

-- `_controlled_close` up to the sending of the close event.
unfoldable pub start_close : String → Session → Session × Bool
unfolding claim_clean_close_intent
start_close event_id s =
    let (s', claimed) = claim_clean_close_intent s in
    if claimed
    then (record s' { pending_close_event_id = some event_id; close_ack = none }, true)
    else (s', false)

-- The rest of it, once the acknowledgement has come (`close_ack`) or its deadline has passed.
unfoldable pub complete_close : Config → String → Session → Session
unfolding finish_current_response shutdown_connection
complete_close c reason s =
    let terminal_event = session_closed (close_event reason s.close_ack) in
    shutdown_connection
      (publish (emit_terminal_safe c terminal_event (finish_current_response c s)))
