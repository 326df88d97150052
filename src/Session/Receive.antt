-- ===== src/Session/Receive.antt =====
-- One round of `_receive_loop` of realtime/session.py, and the loop over what arrives. The transport
-- and the two decoders are other parts: a round is given what they returned or raised.
use simple_harness_service_s.Events.{
  RealtimeEvent, session_closed, session_failed, CloseInitiator, client, relay, CloseDisposition,
  clean, SessionClosed, DecodedProviderEvent,
}
use simple_harness_service_s.Session.State.{Config, Session, is_current_generation}
use simple_harness_service_s.Session.Queue.{emit}
use simple_harness_service_s.Session.Terminal.{fail, finish_terminal, disposition_of}
use simple_harness_service_s.Session.Flow.{Flow, go, halt, thrown}
use simple_harness_service_s.Session.Batch.{count_late, count_duplicate}
use simple_harness_service_s.Session.Apply.{apply}
use simple_harness_service_s.Common.{
  ◌+◌, Bool, true, false, ◌&&◌, not, Option, none, some, List, [], ◌∷◌, String, string_eq, ◌==◌,
  if◌then◌else◌, contains, add, is_none, RealtimeErrorCode, unavailable, busy, internal,
}

pub data Received : Type 0 where
  receive_failed : RealtimeErrorCode → Bool → Received
  receive_crashed : Received
  end_of_stream : Received
  control_invalid : RealtimeErrorCode → Bool → Received
  control_event : RealtimeEvent → Received
  provider_invalid : RealtimeErrorCode → Bool → Received
  provider_crashed : Received
  provider_event : DecodedProviderEvent → Received

-- except RealtimeError; the Boolean is whether the loop goes on
unfoldable pub caught : Config → RealtimeErrorCode → Bool → Session → Session × Bool
caught c code is_retryable s =
    if s.terminal.closing then (count_late s, true) else (fail c code is_retryable s, false)

abbrev pub is_client : CloseInitiator → Bool
is_client client = true
is_client _ = false

abbrev pub is_clean : CloseDisposition → Bool
is_clean clean = true
is_clean _ = false

abbrev pub same_id : Option String → Option String → Bool
same_id none none = true
same_id (some a) (some b) = a == b
same_id _ _ = false

-- The acknowledgement that a controlled close waits for.
abbrev pub is_valid_ack : SessionClosed → Session → Bool
is_valid_ack e s =
    same_id e.related_event_id s.pending_close_event_id
    && (is_client e.initiator && is_clean e.disposition)

unfoldable pub on_closing_control : RealtimeEvent → Session → Session
on_closing_control (session_closed e) s =
    if is_valid_ack e s
    then (if is_none s.close_ack then record s { close_ack = some e } else s)
    else record s { close_ack_mismatch_count = s.close_ack_mismatch_count + 1 }
on_closing_control event s = count_late s

-- if not await self._emit(control_event): await self._fail(BUSY, retryable=False); return
unfoldable pub relay_event : Config → RealtimeEvent → Session → Session × Bool
relay_event c event s =
    let (s', queued) = emit c event s in
    if queued then (s', true) else (fail c busy false s', false)

unfoldable pub on_control : Config → RealtimeEvent → Session → Session × Bool
unfolding relay_event
on_control c (session_failed e) s =
    (finish_terminal c (session_failed e) relay (disposition_of e.is_retryable) s, false)
on_control c (session_closed e) s =
    (finish_terminal c (session_closed e) e.initiator e.disposition s, false)
on_control c event s = relay_event c event s

unfoldable pub after_apply : Config → Flow → Session → Session × Bool
unfolding caught
after_apply c go s = (s, true)
after_apply c (halt true) s = (s, true)
after_apply c (halt false) s = (s, s.terminal.closing && not s.terminal.terminal_published)
after_apply c thrown s = caught c internal false s

unfoldable pub on_provider_event : Config → DecodedProviderEvent → Session → Session × Bool
unfolding after_apply
on_provider_event c d s =
    if contains s.seen_event_ids d.event_id
    then (count_duplicate s, true)
    else let (s', flow) =
        apply c d (record s { seen_event_ids = add d.event_id s.seen_event_ids }) in
      after_apply c flow s'

-- Past the tests on the stream and the generation.
unfoldable pub dispatch : Config → Received → Session → Session × Bool
unfolding caught on_closing_control on_control on_provider_event
dispatch c (control_invalid code is_retryable) s = caught c code is_retryable s
dispatch c (control_event event) s =
    if s.terminal.closing then (on_closing_control event s, true) else on_control c event s
dispatch c (provider_invalid code is_retryable) s =
    if s.terminal.closing then (count_late s, true) else caught c code is_retryable s
dispatch c provider_crashed s =
    if s.terminal.closing then (count_late s, true) else caught c internal false s
dispatch c (provider_event d) s =
    if s.terminal.closing then (count_late s, true) else on_provider_event c d s
dispatch c (receive_failed code is_retryable) s = caught c code is_retryable s
dispatch c receive_crashed s = caught c internal false s
dispatch c end_of_stream s = (s, false)

unfoldable pub is_payload : Received → Bool
is_payload (receive_failed code is_retryable) = false
is_payload receive_crashed = false
is_payload end_of_stream = false
is_payload _ = true

unfoldable pub on_end : Config → Session → Session × Bool
on_end c s = if s.terminal.closing then (s, false) else (fail c unavailable true s, false)

unfoldable pub receive_round : Config → Received → Session → Session × Bool
unfolding is_payload on_end
receive_round c end_of_stream s = on_end c s
receive_round c received s =
    if is_payload received && (not (is_current_generation c s) && not s.terminal.closing)
    then (count_late s, true)
    else dispatch c received s

-- while not self._terminal_published.is_set()
unfoldable pub receive_loop : Config → List Received → Session → Session
receive_loop c [] s = s
receive_loop c (received ∷ rest) s = elim s.terminal.terminal_published [
  | true ↦ s
  | false ↦
      let (s', more) = receive_round c received s in
      let later = receive_loop c rest s' in if more then later else s'
]
