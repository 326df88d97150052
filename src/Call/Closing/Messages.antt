-- ===== src/Call/Closing/Messages.antt =====
-- The messages of the client, and the session that becomes ready, close a call at most once
-- (realtime/local_channel.py).

use simple_harness_service_s.Events.{SessionReady}
use simple_harness_service_s.Call.{
  Call, call_state, call_ready, Problem, raised, Attempt, returns, times_out, raises, stopped,
  raising, ◌▸◌,
}
use simple_harness_service_s.Call.Channel.{send_json, close_session, fail}
use simple_harness_service_s.Call.Input.{flush_input_batch, unless_terminal}
use simple_harness_service_s.Call.Control.{
  LocalValue, World, Opened, opened, refused, protocol_problem, receive_hello, is_start, after_open,
  start_call, after_closing, stop_with, is_stop_reason, stop_call, after_cancel, barge_in,
  handle_kind, kind_of, type_of, has_generation, MessageKind, starting, stopping, interrupting,
  acknowledging, other, handle_message, session_ready,
}
use simple_harness_service_s.Call.Reasons.{allowed}
use simple_harness_service_s.Call.Closing.{IsClosedOnce, send_json-IsClosedOnce, fail-IsClosedOnce}
use simple_harness_service_s.Call.Closing.Handlers.{Leaves, ▸-Leaves, flush-Leaves}
use simple_harness_service_s.Common.{
  ◌≡◌, refl, Bool, true, false, not, ◌||◌, Option, none, some, String, string_eq, nat_eq, ◌==◌,
  contains, arith, length, ◌+◌, realtime_error, value_error, struct_error, key_error,
  protocol_error, timeout, if-split, Bool-cases, Option-cases, inl, inr,
}

after_open-Leaves : (o : Opened) (s : Call) → IsClosedOnce s → Leaves (after_open o s)
unfolding after_open
after_open-Leaves opened s c = record { proper = c.proper; stop = c.stop }
after_open-Leaves (refused (raised (realtime_error code retryable))) s c =
    fail-IsClosedOnce code retryable s c
after_open-Leaves (refused (raised value_error)) s c = c
after_open-Leaves (refused (raised struct_error)) s c = c
after_open-Leaves (refused (raised key_error)) s c = c
after_open-Leaves (refused Problem.connection_lost) s c = c
after_open-Leaves (refused Problem.unexpected) s c = c

start_call-Leaves :
    (a : Attempt) (o : Opened) (v : LocalValue) (s : Call)
    → IsClosedOnce s
    → Leaves (start_call a o v s)
unfolding start_call
start_call-Leaves a o v s c =
    let s' : Call = record s { started = true } in
    if-split Leaves (s.started || not (is_start v)) (s, raising protocol_problem)
      (send_json a (call_state "connecting") s' ▸ after_open o) (λ e. c)
      (λ e.
        ▸-Leaves (send_json a (call_state "connecting") s') (after_open o)
          (send_json-IsClosedOnce a (call_state "connecting") s' refl
            (record { proper = c.proper; stop = c.stop }))
          (after_open-Leaves o))

after_closing-Leaves :
    (in_time : Bool) (s : Call) → IsClosedOnce s → Leaves (after_closing in_time s)
unfolding after_closing
after_closing-Leaves true s c = record { proper = c.proper; stop = c.stop }
after_closing-Leaves false s c =
    fail-IsClosedOnce timeout true (close_session s) (record { proper = c.proper; stop = c.stop })

stop_with-Leaves :
    (a b : Attempt) (in_time : Bool) (reason : String) (s : Call)
    → contains allowed reason ≡ true
    → IsClosedOnce s
    → Leaves (stop_with a b in_time reason s)
unfolding stop_with
stop_with-Leaves a b in_time reason s good c =
    let s' : Call = record s { requested_stop_reason = some reason } in
    let flushed = flush-Leaves a s' (record { proper = c.proper; stop = good }) in
    let tested = ▸-Leaves (flush_input_batch a s') unless_terminal flushed (λ s c. c) in
    let told =
      ▸-Leaves (flush_input_batch a s' ▸ unless_terminal) (send_json b (call_state "closing"))
        tested (λ s c. send_json-IsClosedOnce b (call_state "closing") s refl c) in
    ▸-Leaves (flush_input_batch a s' ▸ unless_terminal ▸ send_json b (call_state "closing"))
      (after_closing in_time) told (after_closing-Leaves in_time)

stop-allowed : (reason : String) → is_stop_reason reason ≡ true → contains allowed reason ≡ true
unfolding contains is_stop_reason
stop-allowed reason h = ground arith

stop_call-Leaves :
    (a b : Attempt) (in_time : Bool) (v : LocalValue) (s : Call)
    → IsClosedOnce s
    → Leaves (stop_call a b in_time v s)
unfolding stop_call
stop_call-Leaves a b in_time v s c = elim (Option-cases v.reason) [
  | inl missing ↦ rw (missing, stop_call) c
  | inr (reason, found) ↦
      rw (found, stop_call)
        (elim (Bool-cases (is_stop_reason reason)) [
          | inl good ↦
              if-split Leaves (not s.started || not (is_stop_reason reason))
                (s, raising protocol_problem) (stop_with a b in_time reason s) (λ e. c)
                (λ e. stop_with-Leaves a b in_time reason s (stop-allowed reason good) c)
          | inr bad ↦
              if-split Leaves (not s.started || not (is_stop_reason reason))
                (s, raising protocol_problem) (stop_with a b in_time reason s) (λ e. c)
                (λ e. absurd (ground arith))
        ])
]

after_cancel-Leaves : (a : Attempt) (s : Call) → IsClosedOnce s → Leaves (after_cancel a s)
after_cancel-Leaves returns s c = c
after_cancel-Leaves times_out s c = c
after_cancel-Leaves (raises p) s c = c

barge_in-Leaves : (a b : Attempt) (s : Call) → IsClosedOnce s → Leaves (barge_in a b s)
unfolding barge_in
barge_in-Leaves a b s c =
    if-split Leaves (not s.ready || not s.has_session) (s, raising protocol_problem)
      (flush_input_batch a s ▸ unless_terminal ▸ after_cancel b) (λ e. c)
      (λ e.
        ▸-Leaves (flush_input_batch a s ▸ unless_terminal) (after_cancel b)
          (▸-Leaves (flush_input_batch a s) unless_terminal (flush-Leaves a s c) (λ s c. c))
          (after_cancel-Leaves b))

handle_kind-Leaves :
    (o : World) (acknowledged : Option Problem) (v : LocalValue) (k : MessageKind) (s : Call)
    → IsClosedOnce s
    → Leaves (handle_kind o acknowledged v k s)
unfolding handle_kind
handle_kind-Leaves o acknowledged v starting s c = start_call-Leaves o.sending o.opening v s c
handle_kind-Leaves o acknowledged v stopping s c =
    stop_call-Leaves (o.audio (length s.heard)) o.sending o.in_time v s c
handle_kind-Leaves o acknowledged v interrupting s c =
    barge_in-Leaves (o.audio (length s.heard)) o.cancelling s c
handle_kind-Leaves o acknowledged v acknowledging s c = c
handle_kind-Leaves o acknowledged v other s c = c

pub handle_message-Leaves :
    (o : World) (acknowledged : Option Problem) (v : LocalValue) (s : Call)
    → IsClosedOnce s
    → Leaves (handle_message o acknowledged v s)
unfolding handle_message
handle_message-Leaves o acknowledged v s c =
    if-split Leaves (not (has_generation s.generation v))
      (record s { late_frame_count = s.late_frame_count + 1 }, stopped)
      (handle_kind o acknowledged v (kind_of (type_of v)) s)
      (λ e. record { proper = c.proper; stop = c.stop })
      (λ e. handle_kind-Leaves o acknowledged v (kind_of (type_of v)) s c)

pub receive_hello-Leaves :
    (v : Option LocalValue) (is_correlation : String → Bool) (s : Call)
    → IsClosedOnce s
    → Leaves (receive_hello v is_correlation s)
unfolding receive_hello
receive_hello-Leaves none is_correlation s c = c
receive_hello-Leaves (some v) is_correlation s c = ground (arith, c.proper, c.stop)

pub session_ready-Leaves :
    (a b : Attempt) (event : SessionReady) (s : Call)
    → IsClosedOnce s
    → Leaves (session_ready a b event s)
unfolding session_ready
session_ready-Leaves a b event s c =
    let s' : Call = record s { ready = true; output_audio = event.output_audio } in
    let m = call_ready event.correlation event.input_audio event.output_audio in
    if-split Leaves (s.ready || not (event.correlation == s.correlation))
      (fail protocol_error false s, stopped) (send_json a m s' ▸ send_json b (call_state "active"))
      (λ e. fail-IsClosedOnce protocol_error false s c)
      (λ e.
        ▸-Leaves (send_json a m s') (send_json b (call_state "active"))
          (send_json-IsClosedOnce a m s' refl (record { proper = c.proper; stop = c.stop }))
          (λ s c. send_json-IsClosedOnce b (call_state "active") s refl c))
