-- ===== src/Tests/Calls.antt =====
-- A call over the local channel, on small inputs.

use simple_harness_service_s.Bytes.{Bytes, from_bytes_acc}
use simple_harness_service_s.Framing.{
  LocalPcmFrame, decode_pcm_frame, check_frame, unpack, direction_of,
}
use simple_harness_service_s.Window.{
  InputWindow, init as new_window, accept, drain, pop_next, insert_pending, store_frame,
}
use simple_harness_service_s.Call.{Ending, Call, Bounds, Problem, returns, init}
use simple_harness_service_s.Call.Channel.{fail, try_next, handle_problem}
use simple_harness_service_s.Call.Input.{
  join, take_frame, add_frame, add_payloads, add_payload, flush_input_batch, after_audio,
  acknowledge_input, send_input_ack, handle_input_audio,
}
use simple_harness_service_s.Call.Control.{LocalValue, receive_hello}
use simple_harness_service_s.Call.Closing.{IsClosedOnce}
use simple_harness_service_s.Call.Runs.{
  Run, here, next, hello, give_up, try_one, break_off, in_run, Run-IsClosedOnce,
}
use simple_harness_service_s.Call.Stream.{stream}
use simple_harness_service_s.Call.Stream.Whole.{
  take_all, unless_ended, AreDecoded, IsNormal, take_all-in_order,
}
use simple_harness_service_s.Window.Stream.{accept_all}
use simple_harness_service_s.Common.{
  List, ◌≡◌, refl, true, false, none, some, [], ◌∷◌, busy, ok, ◌++◌, get, put, remove,
}

abbrev bounds : Bounds
bounds = record { ack_every_frames = 16; input_batch_frames = 2 }

abbrev greeting : LocalValue
greeting = record {
  message_type = some "local.hello";
  generation = some 1;
  correlation = some "c";
  instructions = none;
  required_features = none;
  reason = none;
}

abbrev greeted : Call
greeted = in_run (receive_hello (some greeting) (λ c. true) init)

abbrev failed : Call
failed = try_next true (fail busy false greeted)

-- A greeting, a failure, the first of its messages, and the loss of the connection
abbrev run_failed : Run bounds (handle_problem Problem.connection_lost failed)
run_failed =
    next
      (next (next (next here (hello init (some greeting) (λ c. true))) (give_up greeted busy false))
        (try_one (fail busy false greeted) true))
      (break_off failed Problem.connection_lost)

Run-IsClosedOnce_example : IsClosedOnce (handle_problem Problem.connection_lost failed)
Run-IsClosedOnce_example =
    Run-IsClosedOnce bounds (handle_problem Problem.connection_lost failed) run_failed

abbrev active : Call
active = record init {
  generation = 1;
  ready = true;
  has_session = true;
  input_window = some (new_window 1);
}

-- An input frame of generation 1 with the sequence number 1 and two bytes
abbrev first_payload : Bytes
first_payload =
    83 ∷ 72 ∷ 82 ∷ 84 ∷ 1 ∷ 1 ∷ 0 ∷ 0 ∷ 0 ∷ 0 ∷ 0 ∷ 1 ∷ 0 ∷ 0 ∷ 0 ∷ 0 ∷ 0 ∷ 0 ∷ 0 ∷ 1 ∷ 0 ∷ 0 ∷ 0
    ∷ 2 ∷ 7 ∷ 8 ∷ []

-- The second frame has come first.
abbrev waiting : InputWindow
waiting = record {
  generation = 1;
  highest_contiguous = 0;
  pending = (2, 9 ∷ 10 ∷ []) ∷ [];
  pending_bytes = 2;
}

abbrev handled : Call × Ending
handled =
    take_all bounds (λ k. returns) returns (first_payload ∷ [])
      (record active { input_window = some waiting })

handled-IsNormal : IsNormal handled
unfolding init take_all handle_input_audio decode_pcm_frame check_frame unpack direction_of
    from_bytes_acc unless_ended take_frame add_frame add_payloads add_payload flush_input_batch
    after_audio acknowledge_input send_input_ack accept store_frame insert_pending drain pop_next
    get put remove
handled-IsNormal = (refl, refl)

take_all-in_order_example :
    (frames : List LocalPcmFrame) × (w' : InputWindow) × (out : List Bytes) × AreDecoded
      (first_payload ∷ [])
      frames
    × (accept_all waiting frames ≡ ok (w', out))
    × (stream handled.0 ≡ stream active ++ join out)
unfolding init stream
take_all-in_order_example =
    take_all-in_order bounds (λ k. returns) returns (first_payload ∷ []) waiting
      (record active { input_window = some waiting }) refl refl handled-IsNormal
