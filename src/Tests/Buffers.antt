-- ===== src/Tests/Buffers.antt =====
-- The audio windows and the queues, on small inputs.
use simple_harness_service_s.Bytes.{Bytes}
use simple_harness_service_s.Framing.{LocalPcmFrame, input}
use simple_harness_service_s.Window.{
  InputWindow, window_frames, window_bytes, accept, store_frame, insert_pending, drain, pop_next,
}
use simple_harness_service_s.Window.Spec.{received, IsValid, init-IsValid}
use simple_harness_service_s.Window.Accept.{accept-refines, accept-raises, IsGuarded}
use simple_harness_service_s.Window.Stream.{accept_all, first_payload, accept_all-in_order}
use simple_harness_service_s.Sequence.{SequenceWindow, is_seen, store, advance_all, advance}
use simple_harness_service_s.Sequence.Once.{accept-once}
use simple_harness_service_s.Outputs.{Outputs, finished, forward}
use simple_harness_service_s.Outputs.Memory
use simple_harness_service_s.Outputs.Memory.{forward-IsBounded}
use simple_harness_service_s.OutputFlow.{
  OutputFlow, AudioAck, handle_output_ack, send_output_chunk, store_ack, pop_all, pop_acknowledged,
  acknowledged_size,
}
use simple_harness_service_s.OutputFlow.Ack.{IsNumbered, sizes}
use simple_harness_service_s.OutputFlow.Bounds.{
  send_output_chunk-IsValid, handle_output_ack-IsValid, handle_output_ack-forward,
}
use simple_harness_service_s.OutputFlow.Bounds
use simple_harness_service_s.Sequence
use simple_harness_service_s.Window
use simple_harness_service_s.Common.{
  ◌||◌, ℕ, ◌+◌, ◌≤◌, ◌<◌, ◌≡◌, refl, true, false, ◌&&◌, none, some, is_none, List, [], ◌∷◌, ◌++◌,
  length, get_elem?, get, put, remove, nat_eq, ◌==◌, contains, add, discard, if◌then◌else◌, ok,
  arith,
}

abbrev heard : ℕ → Bytes → LocalPcmFrame
heard n payload = record { direction = input; generation = 1; sequence = n; payload = payload }

abbrev handed_on : List Bytes
handed_on = (3 ∷ 4 ∷ []) ∷ (5 ∷ 6 ∷ []) ∷ []

-- The second frame comes first.
abbrev swapped : List LocalPcmFrame
swapped = heard 2 (5 ∷ 6 ∷ []) ∷ heard 1 (3 ∷ 4 ∷ []) ∷ []

abbrev after_swapped : InputWindow
after_swapped = record { generation = 1; highest_contiguous = 2; pending = []; pending_bytes = 0 }

accept_all-in_order_example :
    (length handed_on ≡ after_swapped.highest_contiguous)
    × ((i : ℕ) → i < length handed_on → get_elem? handed_on i ≡ first_payload 1 swapped i)
    × (first_payload 1 swapped (length handed_on) ≡ none)
    × ((i : ℕ)
        → length handed_on ≤ i
        → get after_swapped.pending (i + 1) ≡ first_payload 1 swapped i)
    × (after_swapped.pending_bytes ≤ window_bytes)
unfolding accept_all Window.accept Window.init store_frame insert_pending drain pop_next get put
    remove
accept_all-in_order_example = accept_all-in_order 1 swapped after_swapped handed_on refl

abbrev one_waits : InputWindow
one_waits = record {
  generation = 1;
  highest_contiguous = 0;
  pending = (2, 5 ∷ 6 ∷ []) ∷ [];
  pending_bytes = 2;
}

first_waits : accept (Window.init 1) (heard 2 (5 ∷ 6 ∷ [])) ≡ ok (one_waits, [])
unfolding Window.accept Window.init store_frame insert_pending drain pop_next get put remove
first_waits = refl

accept-refines_example :
    IsValid one_waits ([] ++ [])
    × ((i : ℕ)
        → received one_waits ([] ++ []) i ≡ (
            if 1 == (Window.init 1).generation
              && (2 == i + 1 && is_none (received (Window.init 1) [] i))
            then some (5 ∷ 6 ∷ [])
            else received (Window.init 1) [] i))
accept-refines_example =
    accept-refines (Window.init 1) [] (heard 2 (5 ∷ 6 ∷ [])) one_waits [] (init-IsValid 1)
      first_waits

accept-raises_example : IsGuarded one_waits (heard 99 [])
accept-raises_example = accept-raises one_waits (heard 99 [])

abbrev nothing_seen : SequenceWindow
nothing_seen = record {
  generation = 1;
  direction = input;
  window = 64;
  highest_contiguous = 0;
  pending = [];
}

abbrev one_seen : SequenceWindow
one_seen = record {
  generation = 1;
  direction = input;
  window = 64;
  highest_contiguous = 1;
  pending = [];
}

seen_once : Sequence.accept (heard 1 []) nothing_seen ≡ ok (one_seen, true)
unfolding Sequence.accept is_seen Sequence.store advance_all advance contains add discard
seen_once = refl

accept-once_example :
    (is_seen 1 nothing_seen ≡ false)
    × ((n : ℕ) → is_seen n one_seen ≡ (1 == n || is_seen n nothing_seen))
    × (Sequence.accept (heard 1 []) one_seen ≡ ok (one_seen, false))
    × (contains one_seen.pending (one_seen.highest_contiguous + 1) ≡ false)
accept-once_example = accept-once (heard 1 []) nothing_seen one_seen seen_once

-- Two chunks of 480 bytes are sent at 24 kHz, and the first is acknowledged and played.
abbrev two_sent : OutputFlow
two_sent = record {
  ready = true;
  terminal = false;
  current = true;
  output_audio = record { codec = "pcm_s16le"; sample_rate = 24000; channels = 1 };
  output_sequence = 2;
  output_acked = 0;
  output_acked_bytes = 0;
  output_pending = (1, 480) ∷ (2, 480) ∷ [];
  output_pending_bytes = 960;
  played_audio_ms = 0;
  late_frame_count = 0;
}

two_sent-IsValid : Bounds.IsValid two_sent
unfolding IsNumbered sizes
two_sent-IsValid = record {
  numbered = (refl, (refl, refl));
  counted = refl;
  few = omega arith;
  small = omega arith;
  heard = omega arith;
}

abbrev one_acked : OutputFlow
one_acked = record two_sent {
  output_acked = 1;
  output_acked_bytes = 480;
  output_pending = (2, 480) ∷ [];
  output_pending_bytes = 480;
  played_audio_ms = 10;
}

abbrev first_ack : AudioAck
first_ack = record {
  direction = "output";
  highest_contiguous_sequence = some 1;
  played_audio_ms = some (some 10);
}

first_acked : handle_output_ack first_ack two_sent ≡ ok one_acked
unfolding handle_output_ack acknowledged_size store_ack pop_all pop_acknowledged
first_acked = refl

send_output_chunk-IsValid_example : Bounds.IsValid (send_output_chunk 480 two_sent).0
send_output_chunk-IsValid_example = send_output_chunk-IsValid 480 two_sent two_sent-IsValid

handle_output_ack-IsValid_example : Bounds.IsValid one_acked
handle_output_ack-IsValid_example =
    handle_output_ack-IsValid first_ack two_sent one_acked two_sent-IsValid first_acked

handle_output_ack-forward_example : (0 ≤ 10) × (0 ≤ 1) × (1 ≤ 2)
handle_output_ack-forward_example =
    handle_output_ack-forward first_ack two_sent one_acked two_sent-IsValid first_acked

abbrev speaking : Outputs
speaking = record {
  active_output = some ("r", ("i", (0, 0)));
  completed_outputs = [];
  completed_output_order = [];
  terminal_responses = [];
  terminal_response_order = [];
  late_frame_count = 0;
}

forward-IsBounded_example : Memory.IsBounded (forward (finished "r") speaking).0
forward-IsBounded_example = forward-IsBounded (finished "r") speaking (record {
  few_outputs = omega arith;
  few_responses = omega arith;
  outputs_in_order = λ a m. m;
  responses_in_order = λ a m. m;
})
