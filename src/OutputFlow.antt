-- ===== src/OutputFlow.antt =====
-- The output flow control of `LocalRealtimeChannelController` (realtime/local_channel.py): sent
-- chunks wait for the acknowledgement of the client, `_send_output_chunk` and `_handle_output_ack`.
-- A chunk enters by its size. The bound on the playback position, a division in the source, is
-- multiplied out.
pub mod Ack
pub mod Bounds
use simple_harness_service_s.Events.{RealtimeAudioFormat}
use simple_harness_service_s.Window.{window_frames, window_bytes}
use simple_harness_service_s.Common.{
  ℕ, zero, suc, ◌+◌, ◌-◌, ◌*◌, Bool, true, false, not, ◌&&◌, ◌||◌, Option, none, some, List, [],
  ◌∷◌, ◌++◌, String, string_eq, ◌==◌, ltb, leb, if◌then◌else◌, length, Result, ok, raise, raise_if,
  ◌>>=◌, ◌>>◌, realtime_error, protocol_error,
}

-- `output_pending` holds a sequence number and a size for each chunk sent and not acknowledged.
-- `current` is `_output_generation_current` of the generation that is sent for.
pub record OutputFlow : Type 0 where
  pub ready : Bool
  pub terminal : Bool
  pub current : Bool
  pub output_audio : RealtimeAudioFormat
  pub output_sequence : ℕ
  pub output_acked : ℕ
  pub output_acked_bytes : ℕ
  pub output_pending : List (ℕ × ℕ)
  pub output_pending_bytes : ℕ
  pub played_audio_ms : ℕ
  pub late_frame_count : ℕ

unfoldable pub init : RealtimeAudioFormat → OutputFlow
init format = record {
  ready = false;
  terminal = false;
  current = true;
  output_audio = format;
  output_sequence = 0;
  output_acked = 0;
  output_acked_bytes = 0;
  output_pending = [];
  output_pending_bytes = 0;
  played_audio_ms = 0;
  late_frame_count = 0;
}

-- sum(size for sequence, size in pending if sequence <= highest)
unfoldable pub acknowledged_size : ℕ → List (ℕ × ℕ) → ℕ
acknowledged_size highest [] = 0
acknowledged_size highest ((sequence, size) ∷ pending) =
    let rest = acknowledged_size highest pending in
    if leb sequence highest then size + rest else rest

-- One round of the `while` loop of `_handle_output_ack`, on the chunk that it pops
unfoldable pub pop_acknowledged : ℕ → List (ℕ × ℕ) → OutputFlow → OutputFlow
pop_acknowledged size rest f = record f {
  output_pending = rest;
  output_pending_bytes = f.output_pending_bytes - size;
  output_acked_bytes = f.output_acked_bytes + size;
}

-- The `while` loop, on the chunks that are pending
unfoldable pub pop_all : ℕ → List (ℕ × ℕ) → OutputFlow → OutputFlow
unfolding pop_acknowledged
pop_all highest [] f = f
pop_all highest ((sequence, size) ∷ pending) f =
    let rest = pop_all highest pending (pop_acknowledged size pending f) in
    if leb sequence highest then rest else f

-- The members of the acknowledgement that are read; `none` stands for a value that is no natural
-- number. A position that is left out is the one known.
pub record AudioAck : Type 0 where
  pub direction : String
  pub highest_contiguous_sequence : Option ℕ
  pub played_audio_ms : Option (Option ℕ)

abbrev pub checked_number : Option ℕ → Result ℕ
checked_number (some n) = ok n
checked_number none = raise (realtime_error protocol_error false)

abbrev pub position_of : AudioAck → OutputFlow → Option ℕ
position_of ack f = elim ack.played_audio_ms [ none ↦ some f.played_audio_ms | some value ↦ value ]

-- The frames of a second of audio, in bytes, times a number of milliseconds
abbrev pub played_size : RealtimeAudioFormat → ℕ → ℕ
played_size format ms = ms * (2 * format.sample_rate * format.channels)

unfoldable pub store_ack : ℕ → ℕ → OutputFlow → OutputFlow
unfolding pop_all
store_ack highest position f =
    let heard = record f { played_audio_ms = position } in
    let popped = pop_all highest heard.output_pending (record heard { output_acked = highest }) in
    if leb highest f.output_acked then heard else popped

unfoldable pub handle_output_ack : AudioAck → OutputFlow → Result OutputFlow
unfolding acknowledged_size store_ack
handle_output_ack ack f = do
  raise_if (not f.ready) (realtime_error protocol_error false)
  raise_if (not (ack.direction == "output")) (realtime_error protocol_error false)
  highest ← checked_number ack.highest_contiguous_sequence
  raise_if (ltb f.output_sequence highest) (realtime_error protocol_error false)
  let acknowledged_bytes = f.output_acked_bytes + acknowledged_size highest f.output_pending
  position ← checked_number (position_of ack f)
  raise_if
      (ltb position f.played_audio_ms
        || ltb (acknowledged_bytes * 1000) (played_size f.output_audio position))
      (realtime_error protocol_error false)
  ok (store_ack highest position f)

-- The test for capacity, of `_send_output_chunk` and of the predicate it waits for
unfoldable pub has_capacity : ℕ → OutputFlow → Bool
has_capacity size f =
    ltb (length f.output_pending) window_frames && leb (f.output_pending_bytes + size) window_bytes

-- What a chunk comes to: it must wait, it is dropped, or it is sent with its sequence number.
pub data Sending : Type 0 where
  waits dropped : Sending
  sent : ℕ → Sending

unfoldable pub push_chunk : ℕ → OutputFlow → OutputFlow
push_chunk size f = record f {
  output_sequence = f.output_sequence + 1;
  output_pending = f.output_pending ++ (f.output_sequence + 1, size) ∷ [];
  output_pending_bytes = f.output_pending_bytes + size;
}

-- `_send_output_chunk` up to the send on the channel. It is tried again whenever the condition is
-- notified, until the predicate holds or the deadline passes.
unfoldable pub send_output_chunk : ℕ → OutputFlow → OutputFlow × Sending
unfolding has_capacity push_chunk
send_output_chunk size f =
    if not (f.terminal || not f.current || has_capacity size f)
    then (f, waits)
    else if f.terminal || not f.current
    then (f, dropped)
    else (push_chunk size f, sent (f.output_sequence + 1))

-- The deadline passes: a superseded generation is counted, else the call fails as busy, which
-- takes the terminal if nothing has.
unfoldable pub send_timeout : OutputFlow → OutputFlow × Bool
send_timeout f =
    if not f.current
    then (record f { late_frame_count = f.late_frame_count + 1 }, false)
    else (record f { terminal = true }, not f.terminal)
