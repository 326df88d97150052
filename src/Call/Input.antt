-- ===== src/Call/Input.antt =====
-- The input audio of a call: `_handle_input_audio`, `_flush_input_batch`, `_send_input_ack` and
-- `_delayed_input_ack` of realtime/local_channel.py.
use simple_harness_service_s.Bytes.{Bytes}
use simple_harness_service_s.Framing.{LocalPcmFrame, decode_pcm_frame}
use simple_harness_service_s.Window.{InputWindow, accept}
use simple_harness_service_s.Call.{
  Call, Bounds, audio_ack, raised, Attempt, returns, times_out, raises, Ending, goes_on, stopped,
  raising, ◌▸◌,
}
use simple_harness_service_s.Call.Channel.{send_json, fail}
use simple_harness_service_s.Common.{
  ℕ, ◌+◌, max, Bool, true, false, not, ◌&&◌, ◌||◌, Option, none, some, List, [], ◌∷◌, ◌++◌,
  if◌then◌else◌, length, leb, ◌==◌, nat_eq, ok, raise, realtime_error, protocol_error, busy,
}

-- b"".join(batch)
unfoldable pub join : List Bytes → Bytes
join [] = []
join (pcm ∷ batch) = pcm ++ join batch

abbrev pub is_empty : List Bytes → Bool
is_empty [] = true
is_empty (pcm ∷ batch) = false

-- The session took the batch.
abbrev pub take_batch : Call → Call
take_batch s = record s {
  input_batch = [];
  input_since_ack = s.input_since_ack + length s.input_batch;
  heard = s.heard ++ join s.input_batch ∷ [];
}

-- What comes of `send_audio` of the session
unfoldable pub after_audio : Attempt → Call → Call × Ending
unfolding join fail
after_audio returns s = (take_batch s, goes_on)
after_audio times_out s = (fail busy false s, goes_on)
after_audio (raises p) s = (s, raising p)

unfoldable pub flush_input_batch : Attempt → Call → Call × Ending
unfolding after_audio
flush_input_batch audio s =
    if is_empty s.input_batch
    then (s, goes_on)
    else if not s.has_session
    then (s, raising (raised (realtime_error protocol_error false)))
    else after_audio audio s

-- if self._terminal: return
abbrev pub unless_terminal : Call → Call × Ending
unless_terminal s = (s, if s.terminal then stopped else goes_on)

-- The body of the loop over the payloads that have become contiguous
unfoldable pub add_payload : Bounds → Attempt → Bytes → Call → Call × Ending
unfolding flush_input_batch
add_payload b audio pcm s =
    let s' = record s { input_batch = s.input_batch ++ pcm ∷ [] } in
    if leb b.input_batch_frames (length s'.input_batch)
    then flush_input_batch audio s' ▸ unless_terminal
    else (s', goes_on)

-- The loop; the calls of the session are numbered by what it was given before.
unfoldable pub add_payloads : Bounds → (ℕ → Attempt) → List Bytes → Call → Call × Ending
unfolding add_payload
add_payloads b audio [] s = (s, goes_on)
add_payloads b audio (pcm ∷ ready) s =
    add_payload b (audio (length s.heard)) pcm s ▸ add_payloads b audio ready

abbrev pub highest_of : Option InputWindow → ℕ
highest_of none = 0
highest_of (some w) = w.highest_contiguous

unfoldable pub send_input_ack : Attempt → Call → Call × Ending
unfolding send_json
send_input_ack ack s =
    if s.input_since_ack == 0
    then (s, goes_on)
    else send_json ack (audio_ack (highest_of s.input_window)) (record s { input_since_ack = 0 })

-- The timer runs out: `_delayed_input_ack` past its sleep. What it raises stays in its task.
unfoldable pub delayed_input_ack : Attempt → Call → Call
unfolding send_input_ack
delayed_input_ack ack s = record (send_input_ack ack s).0 { has_ack_timer = false }

-- The end of `_handle_input_audio`
unfoldable pub acknowledge_input : Bounds → Attempt → Call → Call × Ending
unfolding send_input_ack
acknowledge_input b ack s =
    if leb b.ack_every_frames s.input_since_ack
    then send_input_ack ack s
    else if not (s.input_since_ack == 0) && not s.has_ack_timer
    then (record s { has_ack_timer = true }, goes_on)
    else (s, goes_on)

-- A frame of the current generation that the window has taken
unfoldable pub add_frame :
    Bounds
    → (ℕ → Attempt)
    → Attempt
    → ℕ
    → LocalPcmFrame
    → InputWindow × List Bytes
    → Call
    → Call × Ending
unfolding add_payloads acknowledge_input
add_frame b audio ack previous frame (w, ready) s =
    let s' = record s { input_window = some w } in
    if is_empty ready && leb frame.sequence (max previous w.highest_contiguous)
    then (record s' { duplicate_frame_count = s.duplicate_frame_count + 1 }, stopped)
    else add_payloads b audio ready s' ▸ acknowledge_input b ack

-- A decoded frame
unfoldable pub take_frame :
    Bounds → (ℕ → Attempt) → Attempt → LocalPcmFrame → InputWindow → Call → Call × Ending
unfolding add_frame
take_frame b audio ack frame w s =
    if not (frame.generation == s.generation)
    then (record s { late_frame_count = s.late_frame_count + 1 }, stopped)
    else elim (accept w frame) [
      | raise x ↦ (s, raising (raised x))
      | ok taken ↦ add_frame b audio ack w.highest_contiguous frame taken s
    ]

unfoldable pub handle_input_audio : Bounds → (ℕ → Attempt) → Attempt → Bytes → Call → Call × Ending
unfolding take_frame
handle_input_audio b audio ack payload s = elim s.input_window [
  | none ↦ (s, raising (raised (realtime_error protocol_error false)))
  | some w ↦
      if not s.ready || not s.has_session
      then (s, raising (raised (realtime_error protocol_error false)))
      else elim (decode_pcm_frame payload) [
        | raise x ↦ (s, raising (raised x))
        | ok frame ↦ take_frame b audio ack frame w s
      ]
]
