-- ===== src/Call/Closing/Handlers.antt =====
-- The handlers of realtime/local_channel.py close a call at most once.
use simple_harness_service_s.Bytes.{Bytes}
use simple_harness_service_s.Framing.{LocalPcmFrame, decode_pcm_frame}
use simple_harness_service_s.Window.{InputWindow, accept}
use simple_harness_service_s.Call.{
  Call, Bounds, audio_ack, raised, Attempt, returns, times_out, raises, Ending, goes_on, stopped,
  raising, ◌▸◌,
}
use simple_harness_service_s.Call.Channel.{send_json}
use simple_harness_service_s.Call.Input.{
  after_audio, flush_input_batch, unless_terminal, is_empty, add_payload, add_payloads, highest_of,
  send_input_ack, delayed_input_ack, acknowledge_input, add_frame, take_frame, handle_input_audio,
}
use simple_harness_service_s.Call.Control.{protocol_problem}
use simple_harness_service_s.Call.Closing.{IsClosedOnce, send_json-IsClosedOnce, fail-IsClosedOnce}
use simple_harness_service_s.Common.{
  ℕ, refl, true, false, not, ◌&&◌, ◌||◌, some, List, [], ◌∷◌, ◌++◌, string_eq, nat_eq, ◌==◌, length,
  leb, max, ◌+◌, Result, ok, raise, busy, if-split, Option-cases, inl, inr,
}

-- The state that a part of a handler leaves
abbrev pub Leaves : Call × Ending → Type 0
Leaves r = IsClosedOnce r.0

pub ▸-Leaves :
    (r : Call × Ending) (next : Call → Call × Ending)
    → Leaves r
    → ((s : Call) → IsClosedOnce s → Leaves (next s))
    → Leaves (r ▸ next)
▸-Leaves (s, goes_on) next c n = n s c
▸-Leaves (s, stopped) next c n = c
▸-Leaves (s, raising p) next c n = c

after_audio-Leaves : (a : Attempt) (s : Call) → IsClosedOnce s → Leaves (after_audio a s)
unfolding after_audio
after_audio-Leaves returns s c = record { proper = c.proper; stop = c.stop }
after_audio-Leaves times_out s c = fail-IsClosedOnce busy false s c
after_audio-Leaves (raises p) s c = c

pub flush-Leaves : (a : Attempt) (s : Call) → IsClosedOnce s → Leaves (flush_input_batch a s)
unfolding flush_input_batch
flush-Leaves a s c =
    if-split Leaves (is_empty s.input_batch) (s, goes_on) _ (λ e. c)
      (λ e.
        if-split Leaves (not s.has_session) (s, raising protocol_problem) (after_audio a s) (λ e. c)
          (λ e. after_audio-Leaves a s c))

add_payload-Leaves :
    (b : Bounds) (a : Attempt) (pcm : Bytes) (s : Call)
    → IsClosedOnce s
    → Leaves (add_payload b a pcm s)
unfolding add_payload
add_payload-Leaves b a pcm s c =
    let s' : Call = record s { input_batch = s.input_batch ++ pcm ∷ [] } in
    let c' : IsClosedOnce s' = record { proper = c.proper; stop = c.stop } in
    if-split Leaves (leb b.input_batch_frames (length s'.input_batch))
      (flush_input_batch a s' ▸ unless_terminal) (s', goes_on)
      (λ e. ▸-Leaves (flush_input_batch a s') unless_terminal (flush-Leaves a s' c') (λ s c. c))
      (λ e. c')

add_payloads-Leaves :
    (b : Bounds) (audio : ℕ → Attempt) (ready : List Bytes) (s : Call)
    → IsClosedOnce s
    → Leaves (add_payloads b audio ready s)
unfolding add_payloads
add_payloads-Leaves b audio [] s c = c
add_payloads-Leaves b audio (pcm ∷ ready) s c =
    ▸-Leaves (add_payload b (audio (length s.heard)) pcm s) (add_payloads b audio ready)
      (add_payload-Leaves b (audio (length s.heard)) pcm s c) (add_payloads-Leaves b audio ready)

pub send_input_ack-Leaves : (a : Attempt) (s : Call) → IsClosedOnce s → Leaves (send_input_ack a s)
unfolding send_input_ack
send_input_ack-Leaves a s c =
    let s' : Call = record s { input_since_ack = 0 } in
    if-split Leaves (s.input_since_ack == 0) (s, goes_on)
      (send_json a (audio_ack (highest_of s.input_window)) s') (λ e. c)
      (λ e.
        send_json-IsClosedOnce a (audio_ack (highest_of s.input_window)) s' refl
          (record { proper = c.proper; stop = c.stop }))

pub delayed_input_ack-IsClosedOnce :
    (a : Attempt) (s : Call) → IsClosedOnce s → IsClosedOnce (delayed_input_ack a s)
unfolding delayed_input_ack
delayed_input_ack-IsClosedOnce a s c =
    let sent = send_input_ack-Leaves a s c in record { proper = sent.proper; stop = sent.stop }

acknowledge_input-Leaves :
    (b : Bounds) (a : Attempt) (s : Call) → IsClosedOnce s → Leaves (acknowledge_input b a s)
unfolding acknowledge_input
acknowledge_input-Leaves b a s c =
    if-split Leaves (leb b.ack_every_frames s.input_since_ack) (send_input_ack a s) _
      (λ e. send_input_ack-Leaves a s c)
      (λ e.
        if-split Leaves (not (s.input_since_ack == 0) && not s.has_ack_timer)
          (record s { has_ack_timer = true }, goes_on) (s, goes_on)
          (λ e. record { proper = c.proper; stop = c.stop }) (λ e. c))

add_frame-Leaves :
    (b : Bounds) (audio : ℕ → Attempt) (a : Attempt) (previous : ℕ) (frame : LocalPcmFrame)
    (taken : InputWindow × List Bytes) (s : Call)
    → IsClosedOnce s
    → Leaves (add_frame b audio a previous frame taken s)
unfolding add_frame
add_frame-Leaves b audio a previous frame (w, ready) s c =
    let s' : Call = record s { input_window = some w } in
    let c' : IsClosedOnce s' = record { proper = c.proper; stop = c.stop } in
    if-split Leaves (is_empty ready && leb frame.sequence (max previous w.highest_contiguous))
      (record s' { duplicate_frame_count = s.duplicate_frame_count + 1 }, stopped)
      (add_payloads b audio ready s' ▸ acknowledge_input b a)
      (λ e. record { proper = c.proper; stop = c.stop })
      (λ e.
        ▸-Leaves (add_payloads b audio ready s') (acknowledge_input b a)
          (add_payloads-Leaves b audio ready s' c') (acknowledge_input-Leaves b a))

taken-Leaves :
    (b : Bounds) (audio : ℕ → Attempt) (a : Attempt) (previous : ℕ) (frame : LocalPcmFrame)
    (taken : Result (InputWindow × List Bytes)) (s : Call)
    → IsClosedOnce s
    → Leaves (elim taken [
      | raise x ↦ (s, raising (raised x))
      | ok t ↦ add_frame b audio a previous frame t s
    ])
taken-Leaves b audio a previous frame (raise x) s c = c
taken-Leaves b audio a previous frame (ok taken) s c =
    add_frame-Leaves b audio a previous frame taken s c

take_frame-Leaves :
    (b : Bounds) (audio : ℕ → Attempt) (a : Attempt) (frame : LocalPcmFrame) (w : InputWindow)
    (s : Call)
    → IsClosedOnce s
    → Leaves (take_frame b audio a frame w s)
unfolding take_frame
take_frame-Leaves b audio a frame w s c =
    if-split Leaves (not (frame.generation == s.generation))
      (record s { late_frame_count = s.late_frame_count + 1 }, stopped) _
      (λ e. record { proper = c.proper; stop = c.stop })
      (λ e. taken-Leaves b audio a w.highest_contiguous frame (accept w frame) s c)

decoded-Leaves :
    (b : Bounds) (audio : ℕ → Attempt) (a : Attempt) (w : InputWindow)
    (frame : Result LocalPcmFrame) (s : Call)
    → IsClosedOnce s
    → Leaves (elim frame [ raise x ↦ (s, raising (raised x)) | ok f ↦ take_frame b audio a f w s ])
decoded-Leaves b audio a w (raise x) s c = c
decoded-Leaves b audio a w (ok frame) s c = take_frame-Leaves b audio a frame w s c

pub handle_input_audio-Leaves :
    (b : Bounds) (audio : ℕ → Attempt) (a : Attempt) (payload : Bytes) (s : Call)
    → IsClosedOnce s
    → Leaves (handle_input_audio b audio a payload s)
unfolding handle_input_audio
handle_input_audio-Leaves b audio a payload s c = elim (Option-cases s.input_window) [
  | inl missing ↦ rw (missing, handle_input_audio) c
  | inr (w, found) ↦
      rw (found, handle_input_audio)
        (if-split Leaves (not s.ready || not s.has_session) (s, raising protocol_problem) _ (λ e. c)
          (λ e. decoded-Leaves b audio a w (decode_pcm_frame payload) s c))
]
