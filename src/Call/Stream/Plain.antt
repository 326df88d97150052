-- ===== src/Call/Stream/Plain.antt =====
-- What the parts of the input handlers of realtime/local_channel.py leave as it was.
use simple_harness_service_s.Bytes.{Bytes}
use simple_harness_service_s.Window.{InputWindow}
use simple_harness_service_s.Call.{
  Call, Bounds, Attempt, returns, times_out, raises, Ending, goes_on, stopped, raising, ◌▸◌,
}
use simple_harness_service_s.Call.Channel.{fail, send_json}
use simple_harness_service_s.Call.Input.{
  is_empty, after_audio, flush_input_batch, unless_terminal, add_payload, add_payloads,
  acknowledge_input, send_input_ack,
}
use simple_harness_service_s.Call.Control.{protocol_problem}
use simple_harness_service_s.Call.Stream.{is_going}
use simple_harness_service_s.Common.{
  ℕ, ◌≡◌, refl, Bool, true, false, not, Option, List, [], ◌∷◌, ◌++◌, length, leb, nat_eq, arith,
  if-split,
}

abbrev pub is_raising : Ending → Bool
is_raising (raising p) = true
is_raising _ = false

-- A part keeps the window and the generation, and it stops a handler only at the terminal.
pub record IsPlain (w : Option InputWindow) (g : ℕ) (r : Call × Ending) : Type 0 where
  pub window : r.0.input_window ≡ w
  pub generation : r.0.generation ≡ g
  pub stops : is_raising r.1 ≡ false → r.0.terminal ≡ false → is_going r.1 ≡ true

pub ▸-IsPlain :
    (w : Option InputWindow) (g : ℕ) (r : Call × Ending) (next : Call → Call × Ending)
    → IsPlain w g r
    → ((s : Call) → s.input_window ≡ w → s.generation ≡ g → IsPlain w g (next s))
    → IsPlain w g (r ▸ next)
▸-IsPlain w g (s, goes_on) next i n = n s i.window i.generation
▸-IsPlain w g (s, stopped) next i n = i
▸-IsPlain w g (s, raising p) next i n = i

after_audio-IsPlain :
    (w : Option InputWindow) (g : ℕ) (a : Attempt) (s : Call)
    → s.input_window ≡ w
    → s.generation ≡ g
    → IsPlain w g (after_audio a s)
unfolding after_audio fail
after_audio-IsPlain w g returns s hw hg = record {
  window = hw;
  generation = hg;
  stops = λ p q. refl;
}
after_audio-IsPlain w g times_out s hw hg = ground arith
after_audio-IsPlain w g (raises p) s hw hg = record {
  window = hw;
  generation = hg;
  stops = λ p q. ground arith;
}

flush-IsPlain :
    (w : Option InputWindow) (g : ℕ) (a : Attempt) (s : Call)
    → s.input_window ≡ w
    → s.generation ≡ g
    → IsPlain w g (flush_input_batch a s)
unfolding flush_input_batch
flush-IsPlain w g a s hw hg =
    if-split (IsPlain w g) (is_empty s.input_batch) (s, goes_on) _
      (λ e. record { window = hw; generation = hg; stops = λ p q. refl })
      (λ e.
        if-split (IsPlain w g) (not s.has_session) (s, raising protocol_problem) (after_audio a s)
          (λ e. record { window = hw; generation = hg; stops = λ p q. ground arith })
          (λ e. after_audio-IsPlain w g a s hw hg))

unless-IsPlain :
    (w : Option InputWindow) (g : ℕ) (s : Call)
    → s.input_window ≡ w
    → s.generation ≡ g
    → IsPlain w g (unless_terminal s)
unless-IsPlain w g s hw hg = record { window = hw; generation = hg; stops = λ p q. ground arith }

add_payload-IsPlain :
    (w : Option InputWindow) (g : ℕ) (b : Bounds) (a : Attempt) (pcm : Bytes) (s : Call)
    → s.input_window ≡ w
    → s.generation ≡ g
    → IsPlain w g (add_payload b a pcm s)
unfolding add_payload
add_payload-IsPlain w g b a pcm s hw hg =
    let s' : Call = record s { input_batch = s.input_batch ++ pcm ∷ [] } in
    if-split (IsPlain w g) (leb b.input_batch_frames (length s'.input_batch))
      (flush_input_batch a s' ▸ unless_terminal) (s', goes_on)
      (λ e.
        ▸-IsPlain w g (flush_input_batch a s') unless_terminal (flush-IsPlain w g a s' hw hg)
          (unless-IsPlain w g))
      (λ e. record { window = hw; generation = hg; stops = λ p q. refl })

pub add_payloads-IsPlain :
    (w : Option InputWindow) (g : ℕ) (b : Bounds) (audio : ℕ → Attempt) (ready : List Bytes)
    (s : Call)
    → s.input_window ≡ w
    → s.generation ≡ g
    → IsPlain w g (add_payloads b audio ready s)
unfolding add_payloads
add_payloads-IsPlain w g b audio [] s hw hg = record {
  window = hw;
  generation = hg;
  stops = λ p q. refl;
}
add_payloads-IsPlain w g b audio (pcm ∷ ready) s hw hg =
    ▸-IsPlain w g (add_payload b (audio (length s.heard)) pcm s) (add_payloads b audio ready)
      (add_payload-IsPlain w g b (audio (length s.heard)) pcm s hw hg)
      (add_payloads-IsPlain w g b audio ready)

pub acknowledge-IsPlain :
    (w : Option InputWindow) (g : ℕ) (b : Bounds) (a : Attempt) (s : Call)
    → s.input_window ≡ w
    → s.generation ≡ g
    → IsPlain w g (acknowledge_input b a s)
unfolding acknowledge_input send_input_ack send_json
acknowledge-IsPlain w g b returns s hw hg = ground arith
acknowledge-IsPlain w g b times_out s hw hg = ground arith
acknowledge-IsPlain w g b (raises p) s hw hg = ground arith
