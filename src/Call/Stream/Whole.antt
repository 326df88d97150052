-- ===== src/Call/Stream/Whole.antt =====
-- Any number of input frames, handled one after the other as `run` of realtime/local_channel.py does.
use simple_harness_service_s.Bytes.{Bytes}
use simple_harness_service_s.Framing.{LocalPcmFrame, decode_pcm_frame}
use simple_harness_service_s.Window.{InputWindow, accept}
use simple_harness_service_s.Window.Stream.{accept_all, generation-accept}
use simple_harness_service_s.Call.{
  Call, Bounds, Attempt, Ending, goes_on, stopped, raising, raised, ◌▸◌,
}
use simple_harness_service_s.Call.Input.{
  join, is_empty, add_payloads, acknowledge_input, add_frame, take_frame, handle_input_audio,
}
use simple_harness_service_s.Call.Stream.{
  stream, IsAdded, is_going, join-append, IsAdded-acknowledge, add_payloads-IsAdded,
}
use simple_harness_service_s.Call.Stream.Plain.{
  is_raising, ▸-IsPlain, add_payloads-IsPlain, acknowledge-IsPlain,
}
use mathlib.Core.Option.{some-injective}
use simple_harness_service_s.Common.{
  Option, none, ℕ, ◌+◌, max, ◌≡◌, refl, sym, ap, ◌∙◌, subst, Bool, true, false, ◌&&◌, some, List,
  [], ◌∷◌, ◌++◌, append_assoc, append-nil, leb, ◌==◌, nat_eq, arith, if◌then◌else◌, if-split,
  Bool-cases, inl, inr, Result, ok, raise, ◌≢◌, not, ◌||◌, realtime_error, protocol_error,
}

added-whole :
    (before : Bytes) (ready : List Bytes) (r : Call × Ending)
    → IsAdded before ready r
    → is_going r.1 ≡ true
    → stream r.0 ≡ before ++ join ready
added-whole before ready r i going =
    i.given
    ∙ ap (λ l. before ++ join l)
        (sym (append-nil i.taken) ∙ (ap (λ l. i.taken ++ l) (sym (i.all going)) ∙ sym i.split))

empty-whole :
    (before : Bytes) (ready : List Bytes) → is_empty ready ≡ true → before ≡ before ++ join ready
unfolding join
empty-whole before [] h = sym (append-nil before)
empty-whole before (pcm ∷ ready) h = absurd (ground arith)

true-false : true ≢ false
true-false h = ground arith

-- The handling of a frame once the window has taken it
add_frame-handled :
    (b : Bounds) (audio : ℕ → Attempt) (ack : Attempt) (previous : ℕ) (frame : LocalPcmFrame)
    (w : InputWindow) (ready : List Bytes) (s : Call) (g : ℕ)
    → s.generation ≡ g
    → (is_raising (add_frame b audio ack previous frame (w, ready) s).1 ≡ false)
    → ((add_frame b audio ack previous frame (w, ready) s).0.terminal ≡ false)
    → ((add_frame b audio ack previous frame (w, ready) s).0.input_window ≡ some w)
      × ((add_frame b audio ack previous frame (w, ready) s).0.generation ≡ g)
      × (stream (add_frame b audio ack previous frame (w, ready) s).0 ≡ stream s ++ join ready)
unfolding add_frame stream join
add_frame-handled b audio ack previous frame w ready s g hg =
    let s' : Call = record s { input_window = some w } in
    let full = add_payloads b audio ready s' ▸ acknowledge_input b ack in
    let dup : Call × Ending =
      (record s' { duplicate_frame_count = s.duplicate_frame_count + 1 }, stopped) in
    if-split
      (λ r.
        is_raising r.1 ≡ false
        → r.0.terminal ≡ false
        → (r.0.input_window ≡ some w)
          × (r.0.generation ≡ g)
          × (stream r.0 ≡ stream s ++ join ready))
      (is_empty ready && leb frame.sequence (max previous w.highest_contiguous)) dup full
      (λ e p q. (refl, hg, empty-whole (stream s) ready (ground arith)))
      (λ e p q.
        let plain =
          ▸-IsPlain (some w) g (add_payloads b audio ready s') (acknowledge_input b ack)
            (add_payloads-IsPlain (some w) g b audio ready s' refl hg)
            (acknowledge-IsPlain (some w) g b ack) in
        (
          plain.window,
          plain.generation,
          added-whole (stream s) ready full
              (IsAdded-acknowledge b ack (stream s) ready (add_payloads b audio ready s')
                (add_payloads-IsAdded b audio ready s'))
              (plain.stops p q),
        ))

-- What a handled frame leaves, if nothing was raised and the call has not ended
abbrev pub IsHandled : InputWindow → LocalPcmFrame → Call → Call × Ending → Type 0
IsHandled w frame s r =
    is_raising r.1 ≡ false
    → r.0.terminal ≡ false
    → (w' : InputWindow) × (ready : List Bytes) × (accept w frame ≡ ok (w', ready))
      × (r.0.input_window ≡ some w')
      × (r.0.generation ≡ s.generation)
      × (stream r.0 ≡ stream s ++ join ready)

-- A frame of the current generation, by the result of the window
taken-IsHandled :
    (b : Bounds) (audio : ℕ → Attempt) (ack : Attempt) (frame : LocalPcmFrame) (w : InputWindow)
    (s : Call) (result : Result (InputWindow × List Bytes))
    → accept w frame ≡ result
    → (frame.generation == s.generation) ≡ true
    → IsHandled w frame s (take_frame b audio ack frame w s)
unfolding take_frame
taken-IsHandled b audio ack frame w s (raise x) h same p q =
    let e : take_frame b audio ack frame w s ≡ (s, raising (raised x)) =
      rw (same, h, take_frame) refl in
    absurd (true-false (subst (λ r. is_raising r.1 ≡ false) e p))
taken-IsHandled b audio ack frame w s (ok (w', ready)) h same p q =
    let full = add_frame b audio ack w.highest_contiguous frame (w', ready) s in
    let e : take_frame b audio ack frame w s ≡ full = rw (same, h, take_frame) refl in
    let (window, generation, whole) =
      subst
        (λ r.
          is_raising r.1 ≡ false
          → r.0.terminal ≡ false
          → (r.0.input_window ≡ some w')
            × (r.0.generation ≡ s.generation)
            × (stream r.0 ≡ stream s ++ join ready))
        (sym e)
        (add_frame-handled b audio ack w.highest_contiguous frame w' ready s s.generation refl) p
        q in
    (w', ready, h, window, generation, whole)

-- A frame of another generation changes neither the window nor the audio.
late-accepted :
    (frame : LocalPcmFrame) (w : InputWindow)
    → (frame.generation == w.generation) ≡ false
    → accept w frame ≡ ok (w, [])
unfolding accept
late-accepted frame w other = rw (other, accept) refl

take_frame-IsHandled :
    (b : Bounds) (audio : ℕ → Attempt) (ack : Attempt) (frame : LocalPcmFrame) (w : InputWindow)
    (s : Call)
    → s.input_window ≡ some w
    → w.generation ≡ s.generation
    → IsHandled w frame s (take_frame b audio ack frame w s)
unfolding take_frame stream join
take_frame-IsHandled b audio ack frame w s here same p q =
    elim (Bool-cases (frame.generation == s.generation)) [
      | inl current ↦ taken-IsHandled b audio ack frame w s (accept w frame) refl current p q
      | inr late ↦
          let e : take_frame b audio ack frame w s
              ≡ (record s { late_frame_count = s.late_frame_count + 1 }, stopped) =
            rw (late, take_frame) refl in
          (
            w,
            [],
            late-accepted frame w (subst (λ g. (frame.generation == g) ≡ false) (sym same) late),
            ap (λ r. r.0.input_window) e ∙ here,
            ap (λ r. r.0.generation) e,
            ap (λ r. stream r.0) e ∙ sym (append-nil (stream s)),
          )
    ]

-- The `while` loop of `run` goes on while nothing is raised and the call has not ended.
unfoldable pub unless_ended : Call × Ending → (Call → Call × Ending) → Call × Ending
unless_ended (s, raising p) next = (s, raising p)
unless_ended (s, goes_on) next = if s.terminal then (s, stopped) else next s
unless_ended (s, stopped) next = if s.terminal then (s, stopped) else next s

-- The loop, on payloads that are binary messages
unfoldable pub take_all : Bounds → (ℕ → Attempt) → Attempt → List Bytes → Call → Call × Ending
unfolding handle_input_audio unless_ended
take_all b audio ack [] s = (s, goes_on)
take_all b audio ack (payload ∷ payloads) s =
    unless_ended (handle_input_audio b audio ack payload s) (take_all b audio ack payloads)

-- Nothing was raised, and the call has not ended.
abbrev pub IsNormal : Call × Ending → Type 0
IsNormal r = (is_raising r.1 ≡ false) × (r.0.terminal ≡ false)

going-on :
    (t : Bool) (s : Call) (rest : Call × Ending)
    → s.terminal ≡ t
    → IsNormal (if t then (s, stopped) else rest)
    → (s.terminal ≡ false) × ((if t then (s, stopped) else rest) ≡ rest)
going-on true s rest over n = absurd (true-false (sym over ∙ n.1))
going-on false s rest open_yet n = (open_yet, refl)

unless_ended-IsNormal :
    (r : Call × Ending) (next : Call → Call × Ending)
    → IsNormal (unless_ended r next)
    → IsNormal r × (unless_ended r next ≡ next r.0)
unfolding unless_ended
unless_ended-IsNormal (s, raising p) next n = absurd (true-false n.0)
unless_ended-IsNormal (s, goes_on) next n =
    let (going, same) = going-on s.terminal s (next s) refl n in ((refl, going), same)
unless_ended-IsNormal (s, stopped) next n =
    let (going, same) = going-on s.terminal s (next s) refl n in ((refl, going), same)

-- A payload decodes to a frame, and this frame was handled.
abbrev IsTaken : InputWindow → Bytes → Call → Call × Ending → Type 0
IsTaken w payload s r =
    is_raising r.1 ≡ false
    → r.0.terminal ≡ false
    → (frame : LocalPcmFrame) × (w' : InputWindow) × (ready : List Bytes) × (decode_pcm_frame
          payload
        ≡ ok frame)
      × (accept w frame ≡ ok (w', ready))
      × (r.0.input_window ≡ some w')
      × (r.0.generation ≡ s.generation)
      × (stream r.0 ≡ stream s ++ join ready)

-- The cases of the window of a call, which is there
window-there :
    (o : Option InputWindow) (w : InputWindow) (early : Call × Ending)
    (on_time : InputWindow → Call × Ending) (P : Call × Ending → Type 0)
    → o ≡ some w
    → P (on_time w)
    → P (elim o [ none ↦ early | some v ↦ on_time v ])
window-there none w early on_time P here h = absurd (ground arith)
window-there (some v) w early on_time P here h =
    subst (λ u. P (on_time u)) (sym (some-injective _ _ here)) h

decoded-IsTaken :
    (b : Bounds) (audio : ℕ → Attempt) (ack : Attempt) (payload : Bytes) (w : InputWindow)
    (s : Call) (result : Result LocalPcmFrame)
    → s.input_window ≡ some w
    → w.generation ≡ s.generation
    → decode_pcm_frame payload ≡ result
    → IsTaken w payload s (elim result [
      | raise x ↦ (s, raising (raised x))
      | ok frame ↦ take_frame b audio ack frame w s
    ])
decoded-IsTaken b audio ack payload w s (raise x) here same h p q = absurd (true-false p)
decoded-IsTaken b audio ack payload w s (ok frame) here same h p q =
    let (w', ready, taken, window, generation, grown) =
      take_frame-IsHandled b audio ack frame w s here same p q in
    (frame, w', ready, h, taken, window, generation, grown)

handle_input_audio-IsTaken :
    (b : Bounds) (audio : ℕ → Attempt) (ack : Attempt) (payload : Bytes) (w : InputWindow)
    (s : Call)
    → s.input_window ≡ some w
    → w.generation ≡ s.generation
    → IsTaken w payload s (handle_input_audio b audio ack payload s)
unfolding handle_input_audio
handle_input_audio-IsTaken b audio ack payload w s here same =
    window-there s.input_window w _ _ (IsTaken w payload s) here (
      if-split (IsTaken w payload s) (not s.ready || not s.has_session)
        (s, raising (raised (realtime_error protocol_error false))) _
        (λ k p q. absurd (true-false p))
        (λ k. decoded-IsTaken b audio ack payload w s (decode_pcm_frame payload) here same refl))

accept_all-cons :
    (w w' w'' : InputWindow) (frame : LocalPcmFrame) (frames : List LocalPcmFrame)
    (ready later : List Bytes)
    → accept w frame ≡ ok (w', ready)
    → accept_all w' frames ≡ ok (w'', later)
    → accept_all w (frame ∷ frames) ≡ ok (w'', ready ++ later)
unfolding accept_all
accept_all-cons w w' w'' frame frames ready later h k = rw (h, k, accept_all) refl

-- The payloads are encodings of the frames.
abbrev pub AreDecoded : List Bytes → List LocalPcmFrame → Type 0
AreDecoded [] [] = Unit {0}
AreDecoded (payload ∷ payloads) (frame ∷ frames) =
    (decode_pcm_frame payload ≡ ok frame) × AreDecoded payloads frames
AreDecoded _ _ = ⊥

-- If a call handles any binary messages one after the other, and handling them raises nothing and
-- does not end the call (a flush that times out ends it, too), then all of them decode to frames, the
-- input window has taken all of these, and what the session was given, with what waits for a full
-- batch, has grown by exactly the payloads that the window handed on, in their order. The call has an
-- input window, and it is in the generation of its window.
pub take_all-in_order :
    (b : Bounds) (audio : ℕ → Attempt) (ack : Attempt) (payloads : List Bytes) (w : InputWindow)
    (s : Call)
    → s.input_window ≡ some w
    → w.generation ≡ s.generation
    → IsNormal (take_all b audio ack payloads s)
    → (frames : List LocalPcmFrame) × (w' : InputWindow) × (out : List Bytes) × AreDecoded payloads
        frames
      × (accept_all w frames ≡ ok (w', out))
      × (stream (take_all b audio ack payloads s).0 ≡ stream s ++ join out)
unfolding take_all accept_all join
take_all-in_order b audio ack [] w s here same n =
    ([], w, [], tt, refl, sym (append-nil (stream s)))
take_all-in_order b audio ack (payload ∷ payloads) w s here same n =
    let r = handle_input_audio b audio ack payload s in
    let (n₁, goes) = unless_ended-IsNormal r (take_all b audio ack payloads) n in
    let (frame, w₁, ready, decoded, taken, here₁, same₁, grown) =
      handle_input_audio-IsTaken b audio ack payload w s here same n₁.0 n₁.1 in
    let (frames, w₂, later, all_decoded, all, whole) =
      take_all-in_order b audio ack payloads w₁ r.0 here₁
        (generation-accept w frame w₁ ready taken ∙ (same ∙ sym same₁)) (subst IsNormal goes n) in
    (
      frame ∷ frames,
      w₂,
      ready ++ later,
      (decoded, all_decoded),
      accept_all-cons w w₁ w₂ frame frames ready later taken all,
      ap (λ (x : Call × Ending). stream x.0) goes
          ∙ (whole
              ∙ (ap (λ l. l ++ join later) grown
                  ∙ (append_assoc (stream s) (join ready) (join later)
                      ∙ ap (λ l. stream s ++ l) (sym (join-append ready later))))),
    )
