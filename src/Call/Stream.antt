-- ===== src/Call/Stream.antt =====
-- The audio of the client reaches the session whole and in order: the input handlers of
-- realtime/local_channel.py.
pub mod Plain
pub mod Whole
use simple_harness_service_s.Bytes.{Bytes}
use simple_harness_service_s.Call.{
  Call, Bounds, Attempt, returns, times_out, raises, Ending, goes_on, stopped, raising, ◌▸◌,
}
use simple_harness_service_s.Framing.{LocalPcmFrame}
use simple_harness_service_s.Window.{InputWindow, accept}
use simple_harness_service_s.Call.Channel.{fail, send_json}
use simple_harness_service_s.Call.Input.{
  join, is_empty, take_batch, after_audio, flush_input_batch, unless_terminal, add_payload,
  add_payloads, acknowledge_input, send_input_ack, add_frame, take_frame,
}
use simple_harness_service_s.Common.{
  ℕ, ◌≡◌, refl, sym, ap, ◌∙◌, Bool, true, false, not, List, [], ◌∷◌, ◌++◌, append_assoc, append-nil,
  length, leb, arith, if-split, busy, ok, max, ◌&&◌, ◌+◌, some, ◌==◌, nat_eq,
}

-- What the session was given, and what still waits for a full batch
unfoldable pub stream : Call → Bytes
unfolding join
stream s = join s.heard ++ join s.input_batch

pub join-append : (a b : List Bytes) → join (a ++ b) ≡ join a ++ join b
unfolding join
join-append [] b = refl
join-append (x ∷ a) b = ap (λ l. x ++ l) (join-append a b) ∙ sym (append_assoc x (join a) (join b))

-- A flush moves bytes and changes none.
abbrev pub Keeps : Bytes → Call × Ending → Type 0
Keeps whole r = stream r.0 ≡ whole

take_batch-stream : (s : Call) → stream (take_batch s) ≡ stream s
unfolding stream join
take_batch-stream s =
    append-nil (join (s.heard ++ join s.input_batch ∷ []))
    ∙ (join-append s.heard (join s.input_batch ∷ [])
        ∙ ap (λ l. join s.heard ++ l) (append-nil (join s.input_batch)))

fail-stream : (s : Call) → stream (fail busy false s) ≡ stream s
unfolding fail stream
fail-stream s = ground arith

after_audio-Keeps : (a : Attempt) (s : Call) → Keeps (stream s) (after_audio a s)
unfolding after_audio
after_audio-Keeps returns s = take_batch-stream s
after_audio-Keeps times_out s = fail-stream s
after_audio-Keeps (raises p) s = refl

flush-Keeps : (a : Attempt) (s : Call) → Keeps (stream s) (flush_input_batch a s)
unfolding flush_input_batch
flush-Keeps a s =
    if-split (Keeps (stream s)) (is_empty s.input_batch) (s, goes_on) _ (λ e. refl)
      (λ e.
        if-split (Keeps (stream s)) (not s.has_session) (s, raising _) (after_audio a s) (λ e. refl)
          (λ e. after_audio-Keeps a s))

tested-Keeps :
    (whole : Bytes) (r : Call × Ending) → Keeps whole r → Keeps whole (r ▸ unless_terminal)
tested-Keeps whole (s, goes_on) h = h
tested-Keeps whole (s, stopped) h = h
tested-Keeps whole (s, raising p) h = h

added-stream :
    (pcm : Bytes) (s : Call)
    → stream (record s { input_batch = s.input_batch ++ pcm ∷ [] }) ≡ stream s ++ pcm
unfolding stream join
added-stream pcm s =
    ap (λ l. join s.heard ++ l)
      (join-append s.input_batch (pcm ∷ []) ∙ ap (λ l. join s.input_batch ++ l) (append-nil pcm))
    ∙ sym (append_assoc (join s.heard) (join s.input_batch) pcm)

add_payload-Keeps :
    (b : Bounds) (a : Attempt) (pcm : Bytes) (s : Call)
    → Keeps (stream s ++ pcm) (add_payload b a pcm s)
unfolding add_payload
add_payload-Keeps b a pcm s =
    let s' : Call = record s { input_batch = s.input_batch ++ pcm ∷ [] } in
    let whole = stream s ++ pcm in
    if-split (Keeps whole) (leb b.input_batch_frames (length s'.input_batch))
      (flush_input_batch a s' ▸ unless_terminal) (s', goes_on)
      (λ e. tested-Keeps whole (flush_input_batch a s') (flush-Keeps a s' ∙ added-stream pcm s))
      (λ e. added-stream pcm s)

abbrev pub is_going : Ending → Bool
is_going goes_on = true
is_going _ = false

-- The payloads `taken` were added to the stream, in their order; if the handler goes on, these are all.
pub record IsAdded (before : Bytes) (ready : List Bytes) (r : Call × Ending) : Type 0 where
  pub taken : List Bytes
  pub left : List Bytes
  pub split : ready ≡ taken ++ left
  pub given : stream r.0 ≡ before ++ join taken
  pub all : is_going r.1 ≡ true → left ≡ []

-- The loop goes on with the next payload, or leaves the others.
IsAdded-next :
    (before : Bytes) (pcm : Bytes) (ready : List Bytes) (r : Call × Ending)
    (next : Call → Call × Ending)
    → Keeps (before ++ pcm) r
    → ((s : Call) → IsAdded (stream s) ready (next s))
    → IsAdded before (pcm ∷ ready) (r ▸ next)
unfolding join
IsAdded-next before pcm ready (s, goes_on) next h n =
    let i = n s in
    record {
      taken = pcm ∷ i.taken;
      left = i.left;
      split = ap (λ l. pcm ∷ l) i.split;
      given = i.given ∙ (ap (λ l. l ++ join i.taken) h ∙ append_assoc before pcm (join i.taken));
      all = i.all;
    }
IsAdded-next before pcm ready (s, stopped) next h n = record {
  taken = pcm ∷ [];
  left = ready;
  split = refl;
  given = h ∙ ap (λ l. before ++ l) (sym (append-nil pcm));
  all = λ e. absurd (ground arith);
}
IsAdded-next before pcm ready (s, raising p) next h n = record {
  taken = pcm ∷ [];
  left = ready;
  split = refl;
  given = h ∙ ap (λ l. before ++ l) (sym (append-nil pcm));
  all = λ e. absurd (ground arith);
}

pub add_payloads-IsAdded :
    (b : Bounds) (audio : ℕ → Attempt) (ready : List Bytes) (s : Call)
    → IsAdded (stream s) ready (add_payloads b audio ready s)
unfolding add_payloads join
add_payloads-IsAdded b audio [] s = record {
  taken = [];
  left = [];
  split = refl;
  given = sym (append-nil (stream s));
  all = λ e. refl;
}
add_payloads-IsAdded b audio (pcm ∷ ready) s =
    IsAdded-next (stream s) pcm ready (add_payload b (audio (length s.heard)) pcm s)
      (add_payloads b audio ready) (add_payload-Keeps b (audio (length s.heard)) pcm s)
      (add_payloads-IsAdded b audio ready)

-- The acknowledgement touches no audio.
acknowledge-Keeps :
    (b : Bounds) (a : Attempt) (s : Call) → Keeps (stream s) (acknowledge_input b a s)
unfolding acknowledge_input send_input_ack send_json stream
acknowledge-Keeps b returns s = ground arith
acknowledge-Keeps b times_out s = ground arith
acknowledge-Keeps b (raises p) s = ground arith

pub IsAdded-acknowledge :
    (b : Bounds) (a : Attempt) (before : Bytes) (ready : List Bytes) (r : Call × Ending)
    → IsAdded before ready r
    → IsAdded before ready (r ▸ acknowledge_input b a)
IsAdded-acknowledge b a before ready (s, goes_on) i = record {
  taken = i.taken;
  left = i.left;
  split = i.split;
  given = acknowledge-Keeps b a s ∙ i.given;
  all = λ e. i.all refl;
}
IsAdded-acknowledge b a before ready (s, stopped) i = i
IsAdded-acknowledge b a before ready (s, raising p) i = i

add_frame-IsAdded :
    (b : Bounds) (audio : ℕ → Attempt) (ack : Attempt) (previous : ℕ) (frame : LocalPcmFrame)
    (w : InputWindow) (ready : List Bytes) (s : Call)
    → IsAdded (stream s) ready (add_frame b audio ack previous frame (w, ready) s)
unfolding add_frame join stream
add_frame-IsAdded b audio ack previous frame w ready s =
    let s' : Call = record s { input_window = some w } in
    if-split (IsAdded (stream s) ready)
      (is_empty ready && leb frame.sequence (max previous w.highest_contiguous))
      (record s' { duplicate_frame_count = s.duplicate_frame_count + 1 }, stopped)
      (add_payloads b audio ready s' ▸ acknowledge_input b ack)
      (λ e. record {
        taken = [];
        left = ready;
        split = refl;
        given = sym (append-nil (stream s));
        all = λ h. absurd (ground arith);
      })
      (λ e.
        IsAdded-acknowledge b ack (stream s) ready (add_payloads b audio ready s')
          (add_payloads-IsAdded b audio ready s'))

-- For a frame of the current generation that the input window takes: what the session was given and what
-- waits for a full batch grow, together, by payloads that have become contiguous, in their order
-- and without a byte lost or repeated, whatever the session and the channel answer; and if the
-- handler comes to its end, by all of them.
pub take_frame-IsAdded :
    (b : Bounds) (audio : ℕ → Attempt) (ack : Attempt) (frame : LocalPcmFrame) (w w' : InputWindow)
    (ready : List Bytes) (s : Call)
    → (frame.generation == s.generation) ≡ true
    → accept w frame ≡ ok (w', ready)
    → IsAdded (stream s) ready (take_frame b audio ack frame w s)
unfolding take_frame
take_frame-IsAdded b audio ack frame w w' ready s current taken =
    rw (current, taken, take_frame)
      (add_frame-IsAdded b audio ack w.highest_contiguous frame w' ready s)
