-- ===== src/Window/Stream.antt =====
-- Successive calls of `accept` over the frames of a call, as `_handle_input_audio` makes them.
use simple_harness_service_s.Bytes.{Bytes}
use simple_harness_service_s.Framing.{LocalPcmFrame}
use simple_harness_service_s.Window.{
  window_bytes, InputWindow, init, insert_pending, store_frame, pop_next, accept, drain,
}
use simple_harness_service_s.Window.Spec.{received, IsValid, init-IsValid}
use simple_harness_service_s.Window.Accept.{accept-refines}
use simple_harness_service_s.Common.{
  ℕ, zero, suc, ◌+◌, ◌≤◌, ◌<◌, ◌≡◌, refl, ap, ◌∙◌, sym, Option, none, some, List, [], ◌∷◌, ◌++◌,
  inl, inr, append-nil, append_assoc, length, get_elem?, get, nat_eq, arith, Option-cases,
  if◌then◌else◌, is_none, ◌&&◌, ◌==◌, Result, ok, ◌>>=◌, >>=-eq-ok,
}

-- All that is handed on by the calls for the frames of a list, in turn.
unfoldable pub accept_all : InputWindow → List LocalPcmFrame → Result (InputWindow × List Bytes)
accept_all w [] = ok (w, [])
accept_all w (f ∷ fs) = do
  (w', ready) ← accept w f
  (w'', later) ← accept_all w' fs
  ok (w'', ready ++ later)

-- The payload of the first frame of the call that has the sequence number `i + 1`.
unfoldable pub first_payload : ℕ → List LocalPcmFrame → ℕ → Option Bytes
first_payload generation [] i = none
first_payload generation (f ∷ fs) i =
    if f.generation == generation && f.sequence == i + 1
    then some f.payload
    else first_payload generation fs i

abbrev or_else : Option Bytes → Option Bytes → Option Bytes
or_else none q = q
or_else (some p) q = some p

generation-drain :
    (fuel : ℕ) (w : InputWindow) (ready : List Bytes)
    → (drain fuel w ready).0.generation ≡ w.generation
unfolding drain pop_next
generation-drain zero w ready = refl
generation-drain (suc fuel) w ready =
    elim (Option-cases (get w.pending (w.highest_contiguous + 1))) [
      | inl stop ↦ rw (stop, drain)
      | inr (p, next) ↦ rw (next, drain) (generation-drain fuel (pop_next w p) (ready ++ p ∷ []))
    ]

pub generation-accept :
    (w : InputWindow) (f : LocalPcmFrame) (w' : InputWindow) (ready : List Bytes)
    → accept w f ≡ ok (w', ready)
    → w'.generation ≡ w.generation
unfolding accept store_frame insert_pending
generation-accept w f w' ready h =
    ground (arith, generation-drain (length (insert_pending w f).pending) (insert_pending w f) [])

first_step :
    (r : Option Bytes) (g : ℕ) (f : LocalPcmFrame) (fs : List LocalPcmFrame) (i : ℕ)
    → or_else
        (if f.generation == g && (f.sequence == i + 1 && is_none r) then some f.payload else r)
        (first_payload g fs i)
      ≡ or_else r (first_payload g (f ∷ fs) i)
unfolding first_payload
first_step r g f fs i = ground arith

or_else-none : (r : Option Bytes) → or_else r none ≡ r
or_else-none none = refl
or_else-none (some p) = refl

accept_all-cons :
    (w : InputWindow) (f : LocalPcmFrame) (fs : List LocalPcmFrame) (w' : InputWindow)
    (out : List Bytes)
    → accept_all w (f ∷ fs) ≡ ok (w', out)
    → (m : InputWindow) × (ready : List Bytes) × (later : List Bytes) × (accept w f ≡ ok (m, ready))
      × (accept_all m fs ≡ ok (w', later))
      × (out ≡ ready ++ later)
unfolding accept_all
accept_all-cons w f fs w' out h =
    let (a, first, rest) = >>=-eq-ok (accept w f) _ h in
    let (b, second, last) = >>=-eq-ok (accept_all a.0 fs) _ rest in
    (a.0, a.1, b.1, first, ground arith, ground arith)

-- From any point of the call: later frames fill what is absent, the first of each number first.
accept_all-received :
    (w : InputWindow) (out : List Bytes) (fs : List LocalPcmFrame) (w' : InputWindow)
    (later : List Bytes)
    → IsValid w out
    → accept_all w fs ≡ ok (w', later)
    → IsValid w' (out ++ later)
      × ((i : ℕ)
          → received w' (out ++ later) i
            ≡ or_else (received w out i) (first_payload w.generation fs i))
unfolding accept_all first_payload
accept_all-received w out [] w' later v h =
    let same : w ≡ w' = ground arith in
    let nothing : later ≡ [] = ground arith in
    rw (← same, nothing, append-nil out) (v, λ i. sym (or_else-none (received w out i)))
accept_all-received w out (f ∷ fs) w' later v h =
    let (m, ready, rest, first, second, parts) = accept_all-cons w f fs w' later h in
    let (valid, one) = accept-refines w out f m ready v first in
    let (valid', all) = accept_all-received m (out ++ ready) fs w' rest valid second in
    rw (parts, ← append_assoc out ready rest)
      (
        valid',
        λ i.
            all i
            ∙ ap (λ o. or_else o (first_payload m.generation fs i)) (one i)
            ∙ ap
                (λ g.
                  or_else
                    (if f.generation == w.generation
                        && (f.sequence == i + 1 && is_none (received w out i))
                      then some f.payload
                      else received w out i)
                    (first_payload g fs i))
                (generation-accept w f m ready first)
            ∙ first_step (received w out i) w.generation f fs i,
      )

received-init : (g i : ℕ) → received (init g) [] i ≡ none
unfolding received init get
received-init g i = ground arith

-- Whatever order the frames of a call arrive in, and however often, as long as none is refused: what
-- was handed on is the longest unbroken run from sequence number 1, each payload once and in order,
-- and each is that of the first frame of its number. The window holds the other payloads received,
-- and no more than its bounds.
pub accept_all-in_order :
    (g : ℕ) (fs : List LocalPcmFrame) (w : InputWindow) (out : List Bytes)
    → accept_all (init g) fs ≡ ok (w, out)
    → (length out ≡ w.highest_contiguous)
      × ((i : ℕ) → i < length out → get_elem? out i ≡ first_payload g fs i)
      × (first_payload g fs (length out) ≡ none)
      × ((i : ℕ) → length out ≤ i → get w.pending (i + 1) ≡ first_payload g fs i)
      × (w.pending_bytes ≤ window_bytes)
unfolding received init
accept_all-in_order g fs w out h =
    let (v, all) = accept_all-received (init g) [] fs w out (init-IsValid g) h in
    let view : (i : ℕ) → received w out i ≡ first_payload g fs i =
      λ i. all i ∙ ap (λ o. or_else o (first_payload g fs i)) (received-init g i) in
    (
      v.opened.handed_on,
      λ i l. ground (arith, view i, v.opened.handed_on),
      ground (arith, view (length out), v.opened.handed_on, v.stopped),
      λ i l. ground (arith, view i, v.opened.handed_on),
      v.opened.bounded,
    )
