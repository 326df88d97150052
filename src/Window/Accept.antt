-- ===== src/Window/Accept.antt =====
-- One call of `accept`: it keeps the invariant, and refines the store of the first payload of each
-- sequence number.
use simple_harness_service_s.Bytes.{Bytes}
use simple_harness_service_s.Framing.{LocalPcmFrame}
use simple_harness_service_s.Window.{
  InputWindow, insert_pending, store_frame, accept, window_frames, window_bytes, is_input,
}
use simple_harness_service_s.Window.Spec.{received, IsOpen, IsValid}
use simple_harness_service_s.Window.Drain.{total-put, drain_lem}
use simple_harness_service_s.Common.{
  is_some, Exception, ◌≢◌, ℕ, ◌+◌, ◌≤◌, ◌<◌, ◌≡◌, ◌∙◌, none, some, List, [], ◌++◌, inl, inr,
  append-nil, length, get_elem?-IsSome, nat_eq, get, arith, if◌then◌else◌, is_none, ◌&&◌, not,
  put-Distinct, get-put, ◌==◌, true, false, ok, raise, realtime_error, protocol_error, busy, leb,
  ◌↔◌, ◌⊎◌,
}

-- The frame is of this call, new, in the window and fits.
pub record IsNew (w : InputWindow) (f : LocalPcmFrame) : Type 0 where
  pub above : w.highest_contiguous < f.sequence
  pub absent : get w.pending f.sequence ≡ none
  pub within : f.sequence ≤ w.highest_contiguous + window_frames
  pub fits : w.pending_bytes + length f.payload ≤ window_bytes

insert_pending-IsOpen :
    {w : InputWindow} {out : List Bytes} {f : LocalPcmFrame}
    → IsNew w f
    → IsOpen w out
    → IsOpen (insert_pending w f) out
unfolding insert_pending
insert_pending-IsOpen {w} {out} {f} n o = record {
  handed_on = o.handed_on;
  distinct = put-Distinct f.sequence f.payload w.pending o.distinct;
  counted = omega (arith, total-put f.sequence f.payload w.pending n.absent, o.counted);
  bounded = n.fits;
  above = λ s q h. ground (arith, get-put f.sequence f.payload w.pending s, o.above s q, n.above);
  within =
      λ s q h. ground (arith, get-put f.sequence f.payload w.pending s, o.within s q, n.within);
}

received-insert_pending :
    (w : InputWindow) (out : List Bytes) (f : LocalPcmFrame)
    → IsNew w f
    → (i : ℕ)
    → received (insert_pending w f) out i
      ≡ (if f.sequence == i + 1 then some f.payload else received w out i)
unfolding insert_pending received
received-insert_pending w out f n i =
    ground (arith, get-put f.sequence f.payload w.pending (i + 1), n.above)

store_frame_lem :
    (w : InputWindow) (out : List Bytes) (f : LocalPcmFrame)
    → IsNew w f
    → IsOpen w out
    → IsValid (store_frame w f).0 (out ++ (store_frame w f).1)
      × ((i : ℕ)
          → received (store_frame w f).0 (out ++ (store_frame w f).1) i
            ≡ (if f.sequence == i + 1 then some f.payload else received w out i))
unfolding store_frame
store_frame_lem w out f n o =
    let inserted = insert_pending-IsOpen n o in
    let regroup : out ++ [] ≡ out = append-nil out in
    let (valid, same) =
      drain_lem (length (insert_pending w f).pending) (insert_pending w f) out [] (omega arith)
        (rw regroup inserted) in
    (valid, λ i. same i ∙ rw regroup (received-insert_pending w out f n i))

-- A call that returns either changed nothing, or stored a new frame of this call.
accept-cases :
    (w : InputWindow) (f : LocalPcmFrame) (w' : InputWindow) (ready : List Bytes)
    → accept w f ≡ ok (w', ready)
    → ((w' ≡ w)
        × (ready ≡ [])
        × ((f.generation == w.generation
              && (not (leb f.sequence w.highest_contiguous) && is_none (get w.pending f.sequence)))
            ≡ false))
      ⊎ (((f.generation == w.generation) ≡ true)
          × IsNew w f
          × ((w' ≡ (store_frame w f).0) × (ready ≡ (store_frame w f).1)))
unfolding accept
accept-cases w f w' ready h = ground arith

received_lem :
    (w : InputWindow) (out : List Bytes) (f : LocalPcmFrame)
    → IsOpen w out
    → (i : ℕ)
    → (f.generation == w.generation
        && (not (leb f.sequence w.highest_contiguous) && is_none (get w.pending f.sequence)))
      ≡ false
    → received w out i ≡ (
        if f.generation == w.generation && (f.sequence == i + 1 && is_none (received w out i))
        then some f.payload
        else received w out i)
unfolding received
received_lem w out f o i h = ground (arith, get_elem?-IsSome out i, o.handed_on)

fresh_lem :
    (w : InputWindow) (out : List Bytes) (f : LocalPcmFrame)
    → IsNew w f
    → (f.generation == w.generation) ≡ true
    → (i : ℕ)
    → (if f.sequence == i + 1 then some f.payload else received w out i) ≡ (
        if f.generation == w.generation && (f.sequence == i + 1 && is_none (received w out i))
        then some f.payload
        else received w out i)
unfolding received
fresh_lem w out f n g i = ground (arith, n.above, n.absent)

-- A call of `accept` that returns keeps the invariant and refines the abstract store: of the payloads
-- received, handed on or waiting, only that of the frame's own sequence number can change, and only
-- from absent to the frame's payload, if the frame is of the window's call.
pub accept-refines :
    (w : InputWindow) (out : List Bytes) (f : LocalPcmFrame) (w' : InputWindow) (ready : List Bytes)
    → IsValid w out
    → accept w f ≡ ok (w', ready)
    → IsValid w' (out ++ ready)
      × ((i : ℕ)
          → received w' (out ++ ready) i ≡ (
              if f.generation == w.generation && (f.sequence == i + 1 && is_none (received w out i))
              then some f.payload
              else received w out i))
accept-refines w out f w' ready v h = elim (accept-cases w f w' ready h) [
  | inl (same, nothing, old) ↦
      rw (same, nothing, append-nil out) (v, λ i. received_lem w out f v.opened i old)
  | inr (g, n, (state, handed)) ↦
      let (valid, stores) = store_frame_lem w out f n v.opened in
      rw (state, handed) (valid, λ i. stores i ∙ fresh_lem w out f n g i)
]

-- Whether the window has the payload of a frame of its call already
abbrev pub IsOld : InputWindow → LocalPcmFrame → Type 0
IsOld w f = (f.sequence ≤ w.highest_contiguous) ⊎ (is_some (get w.pending f.sequence) ≡ true)

-- When `accept` raises which exception, and which frames it passes over
pub record IsGuarded (w : InputWindow) (f : LocalPcmFrame) : Type 0 where
  pub two_errors :
      (e : Exception)
      → accept w f ≡ raise e
      → (e ≡ realtime_error protocol_error false) ⊎ (e ≡ realtime_error busy false)
  pub violation : (accept w f ≡ raise (realtime_error protocol_error false)) ↔ (
      (f.generation ≡ w.generation)
      × ((is_input f.direction ≡ false)
          ⊎ ((w.highest_contiguous + window_frames < f.sequence)
              × (get w.pending f.sequence ≡ none))))
  pub overfull : (accept w f ≡ raise (realtime_error busy false)) ↔ (
      (f.generation ≡ w.generation)
      × (is_input f.direction ≡ true)
      × (w.highest_contiguous < f.sequence)
      × (f.sequence ≤ w.highest_contiguous + window_frames)
      × (get w.pending f.sequence ≡ none)
      × (window_bytes < w.pending_bytes + length f.payload))
  pub passed_over :
      (f.generation ≢ w.generation) ⊎ ((is_input f.direction ≡ true) × IsOld w f)
      → accept w f ≡ ok (w, [])

-- `accept` raises nothing but two exceptions: a protocol error exactly for a frame of this call that is
-- not input, or that is new and more than a window ahead, and a final busy error exactly for a new
-- input frame within the window whose payload would overfill the window's bytes. An input frame whose
-- payload the window has, or has handed on, and a frame of another call, raise nothing, change nothing
-- and hand nothing on.
pub accept-raises : (w : InputWindow) (f : LocalPcmFrame) → IsGuarded w f
unfolding accept
accept-raises w f = record {
  two_errors = λ e h. ground arith;
  violation = (λ h. ground arith, λ h. ground arith);
  overfull = (λ h. ground arith, λ h. ground arith);
  passed_over = λ h. ground arith;
}
