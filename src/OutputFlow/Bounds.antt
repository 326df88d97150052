-- ===== src/OutputFlow/Bounds.antt =====
-- The invariant of the output flow control, kept by every operation: nothing is acknowledged that was
-- not sent, the window bounds hold, and the playback position stays within the acknowledged audio.
use simple_harness_service_s.Events.{RealtimeAudioFormat}
use simple_harness_service_s.Window.{window_frames, window_bytes}
use simple_harness_service_s.OutputFlow.{
  OutputFlow, init, acknowledged_size, AudioAck, position_of, played_size, store_ack,
  handle_output_ack, has_capacity, push_chunk, send_output_chunk,
}
use simple_harness_service_s.OutputFlow.Ack.{
  IsNumbered, IsNumbered-push, sizes, sizes-append, after_all, after-IsNumbered, after-sizes,
  length-after, pop_all_lem, settled,
}
use simple_harness_service_s.Common.{
  ℕ, suc, ◌+◌, ◌*◌, ◌≤◌, ◌≡◌, refl, Bool, true, false, not, ◌&&◌, ◌||◌, List, [], ◌∷◌, ltb, ltb→lt,
  ltb→ge, leb, leb→le, leb→gt, length, length-append, arith, Bool-cases, inl, inr, ok, Option-cases,
}

pub record IsValid (f : OutputFlow) : Type 0 where
  pub numbered : IsNumbered f.output_acked f.output_pending f.output_sequence
  pub counted : f.output_pending_bytes ≡ sizes f.output_pending
  pub few : length f.output_pending ≤ window_frames
  pub small : f.output_pending_bytes ≤ window_bytes
  pub heard : played_size f.output_audio f.played_audio_ms ≤ f.output_acked_bytes * 1000

-- A controller starts with nothing sent and nothing played.
pub init-IsValid : (format : RealtimeAudioFormat) → IsValid (init format)
unfolding init IsNumbered sizes
init-IsValid format = record {
  numbered = refl;
  counted = refl;
  few = omega arith;
  small = omega arith;
  heard = omega arith;
}

both_true : (a b : Bool) → a && b ≡ true → (a ≡ true) × (b ≡ true)
both_true true b h = (refl, h)
both_true false b h = absurd (ground arith)

push_chunk-IsValid :
    (size : ℕ) (f : OutputFlow)
    → IsValid f
    → has_capacity size f ≡ true
    → IsValid (push_chunk size f)
unfolding push_chunk has_capacity sizes
push_chunk-IsValid size f v h =
    let (frames, bytes) =
      both_true (ltb (length f.output_pending) window_frames)
        (leb (f.output_pending_bytes + size) window_bytes) h in
    record {
      numbered = IsNumbered-push f.output_acked f.output_pending f.output_sequence size v.numbered;
      counted =
          omega
            (arith, v.counted, sizes-append f.output_pending ((f.output_sequence + 1, size) ∷ []));
      few = omega (
        arith,
        ltb→lt _ _ frames,
        length-append f.output_pending ((f.output_sequence + 1, size) ∷ []),
      );
      small = leb→le _ _ bytes;
      heard = v.heard;
    }

capacity_of : (t c h : Bool) → not (t || not c || h) ≡ false → (t || not c) ≡ false → h ≡ true
capacity_of true c h a b = absurd (ground arith)
capacity_of false true h a b = ground arith
capacity_of false false h a b = absurd (ground arith)

-- Sending a chunk keeps the window valid, whether the chunk waits, is dropped or is sent.
pub send_output_chunk-IsValid :
    (size : ℕ) (f : OutputFlow) → IsValid f → IsValid (send_output_chunk size f).0
unfolding send_output_chunk
send_output_chunk-IsValid size f v =
    elim (Bool-cases (not (f.terminal || not f.current || has_capacity size f))) [
      | inl full ↦ rw full v
      | inr free ↦ elim (Bool-cases (f.terminal || not f.current)) [
        | inl over ↦ rw (free, over) v
        | inr on ↦
            rw (free, on) (push_chunk-IsValid size f v (capacity_of f.terminal f.current _ free on))
      ]
    ]

-- What the guards of the handler leave.
accepted_lem :
    (ack : AudioAck) (f f' : OutputFlow)
    → handle_output_ack ack f ≡ ok f'
    → (highest position : ℕ) × (f' ≡ store_ack highest position f)
      × (highest ≤ f.output_sequence)
      × (f.played_audio_ms ≤ position)
      × (played_size f.output_audio position
          ≤ (f.output_acked_bytes + acknowledged_size highest f.output_pending) * 1000)
unfolding handle_output_ack
accepted_lem ack f f' h = elim (Option-cases ack.highest_contiguous_sequence) [
  | inl missing ↦ absurd (ground (arith, h, missing))
  | inr (highest, is_number) ↦ elim (Option-cases (position_of ack f)) [
    | inl missing ↦ absurd (ground (arith, h, is_number, missing))
    | inr (position, is_position) ↦
        let bytes = (f.output_acked_bytes + acknowledged_size highest f.output_pending) * 1000 in
        elim (Bool-cases (ltb bytes (played_size f.output_audio position))) [
          | inl beyond ↦ absurd (ground (arith, h, is_number, is_position, beyond))
          | inr covered ↦ (
            highest,
            position,
            ground (arith, h, is_number, is_position),
            ground (arith, h, is_number, is_position),
            ground (arith, h, is_number, is_position),
            ltb→ge _ _ covered,
          )
        ]
  ]
]

store_ack-IsValid :
    (highest position : ℕ) (f : OutputFlow)
    → IsValid f
    → highest ≤ f.output_sequence
    → played_size f.output_audio position
      ≤ (f.output_acked_bytes + acknowledged_size highest f.output_pending) * 1000
    → IsValid (store_ack highest position f)
unfolding store_ack settled
store_ack-IsValid highest position f v l p = elim (Bool-cases (leb highest f.output_acked)) [
  | inl old ↦
      let (_, nothing) =
        after_all highest f.output_acked f.output_pending f.output_sequence v.numbered
          (leb→le _ _ old) in
      rw old (record {
        numbered = v.numbered;
        counted = v.counted;
        few = v.few;
        small = v.small;
        heard = omega (arith, p, nothing);
      })
  | inr new ↦
      let acked = record f { played_audio_ms = position; output_acked = highest } in
      let total = after-sizes highest f.output_pending in
      rw
        (
          new,
          pop_all_lem highest f.output_acked f.output_pending f.output_sequence acked v.numbered
              refl,
        )
        (record {
          numbered =
              after-IsNumbered highest f.output_acked f.output_pending f.output_sequence v.numbered
                (omega (arith, leb→gt _ _ new)) l;
          counted = omega (arith, v.counted, total);
          few = omega (arith, v.few, length-after highest f.output_pending);
          small = omega (arith, v.small);
          heard = p;
        })
]

-- An acknowledgement that is accepted keeps the window valid: every pending chunk is still numbered
-- after the last acknowledged one, the pending bytes are still the sum of their sizes, the bounds of
-- the window hold, and the playback position is within the audio acknowledged so far.
pub handle_output_ack-IsValid :
    (ack : AudioAck) (f f' : OutputFlow) → IsValid f → handle_output_ack ack f ≡ ok f' → IsValid f'
handle_output_ack-IsValid ack f f' v h =
    let (highest, position, e, l, _, p) = accepted_lem ack f f' h in
    rw e (store_ack-IsValid highest position f v l p)

IsNumbered-le :
    (acked : ℕ) (pending : List (ℕ × ℕ)) (last : ℕ) → IsNumbered acked pending last → acked ≤ last
unfolding IsNumbered
IsNumbered-le acked [] last h = omega (arith, h)
IsNumbered-le acked ((n, s) ∷ pending) last h =
    omega (arith, IsNumbered-le (suc acked) pending last h.1)

store_ack-forward :
    (highest position : ℕ) (f : OutputFlow)
    → IsValid f
    → highest ≤ f.output_sequence
    → ((store_ack highest position f).played_audio_ms ≡ position)
      × (f.output_acked ≤ (store_ack highest position f).output_acked)
      × ((store_ack highest position f).output_acked ≤ f.output_sequence)
unfolding store_ack settled
store_ack-forward highest position f v l = elim (Bool-cases (leb highest f.output_acked)) [
  | inl old ↦ rw old (refl, omega arith, IsNumbered-le _ _ _ v.numbered)
  | inr new ↦
      let acked = record f { played_audio_ms = position; output_acked = highest } in
      rw
        (
          new,
          pop_all_lem highest f.output_acked f.output_pending f.output_sequence acked v.numbered
              refl,
        )
        (refl, omega (arith, leb→gt _ _ new), l)
]

-- An acknowledgement that is accepted moves neither the playback position nor the acknowledged
-- sequence back, and acknowledges nothing that was not sent.
pub handle_output_ack-forward :
    (ack : AudioAck) (f f' : OutputFlow)
    → IsValid f
    → handle_output_ack ack f ≡ ok f'
    → (f.played_audio_ms ≤ f'.played_audio_ms)
      × (f.output_acked ≤ f'.output_acked)
      × (f'.output_acked ≤ f.output_sequence)
handle_output_ack-forward ack f f' v h =
    let (highest, position, e, l, forward, _) = accepted_lem ack f f' h in
    let (played, onward, known) = store_ack-forward highest position f v l in
    rw (e, played) (forward, onward, known)
