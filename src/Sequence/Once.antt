-- ===== src/Sequence/Once.antt =====
-- Which numbers `SequenceWindow` of realtime/local.py has seen once it accepts a frame.
use simple_harness_service_s.Framing.{LocalPcmFrame, direction_code}
use simple_harness_service_s.Sequence.{SequenceWindow, advance, advance_all, is_seen, store, accept}
use simple_harness_service_s.Common.{
  ℕ, zero, suc, ◌+◌, ◌≤◌, ◌≡◌, refl, sym, ap, ◌∙◌, true, false, ◌||◌, List, [], ◌∷◌, nat_eq, ◌==◌,
  beq_refl, length, contains, contains-add, contains-discard, length-discard-lt, add, ok, arith,
  if-split,
}

-- A number that is pending is seen, and so is each one up to the highest contiguous one: to move the
-- next number from the former to the latter changes nothing.
advance-is_seen :
    (n : ℕ) (w : SequenceWindow)
    → contains w.pending (w.highest_contiguous + 1) ≡ true
    → is_seen n (advance w) ≡ is_seen n w
unfolding is_seen advance
advance-is_seen n w h = ground (
  arith,
  h,
  contains-discard (w.highest_contiguous + 1) w.pending n,
  nat_eq.beq_iff (w.highest_contiguous + 1) n,
)

advance_all-is_seen :
    (fuel n : ℕ) (w : SequenceWindow) → is_seen n (advance_all fuel w) ≡ is_seen n w
unfolding advance_all
advance_all-is_seen zero n w = refl
advance_all-is_seen (suc fuel) n w =
    if-split (λ v. is_seen n v ≡ is_seen n w) (contains w.pending (w.highest_contiguous + 1))
      (advance_all fuel (advance w)) w
      (λ k. advance_all-is_seen fuel n (advance w) ∙ advance-is_seen n w k) (λ k. refl)

added :
    (n m : ℕ) (w : SequenceWindow)
    → is_seen m (record w { pending = add n w.pending }) ≡ (n == m || is_seen m w)
unfolding is_seen
added n m w = ground (arith, contains-add n w.pending m)

advance-length :
    (w : SequenceWindow)
    → contains w.pending (w.highest_contiguous + 1) ≡ true
    → suc (length (advance w).pending) ≤ length w.pending
unfolding advance
advance-length w k = length-discard-lt (w.highest_contiguous + 1) w.pending k

no_member : (xs : List ℕ) (n : ℕ) → length xs ≤ 0 → contains xs n ≡ false
unfolding contains
no_member [] n l = refl
no_member (x ∷ xs) n l = absurd (omega arith)

-- The number after the highest contiguous one is not pending when the loop ends.
advance_all-ends :
    (fuel : ℕ) (w : SequenceWindow)
    → length w.pending ≤ fuel
    → contains (advance_all fuel w).pending ((advance_all fuel w).highest_contiguous + 1) ≡ false
unfolding advance_all
advance_all-ends zero w l = no_member w.pending (w.highest_contiguous + 1) l
advance_all-ends (suc fuel) w l =
    if-split (λ v. contains v.pending (v.highest_contiguous + 1) ≡ false)
      (contains w.pending (w.highest_contiguous + 1)) (advance_all fuel (advance w)) w
      (λ k. advance_all-ends fuel (advance w) (omega (arith, l, advance-length w k))) (λ k. k)

advance_all-same :
    (fuel : ℕ) (w : SequenceWindow)
    → ((advance_all fuel w).generation ≡ w.generation)
      × ((advance_all fuel w).direction ≡ w.direction)
unfolding advance_all advance
advance_all-same zero w = (refl, refl)
advance_all-same (suc fuel) w =
    if-split (λ v. (v.generation ≡ w.generation) × (v.direction ≡ w.direction))
      (contains w.pending (w.highest_contiguous + 1)) (advance_all fuel (advance w)) w
      (λ k. advance_all-same fuel (advance w)) (λ k. (refl, refl))

store-is_seen : (n m : ℕ) (w : SequenceWindow) → is_seen m (store n w) ≡ (n == m || is_seen m w)
unfolding store
store-is_seen n m w =
    advance_all-is_seen (length (add n w.pending)) m (record w { pending = add n w.pending })
    ∙ added n m w

store_lem :
    (n : ℕ) (w : SequenceWindow)
    → ((store n w).generation ≡ w.generation)
      × ((store n w).direction ≡ w.direction)
      × (contains (store n w).pending ((store n w).highest_contiguous + 1) ≡ false)
unfolding store
store_lem n w =
    let added_to = record w { pending = add n w.pending } in
    let same = advance_all-same (length (add n w.pending)) added_to in
    (same.0, same.1, advance_all-ends (length (add n w.pending)) added_to (omega arith))

-- A frame that is accepted was not seen before. Of all numbers, exactly this one and those that were seen
-- before are seen from then on, so that nothing is forgotten; the window does not accept the frame
-- again, and the number after the highest contiguous one is not waiting.
pub accept-once :
    (frame : LocalPcmFrame) (w w' : SequenceWindow)
    → accept frame w ≡ ok (w', true)
    → (is_seen frame.sequence w ≡ false)
      × ((n : ℕ) → is_seen n w' ≡ (frame.sequence == n || is_seen n w))
      × (accept frame w' ≡ ok (w', false))
      × (contains w'.pending (w'.highest_contiguous + 1) ≡ false)
unfolding accept
accept-once frame w w' h =
    let fresh : is_seen frame.sequence w ≡ false = ground arith in
    let same_generation : (frame.generation == w.generation) ≡ true = ground arith in
    let same_direction : (direction_code frame.direction == direction_code w.direction) ≡ true =
      ground arith in
    let stored : store frame.sequence w ≡ w' = ground arith in
    let (generation, direction, ends) = store_lem frame.sequence w in
    let kept : w'.generation ≡ w.generation =
      ap (λ (v : SequenceWindow). v.generation) (sym stored) ∙ generation in
    let kept_direction : w'.direction ≡ w.direction =
      ap (λ (v : SequenceWindow). v.direction) (sym stored) ∙ direction in
    let seen : (n : ℕ) → is_seen n w' ≡ (frame.sequence == n || is_seen n w) =
      λ n. ap (is_seen n) (sym stored) ∙ store-is_seen frame.sequence n w in
    let seen_now : is_seen frame.sequence w' ≡ true =
      seen frame.sequence ∙ ground (arith, beq_refl frame.sequence) in
    (
      fresh,
      seen,
      rw (kept, kept_direction, same_generation, same_direction, seen_now),
      rw stored at ends,
    )
