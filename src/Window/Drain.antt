-- ===== src/Window/Drain.antt =====
-- The loop of `accept`: it hands on what has become contiguous, keeps the invariant, loses nothing,
-- and stops because the next payload is not there.
use simple_harness_service_s.Bytes.{Bytes}
use simple_harness_service_s.Window.{InputWindow, pop_next, drain}
use simple_harness_service_s.Window.Spec.{received, total, IsOpen, IsValid}
use simple_harness_service_s.Common.{
  ℕ, zero, suc, ◌+◌, ◌≤◌, ◌≡◌, refl, ◌∙◌, none, some, List, [], ◌∷◌, ◌++◌, inl, inr, length,
  length-append, append_assoc, get_elem?-append_left, get_elem?-append_last, nat_eq, Dict, get, put,
  remove, Distinct, arith, Option-cases, remove_absent, remove-Distinct, get-remove,
  length-remove-lt,
}

pub total-put :
    (k : ℕ) (v : Bytes) (d : Dict ℕ Bytes) → get d k ≡ none → total (put k v d) ≡ total d + length v
unfolding total put get
total-put k v [] h = omega arith
total-put k v ((j, w) ∷ d) h = ground (arith, total-put k v d)

total-remove :
    (k : ℕ) (v : Bytes) (d : Dict ℕ Bytes)
    → Distinct d
    → get d k ≡ some v
    → total (remove k d) + length v ≡ total d
unfolding total remove get
total-remove k v [] u h = ground arith
total-remove k v ((j, w) ∷ d) u h = ground (arith, total-remove k v d u.1, remove_absent k d)

module _ (w : InputWindow) (out : List Bytes) (p : Bytes)
    (next : get w.pending (w.highest_contiguous + 1) ≡ some p) where
  pop_next-IsOpen : IsOpen w out → IsOpen (pop_next w p) (out ++ p ∷ [])
  unfolding pop_next
  pop_next-IsOpen o =
      let k = w.highest_contiguous + 1 in
      let sizes = total-remove k p w.pending o.distinct next in
      record {
        handed_on = omega (arith, length-append out (p ∷ []), o.handed_on);
        distinct = remove-Distinct k w.pending o.distinct;
        counted = omega (arith, sizes, o.counted);
        bounded = omega (arith, o.bounded);
        above = λ s q h. ground (arith, get-remove k w.pending s, o.above s q);
        within = λ s q h. ground (arith, get-remove k w.pending s, o.within s q);
      }

  received-pop_next :
      IsOpen w out → (i : ℕ) → received (pop_next w p) (out ++ p ∷ []) i ≡ received w out i
  unfolding pop_next received
  received-pop_next o i = ground (
    arith,
    o.handed_on,
    next,
    get-remove (w.highest_contiguous + 1) w.pending (i + 1),
    get_elem?-append_left out (p ∷ []) i,
    get_elem?-append_last out p i,
  )

shorter :
    (w : InputWindow) (p : Bytes)
    → get w.pending (w.highest_contiguous + 1) ≡ some p
    → (fuel : ℕ) → length w.pending ≤ suc fuel
    → length (pop_next w p).pending ≤ fuel
unfolding pop_next
shorter w p next fuel n =
    omega (arith, length-remove-lt (w.highest_contiguous + 1) w.pending p next)

get-empty : (d : Dict ℕ Bytes) (k : ℕ) → length d ≤ 0 → get d k ≡ none
unfolding get
get-empty [] k h = refl
get-empty (e ∷ d) k h = absurd (omega arith)

-- With a round of fuel for each waiting entry, the loop ends by its test.
pub drain_lem :
    (fuel : ℕ) (w : InputWindow) (out ready : List Bytes)
    → length w.pending ≤ fuel
    → IsOpen w (out ++ ready)
    → IsValid (drain fuel w ready).0 (out ++ (drain fuel w ready).1)
      × ((i : ℕ)
          → received (drain fuel w ready).0 (out ++ (drain fuel w ready).1) i
            ≡ received w (out ++ ready) i)
unfolding drain
drain_lem zero w out ready n o =
    (record { opened = o; stopped = get-empty w.pending _ n }, λ i. refl)
drain_lem (suc fuel) w out ready n o =
    elim (Option-cases (get w.pending (w.highest_contiguous + 1))) [
      | inl stop ↦ rw (stop, drain) (record { opened = o; stopped = stop }, λ i. refl)
      | inr (p, next) ↦
          let regroup : (out ++ ready) ++ p ∷ [] ≡ out ++ (ready ++ p ∷ []) =
            append_assoc out ready (p ∷ []) in
          let popped = rw regroup at (pop_next-IsOpen w (out ++ ready) p next o) in
          let (valid, same) =
            drain_lem fuel (pop_next w p) out (ready ++ p ∷ []) (shorter w p next fuel n) popped in
          rw (next, drain)
            (valid, λ i. same i ∙ rw (← regroup) (received-pop_next w (out ++ ready) p next o i))
    ]
