-- ===== src/OutputFlow/Ack.antt =====
-- What the loop of `_handle_output_ack` pops, for pending chunks that are numbered one after the
-- other from the last acknowledged one on.
use simple_harness_service_s.OutputFlow.{OutputFlow, acknowledged_size, pop_acknowledged, pop_all}
use simple_harness_service_s.Common.{
  ℕ, suc, ◌+◌, ◌-◌, ◌≤◌, ◌≡◌, refl, List, [], ◌∷◌, ◌++◌, leb, leb→le, leb→gt, if◌then◌else◌, length,
  arith, Bool-cases, inl, inr, ◌∙◌, ap, ap₂,
}

-- The chunks bear the numbers after `acked`, up to `last`.
unfoldable pub IsNumbered : ℕ → List (ℕ × ℕ) → ℕ → Type 0
IsNumbered acked [] last = acked ≡ last
IsNumbered acked ((sequence, size) ∷ pending) last =
    (sequence ≡ suc acked) × IsNumbered (suc acked) pending last

unfoldable pub sizes : List (ℕ × ℕ) → ℕ
sizes [] = 0
sizes ((sequence, size) ∷ pending) = size + sizes pending

-- The chunks with a number after `highest`
unfoldable pub after : ℕ → List (ℕ × ℕ) → List (ℕ × ℕ)
after highest [] = []
after highest ((sequence, size) ∷ pending) =
    let rest = after highest pending in
    if leb sequence highest then rest else (sequence, size) ∷ rest

pub IsNumbered-push :
    (acked : ℕ) (pending : List (ℕ × ℕ)) (last size : ℕ)
    → IsNumbered acked pending last
    → IsNumbered acked (pending ++ (last + 1, size) ∷ []) (last + 1)
unfolding IsNumbered
IsNumbered-push acked [] last size h = (omega arith, omega arith)
IsNumbered-push acked ((sequence, s) ∷ pending) last size h =
    (h.0, IsNumbered-push (suc acked) pending last size h.1)

pub sizes-append : (xs ys : List (ℕ × ℕ)) → sizes (xs ++ ys) ≡ sizes xs + sizes ys
unfolding sizes
sizes-append [] ys = omega arith
sizes-append ((n, s) ∷ xs) ys = omega (arith, sizes-append xs ys)

pub after_all :
    (highest acked : ℕ) (pending : List (ℕ × ℕ)) (last : ℕ)
    → IsNumbered acked pending last
    → highest ≤ acked
    → (after highest pending ≡ pending) × (acknowledged_size highest pending ≡ 0)
unfolding IsNumbered after acknowledged_size
after_all highest acked [] last h l = (refl, refl)
after_all highest acked ((sequence, s) ∷ pending) last h l =
    let (rest, none_of_it) = after_all highest (suc acked) pending last h.1 (omega arith) in
    elim (Bool-cases (leb sequence highest)) [
      | inl reached ↦ absurd (omega (arith, h.0, leb→le sequence highest reached))
      | inr beyond ↦ (rw (beyond, rest), rw (beyond, none_of_it))
    ]

pub after-IsNumbered :
    (highest acked : ℕ) (pending : List (ℕ × ℕ)) (last : ℕ)
    → IsNumbered acked pending last
    → acked ≤ highest
    → highest ≤ last
    → IsNumbered highest (after highest pending) last
unfolding IsNumbered after
after-IsNumbered highest acked [] last h l m = omega (arith, h)
after-IsNumbered highest acked ((sequence, s) ∷ pending) last h l m =
    elim (Bool-cases (leb sequence highest)) [
      | inl reached ↦ rw reached (
          after-IsNumbered highest (suc acked) pending last h.1
            (omega (arith, h.0, leb→le sequence highest reached)) m)
      | inr beyond ↦
          let same : acked ≡ highest = omega (arith, h.0, l, leb→gt sequence highest beyond) in
          let (rest, nothing) =
            after_all highest (suc acked) pending last h.1 (omega (arith, same)) in
          rw (beyond, rest) (h.0 ∙ ap suc same, rw same at h.1)
    ]

pub after-sizes :
    (highest : ℕ) (pending : List (ℕ × ℕ))
    → acknowledged_size highest pending + sizes (after highest pending) ≡ sizes pending
unfolding acknowledged_size sizes after
after-sizes highest [] = refl
after-sizes highest ((sequence, s) ∷ pending) =
    let rest = after-sizes highest pending in
    elim (Bool-cases (leb sequence highest)) [
      | inl reached ↦ rw reached (omega (arith, rest))
      | inr beyond ↦ rw beyond (omega (arith, rest))
    ]

pub length-after :
    (highest : ℕ) (pending : List (ℕ × ℕ)) → length (after highest pending) ≤ length pending
unfolding after
length-after highest [] = omega arith
length-after highest ((sequence, s) ∷ pending) =
    let rest = length-after highest pending in
    elim (Bool-cases (leb sequence highest)) [
      | inl reached ↦ rw reached (omega (arith, rest))
      | inr beyond ↦ rw beyond (omega (arith, rest))
    ]

unfoldable pub settled : List (ℕ × ℕ) → ℕ → ℕ → OutputFlow → OutputFlow
settled pending pending_bytes acked_bytes f = record f {
  output_pending = pending;
  output_pending_bytes = pending_bytes;
  output_acked_bytes = acked_bytes;
}

settled_self :
    (f : OutputFlow) → f ≡ settled f.output_pending f.output_pending_bytes f.output_acked_bytes f
unfolding settled
settled_self f = refl

settled-pop :
    (size : ℕ) (rest pending : List (ℕ × ℕ)) (b a : ℕ) (f : OutputFlow)
    → settled pending b a (pop_acknowledged size rest f) ≡ settled pending b a f
unfolding settled pop_acknowledged
settled-pop size rest pending b a f = refl

-- The loop leaves exactly the chunks after `highest`, and moves the sizes of the others from the
-- pending bytes to the acknowledged ones.
pub pop_all_lem :
    (highest acked : ℕ) (pending : List (ℕ × ℕ)) (last : ℕ) (f : OutputFlow)
    → IsNumbered acked pending last
    → f.output_pending ≡ pending
    → pop_all highest pending f
      ≡ settled
          (after highest pending)
          (f.output_pending_bytes - acknowledged_size highest pending)
          (f.output_acked_bytes + acknowledged_size highest pending)
          f
unfolding IsNumbered pop_all pop_acknowledged after acknowledged_size
pop_all_lem highest acked [] last f h e =
    let b : f.output_pending_bytes ≡ f.output_pending_bytes - 0 = omega arith in
    let a : f.output_acked_bytes ≡ f.output_acked_bytes + 0 = omega arith in
    settled_self f
    ∙ ap (λ p. settled p f.output_pending_bytes f.output_acked_bytes f) e
    ∙ ap (λ n. settled [] n f.output_acked_bytes f) b
    ∙ ap (λ n. settled [] (f.output_pending_bytes - 0) n f) a
pop_all_lem highest acked ((sequence, s) ∷ pending) last f h e =
    elim (Bool-cases (leb sequence highest)) [
      | inl reached ↦ rw reached (
          pop_all_lem highest (suc acked) pending last (pop_acknowledged s pending f) h.1 refl
          ∙ settled-pop s pending (after highest pending) _ _ f
          ∙ ap₂ (λ b a. settled (after highest pending) b a f) (omega arith) (omega arith))
      | inr beyond ↦
          let (rest, nothing) =
            after_all highest (suc acked) pending last h.1
              (omega (arith, h.0, leb→gt sequence highest beyond)) in
          rw (beyond, rest, nothing)
            (settled_self f
              ∙ ap (λ p. settled p f.output_pending_bytes f.output_acked_bytes f) e
              ∙ ap₂ (λ b a. settled ((sequence, s) ∷ pending) b a f) (omega arith) (omega arith))
    ]
