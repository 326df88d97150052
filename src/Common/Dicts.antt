-- ===== src/Common/Dicts.antt =====
-- Python's `dict`, as an association list in insertion order: an assignment to a present key keeps
-- its place.
use Prim.Native.Nat.{◌≤◌, ◌<◌}
use mathlib.Core.Path.{◌≡◌, refl}
use mathlib.Core.Option.{Option, none, some}
use mathlib.Core.List.{List, [], ◌∷◌}
use native.Mathlib.Omega.{arith}
use simple_harness_service_s.Common.Tests.{if◌then◌else◌}
use simple_harness_service_s.Common.Lists.{length}
use simple_harness_service_s.Common.Keys.{Eq, ◌==◌}

abbrev pub Dict {ℓ κ} : Type ℓ → Type κ → Type (ℓ ⊔ κ)
Dict K V = List (K × V)

module _ {ℓ κ} {K : Type ℓ} {V : Type κ} ⦃e : Eq K⦄ where
  -- d.get(k)
  unfoldable pub get : Dict K V → K → Option V
  get [] k = none
  get ((j, v) ∷ d) k = if j == k then some v else get d k

  -- d[k] = v
  unfoldable pub put : K → V → Dict K V → Dict K V
  put k v [] = (k, v) ∷ []
  put k v ((j, w) ∷ d) = let rest = put k v d in if j == k then (j, v) ∷ d else (j, w) ∷ rest

  -- d.pop(k, None)
  unfoldable pub remove : K → Dict K V → Dict K V
  remove k [] = []
  remove k ((j, w) ∷ d) = let rest = remove k d in if j == k then rest else (j, w) ∷ rest

  pub get-put :
      (k : K) (v : V) (d : Dict K V) (j : K)
      → get (put k v d) j ≡ (if k == j then some v else get d j)
  unfolding get put
  get-put k v [] j = refl
  get-put k v ((i, w) ∷ d) j =
      ground (arith, e.beq_iff k j, e.beq_iff i k, e.beq_iff i j, get-put k v d j)

  pub get-remove :
      (k : K) (d : Dict K V) (j : K) → get (remove k d) j ≡ (if k == j then none else get d j)
  unfolding get remove
  get-remove k [] j = ground arith
  get-remove k ((i, w) ∷ d) j =
      ground (arith, e.beq_iff k j, e.beq_iff i k, e.beq_iff i j, get-remove k d j)

  -- No key stands twice.
  abbrev pub Distinct : Dict K V → Type κ
  Distinct [] = Unit
  Distinct ((k, v) ∷ d) = (get d k ≡ none) × Distinct d

  pub put-Distinct : (k : K) (v : V) (d : Dict K V) → Distinct d → Distinct (put k v d)
  unfolding put get
  put-Distinct k v [] h = (refl, tt)
  put-Distinct k v ((j, w) ∷ d) h =
      ground (arith, put-Distinct k v d h.1, get-put k v d j, e.beq_iff j k, e.beq_iff k j)

  pub remove-Distinct : (k : K) (d : Dict K V) → Distinct d → Distinct (remove k d)
  unfolding remove
  remove-Distinct k [] h = tt
  remove-Distinct k ((j, w) ∷ d) h =
      ground (arith, remove-Distinct k d h.1, get-remove k d j, e.beq_iff j k, e.beq_iff k j)

  -- Removing a present key makes the dictionary smaller.
  pub length-remove-le : (k : K) (d : Dict K V) → length (remove k d) ≤ length d
  unfolding remove
  length-remove-le k [] = omega arith
  length-remove-le k ((j, w) ∷ d) = ground (arith, length-remove-le k d)

  pub length-remove-lt :
      (k : K) (d : Dict K V) (v : V) → get d k ≡ some v → length (remove k d) < length d
  unfolding remove get
  length-remove-lt k [] v h = ground arith
  length-remove-lt k ((j, w) ∷ d) v h = ground (arith, length-remove-le k d, length-remove-lt k d v)

  pub remove_absent : (k : K) (d : Dict K V) → get d k ≡ none → remove k d ≡ d
  unfolding remove get
  remove_absent k [] h = refl
  remove_absent k ((j, w) ∷ d) h = ground (arith, remove_absent k d)
