-- ===== src/Common/Sets.antt =====
-- Python's `set`, as a list without repetitions: `add` leaves a member alone.
use Prim.Native.Nat.{suc, ◌≤◌}
use mathlib.Core.Path.{◌≡◌, refl}
use mathlib.Core.Bool.{Bool, true, false, ◌||◌, ◌&&◌, not}
use mathlib.Core.List.{List, [], ◌∷◌, ◌++◌}
use native.Mathlib.Omega.{arith}
use simple_harness_service_s.Common.Tests.{if◌then◌else◌}
use simple_harness_service_s.Common.Lists.{length}
use simple_harness_service_s.Common.Keys.{Eq, ◌==◌}

module _ {ℓ} {A : Type ℓ} ⦃e : Eq A⦄ where
  -- x in s
  unfoldable pub contains : List A → A → Bool
  contains [] a = false
  contains (x ∷ xs) a = x == a || contains xs a

  -- s.add(x)
  unfoldable pub add : A → List A → List A
  add a xs = if contains xs a then xs else a ∷ xs

  -- s.discard(x)
  unfoldable pub discard : A → List A → List A
  discard a [] = []
  discard a (x ∷ xs) = let rest = discard a xs in if x == a then rest else x ∷ rest

  pub contains-cons :
      (x : A) (xs : List A) (b : A) → contains (x ∷ xs) b ≡ (x == b || contains xs b)
  unfolding contains
  contains-cons x xs b = refl

  pub contains-append :
      (xs ys : List A) (b : A) → contains (xs ++ ys) b ≡ (contains xs b || contains ys b)
  unfolding contains
  contains-append [] ys b = refl
  contains-append (x ∷ xs) ys b = ground (arith, contains-append xs ys b)

  pub contains-discard :
      (a : A) (xs : List A) (b : A) → contains (discard a xs) b ≡ (contains xs b && not (a == b))
  unfolding contains discard
  contains-discard a [] b = refl
  contains-discard a (x ∷ xs) b =
      ground (arith, contains-discard a xs b, e.beq_iff x a, e.beq_iff x b, e.beq_iff a b)

module _ {ℓ} {A : Type ℓ} ⦃e : Eq A⦄ where
  pub contains-add :
      (a : A) (xs : List A) (b : A) → contains (add a xs) b ≡ (a == b || contains xs b)
  unfolding add contains
  contains-add a xs b = ground (arith, e.beq_iff a b)

  pub length-discard-le : (a : A) (xs : List A) → length (discard a xs) ≤ length xs
  unfolding discard
  length-discard-le a [] = omega arith
  length-discard-le a (x ∷ xs) = ground (arith, length-discard-le a xs)

  -- Discarding a member makes the set smaller.
  pub length-discard-lt :
      (a : A) (xs : List A) → contains xs a ≡ true → suc (length (discard a xs)) ≤ length xs
  unfolding discard contains
  length-discard-lt a [] h = ground arith
  length-discard-lt a (x ∷ xs) h = ground (arith, length-discard-le a xs, length-discard-lt a xs)
