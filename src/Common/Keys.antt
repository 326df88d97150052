-- ===== src/Common/Keys.antt =====
-- Types whose values the program compares with `==`: numbers, texts, and tuples of them.
use Prim.Native.Nat.{ℕ, compare, Ordering}
use Prim.Native.String.{String}
use mathlib.Core.Path.{◌≡◌, refl, ap}
use mathlib.Core.Logic.{◌↔◌}
use mathlib.Core.Bool.{Bool, true, false, ◌&&◌}
use native.Mathlib.Omega.{arith}
use text.Mathlib.Text.{◌==◌ as str_eq}
use text.Mathlib.TextEquality.{eq_iff}

abbrev pub nat_beq : ℕ → ℕ → Bool
nat_beq m n = elim (compare m n) [ Ordering.eq ↦ true | _ ↦ false ]

pub nat_beq_iff : (m n : ℕ) → (nat_beq m n ≡ true) ↔ (m ≡ n)
nat_beq_iff m n = ground arith

-- `beq` is the `==` of the type.
pub record Eq {ℓ} (K : Type ℓ) : Type ℓ where
  pub beq : K → K → Bool
  pub beq_iff : (j k : K) → (beq j k ≡ true) ↔ (j ≡ k)

instance abbrev pub string_eq : Eq String
string_eq = record { beq_iff = eq_iff; beq = str_eq }

instance abbrev pub nat_eq : Eq ℕ
nat_eq = record { beq_iff = nat_beq_iff; beq = nat_beq }

infix 50 ◌==◌
abbrev pub ◌==◌ {ℓ} : {K : Type ℓ} ⦃keys : Eq K⦄ → K → K → Bool
◌==◌ ⦃keys⦄ = keys.beq

module _ {ℓ κ} {A : Type ℓ} {B : Type κ} (e : Eq A) (f : Eq B) where
  pub pair_beq_iff : (x y : A × B) → ((e.beq x.0 y.0 && f.beq x.1 y.1) ≡ true) ↔ (x ≡ y)
  pair_beq_iff x y = (
    λ h. λ i. ((e.beq_iff x.0 y.0).0 (ground arith) i, (f.beq_iff x.1 y.1).0 (ground arith) i),
    λ p. ground (
      arith,
      (e.beq_iff x.0 y.0).1 (ap (λ (z : A × B). z.0) p),
      (f.beq_iff x.1 y.1).1 (ap (λ (z : A × B). z.1) p),
    ),
  )

instance abbrev pub pair_eq {ℓ κ} : {A : Type ℓ} {B : Type κ} ⦃e : Eq A⦄ ⦃f : Eq B⦄ → Eq (A × B)
pair_eq ⦃e⦄ ⦃f⦄ = record { beq = λ x y. e.beq x.0 y.0 && f.beq x.1 y.1; beq_iff = pair_beq_iff e f }

module _ {ℓ} {A : Type ℓ} ⦃e : Eq A⦄ where
  pub beq_refl : (a : A) → (a == a) ≡ true
  beq_refl a = (e.beq_iff a a).1 refl

  pub eq_of_beq : (a b : A) → (a == b) ≡ true → a ≡ b
  eq_of_beq a b = (e.beq_iff a b).0

  pub beq_sym : (a b : A) → (a == b) ≡ (b == a)
  beq_sym a b = ground (arith, e.beq_iff a b, e.beq_iff b a)
