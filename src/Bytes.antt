-- ===== src/Bytes.antt =====
-- Byte strings: lists of numbers below 256, and the unsigned big-endian fields that
-- `struct.pack("!...")`, `int.to_bytes(n, "big")` and `int.from_bytes(b, "big")` write and read.
use native.Mathlib.Nat.{pow-suc, mul-le-mul_right}
use simple_harness_service_s.Common.{
  ℕ, zero, suc, ◌+◌, ◌*◌, ◌/◌, ◌%◌, ◌^◌, ◌≤◌, ◌<◌, ◌≡◌, refl, ◌∙◌, List, [], ◌∷◌, ◌++◌, arith,
  length, All, All-append, length-append, append_assoc, append-nil,
}

abbrev pub Bytes : Type 0
Bytes = List ℕ

abbrev pub IsBytes : Bytes → Type 0
IsBytes = All (λ b. b < 256)

-- The digits of `n` in base 256, most significant first, in a field of `k` bytes.
unfoldable pub to_bytes : ℕ → ℕ → Bytes
to_bytes zero n = []
to_bytes (suc k) n = to_bytes k (n / 256) ++ (n % 256) ∷ []

unfoldable pub from_bytes_acc : ℕ → Bytes → ℕ
from_bytes_acc acc [] = acc
from_bytes_acc acc (b ∷ bs) = from_bytes_acc (acc * 256 + b) bs

abbrev pub from_bytes : Bytes → ℕ
from_bytes = from_bytes_acc 0

pub length-to_bytes : (k n : ℕ) → length (to_bytes k n) ≡ k
unfolding to_bytes
length-to_bytes zero n = refl
length-to_bytes (suc k) n =
    omega
      (arith, length-append (to_bytes k (n / 256)) ((n % 256) ∷ []), length-to_bytes k (n / 256))

from_bytes_acc-append :
    (acc : ℕ) (xs ys : Bytes)
    → from_bytes_acc acc (xs ++ ys) ≡ from_bytes_acc (from_bytes_acc acc xs) ys
unfolding from_bytes_acc
from_bytes_acc-append acc [] ys = refl
from_bytes_acc-append acc (x ∷ xs) ys = from_bytes_acc-append (acc * 256 + x) xs ys

quotient_bound : (k n : ℕ) → n < 256 ^ suc k → n / 256 < 256 ^ k
quotient_bound k n h = omega (arith, pow-suc 256 k)

-- A number that fits its field is read back.
pub from_bytes-to_bytes : (k n : ℕ) → n < 256 ^ k → from_bytes (to_bytes k n) ≡ n
unfolding to_bytes from_bytes_acc
from_bytes-to_bytes zero n h = omega arith
from_bytes-to_bytes (suc k) n h =
    from_bytes_acc-append 0 (to_bytes k (n / 256)) ((n % 256) ∷ [])
    ∙ omega (arith, from_bytes-to_bytes k (n / 256) (quotient_bound k n h))

pub to_bytes-IsBytes : (k n : ℕ) → IsBytes (to_bytes k n)
unfolding to_bytes
to_bytes-IsBytes zero n = tt
to_bytes-IsBytes (suc k) n =
    All-append (λ b. b < 256) (to_bytes k (n / 256)) ((n % 256) ∷ []) (to_bytes-IsBytes k (n / 256))
      (omega arith)

snoc_digit :
    (k acc b : ℕ) (bs : Bytes)
    → b < 256
    → to_bytes (suc k) (acc * 256 + b) ++ bs ≡ to_bytes k acc ++ b ∷ bs
unfolding to_bytes
snoc_digit k acc b bs h =
    let low : (acc * 256 + b) % 256 ≡ b = omega arith in
    let high : (acc * 256 + b) / 256 ≡ acc = omega arith in
    rw (low, high) (append_assoc (to_bytes k acc) (b ∷ []) bs)

to_bytes-from_bytes_acc :
    (k acc : ℕ) (bs : Bytes)
    → IsBytes bs
    → to_bytes (length bs + k) (from_bytes_acc acc bs) ≡ to_bytes k acc ++ bs
unfolding from_bytes_acc
to_bytes-from_bytes_acc k acc [] h = let e : 0 + k ≡ k = omega arith in rw e (rw append-nil)
to_bytes-from_bytes_acc k acc (b ∷ bs) h =
    let e : suc (length bs) + k ≡ length bs + suc k = omega arith in
    rw e (to_bytes-from_bytes_acc (suc k) (acc * 256 + b) bs h.1 ∙ snoc_digit k acc b bs h.0)

-- A field of bytes is written back.
pub to_bytes-from_bytes : (bs : Bytes) → IsBytes bs → to_bytes (length bs) (from_bytes bs) ≡ bs
unfolding to_bytes
to_bytes-from_bytes bs h =
    let e : length bs + 0 ≡ length bs = omega arith in rw e at (to_bytes-from_bytes_acc 0 0 bs h)

from_bytes_acc-lt :
    (acc : ℕ) (bs : Bytes) → IsBytes bs → from_bytes_acc acc bs < (acc + 1) * 256 ^ length bs
unfolding from_bytes_acc
from_bytes_acc-lt acc [] h = omega arith
from_bytes_acc-lt acc (b ∷ bs) h =
    let step : (acc * 256 + b + 1) * 256 ^ length bs ≤ (acc + 1) * 256 * 256 ^ length bs =
      mul-le-mul_right _ (omega arith) in
    rw (pow-suc 256 (length bs)) (omega (arith, from_bytes_acc-lt (acc * 256 + b) bs h.1, step))

pub from_bytes-lt : (bs : Bytes) → IsBytes bs → from_bytes bs < 256 ^ length bs
from_bytes-lt bs h = omega (arith, from_bytes_acc-lt 0 bs h)
