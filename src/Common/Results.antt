-- ===== src/Common/Results.antt =====
-- The exceptions of the program, and the results of functions that may raise.
use mathlib.Core.Path.{◌≡◌, refl}
use mathlib.Core.Bool.{Bool, true, false}

-- `RealtimeErrorCode` of realtime/contracts.py
pub data RealtimeErrorCode : Type 0 where
  invalid_request unauthenticated forbidden unsupported busy rate_limited : RealtimeErrorCode
  unavailable timeout protocol_error session_expired billing_rejected : RealtimeErrorCode
  cancelled internal : RealtimeErrorCode

-- `RealtimeError` (its code and `retryable`), `ValueError`, the `struct.error` and the
-- `KeyError` of the standard library
pub data Exception : Type 0 where
  realtime_error : RealtimeErrorCode → Bool → Exception
  value_error : Exception
  struct_error : Exception
  key_error : Exception

pub data Result {ℓ} (V : Type ℓ) : Type ℓ where
  raise : Exception → Result V
  ok : V → Result V

-- if test: raise x
abbrev pub raise_if : Bool → Exception → Result (Unit {0})
raise_if false x = ok tt
raise_if true x = raise x

infixl 5 ◌>>=◌ ◌>>◌
abbrev pub ◌>>=◌ {ℓ κ} : {V : Type ℓ} {W : Type κ} → Result V → (V → Result W) → Result W
raise x >>= next = raise x
ok value >>= next = next value

abbrev pub ◌>>◌ {κ} : {W : Type κ} → Result (Unit {0}) → Result W → Result W
check >> rest = check >>= λ _. rest

-- raise RealtimeError(code)
abbrev pub error {ℓ} : {A : Type ℓ} → RealtimeErrorCode → Result A
error c = raise (realtime_error c false)

-- A bind returns only through a value of its first part.
pub >>=-eq-ok {ℓ κ} :
    {V : Type ℓ} {W : Type κ} (first : Result V) (next : V → Result W) {out : W}
    → (first >>= next) ≡ ok out
    → (value : V) × (first ≡ ok value) × (next value ≡ ok out)
>>=-eq-ok (raise x) next returned = cc
>>=-eq-ok (ok value) next returned = (value, refl, returned)
