-- ===== src/Window/Spec.antt =====
-- What the window promises: the payloads received so far, by sequence number, and the invariant that
-- ties the window and the payloads handed on to it.
use simple_harness_service_s.Bytes.{Bytes}
use simple_harness_service_s.Window.{InputWindow, init, window_frames, window_bytes}
use simple_harness_service_s.Common.{
  ℕ, ◌+◌, ◌≤◌, ◌<◌, ◌≡◌, refl, Option, none, some, List, [], ◌∷◌, leb, if◌then◌else◌, length,
  get_elem?, nat_eq, Dict, get, Distinct, arith,
}

-- The payload of sequence number `i + 1`: handed on, or waiting.
unfoldable pub received : InputWindow → List Bytes → ℕ → Option Bytes
received w out i =
    if leb (i + 1) w.highest_contiguous then get_elem? out i else get w.pending (i + 1)

unfoldable pub total : Dict ℕ Bytes → ℕ
total [] = 0
total ((s, payload) ∷ d) = length payload + total d

-- The invariant inside the loop; `out` is all that was handed on.
pub record IsOpen (w : InputWindow) (out : List Bytes) : Type 0 where
  pub handed_on : length out ≡ w.highest_contiguous
  pub distinct : Distinct w.pending
  pub counted : w.pending_bytes ≡ total w.pending
  pub bounded : w.pending_bytes ≤ window_bytes
  pub above : (s : ℕ) (p : Bytes) → get w.pending s ≡ some p → w.highest_contiguous < s
  pub within :
      (s : ℕ) (p : Bytes) → get w.pending s ≡ some p → s ≤ w.highest_contiguous + window_frames

-- Between calls the next payload is not waiting.
pub record IsValid (w : InputWindow) (out : List Bytes) : Type 0 where
  pub opened : IsOpen w out
  pub stopped : get w.pending (w.highest_contiguous + 1) ≡ none

pub init-IsValid : (generation : ℕ) → IsValid (init generation) []
unfolding init total get
init-IsValid generation = record {
  opened = record {
    handed_on = refl;
    distinct = tt;
    counted = refl;
    bounded = omega arith;
    above = λ s p h. ground arith;
    within = λ s p h. ground arith;
  };
  stopped = refl;
}
