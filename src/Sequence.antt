-- ===== src/Sequence.antt =====
-- `SequenceWindow` of realtime/local.py: which frames of a generation and a direction were seen.
pub mod Once
use simple_harness_service_s.Framing.{LocalPcmFrame, AudioDirection, direction_code}
use simple_harness_service_s.Common.{
  ℕ, zero, suc, ◌+◌, Bool, true, false, not, ◌||◌, List, [], ◌∷◌, nat_eq, ◌==◌, ltb, leb, length,
  contains, add, discard, if◌then◌else◌, Result, ok, raise, realtime_error, protocol_error,
}

pub record SequenceWindow : Type 0 where
  pub generation : ℕ
  pub direction : AudioDirection
  pub window : ℕ
  pub highest_contiguous : ℕ
  pub pending : List ℕ

-- The body of the `while` loop
unfoldable pub advance : SequenceWindow → SequenceWindow
advance w = record w {
  highest_contiguous = w.highest_contiguous + 1;
  pending = discard (w.highest_contiguous + 1) w.pending;
}

-- The `while` loop. Each round takes a number out of the pending ones, so that their number is fuel
-- enough.
unfoldable pub advance_all : ℕ → SequenceWindow → SequenceWindow
unfolding advance
advance_all zero w = w
advance_all (suc fuel) w =
    let rest = advance_all fuel (advance w) in
    if contains w.pending (w.highest_contiguous + 1) then rest else w

-- Whether the sequence number was seen
unfoldable pub is_seen : ℕ → SequenceWindow → Bool
is_seen sequence w = leb sequence w.highest_contiguous || contains w.pending sequence

unfoldable pub store : ℕ → SequenceWindow → SequenceWindow
unfolding advance_all
store sequence w =
    let added = record w { pending = add sequence w.pending } in
    advance_all (length added.pending) added

unfoldable pub accept : LocalPcmFrame → SequenceWindow → Result (SequenceWindow × Bool)
unfolding is_seen store
accept frame w =
    if not (frame.generation == w.generation)
    then ok (w, false)
    else if not (direction_code frame.direction == direction_code w.direction)
    then raise (realtime_error protocol_error false)
    else if is_seen frame.sequence w
    then ok (w, false)
    else if ltb (w.highest_contiguous + w.window) frame.sequence
    then raise (realtime_error protocol_error false)
    else ok (store frame.sequence w, true)
