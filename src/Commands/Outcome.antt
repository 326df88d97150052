-- ===== src/Commands/Outcome.antt =====
-- What the outcome of a command tells about its run.
use simple_harness_service_s.Commands.{
  CommandState, CommandKind, OutputState, RunState, CommandOutcome, closed_outcome, is_open,
  is_completed, is_failed, is_cancelled,
}
use simple_harness_service_s.Common.{
  ◌≡◌, refl, true, false, ◌⊎◌, inl, inr, Option, some, ◌≢◌, ◌||◌, arith,
}

is_completed-some : (r : Option RunState) → is_completed r ≡ true → r ≡ some RunState.completed
is_completed-some r h = ground arith

-- A command is reported as completed only when its run completed, the command is no longer open, and
-- its output is present or absent for good.
pub completed-only :
    (c : CommandState) (o : OutputState) (r : Option RunState) (k : Option CommandKind)
    → closed_outcome c o r k ≡ CommandOutcome.completed
    → (r ≡ some RunState.completed)
      × (is_open c ≡ false)
      × ((o ≡ OutputState.present) ⊎ (o ≡ OutputState.absent))
unfolding closed_outcome
completed-only c OutputState.unknown r k h = absurd (ground arith)
completed-only c OutputState.pending r k h = absurd (ground arith)
completed-only c OutputState.present r k h =
    (is_completed-some r (ground arith), ground arith, inl refl)
completed-only c OutputState.absent r k h =
    (is_completed-some r (ground arith), ground arith, inr refl)

-- Once a command is no longer open and its run has ended (completed, failed or cancelled), it is not
-- reported as pending, whatever its output and its kind.
pub ended-not_pending :
    (c : CommandState) (o : OutputState) (r : Option RunState) (k : Option CommandKind)
    → is_open c ≡ false
    → (is_completed r || is_failed r || is_cancelled r) ≡ true
    → closed_outcome c o r k ≢ CommandOutcome.pending
unfolding closed_outcome
ended-not_pending c OutputState.unknown r k h e p = ground arith
ended-not_pending c OutputState.pending r k h e p = ground arith
ended-not_pending c OutputState.present r k h e p = ground arith
ended-not_pending c OutputState.absent r k h e p = ground arith
