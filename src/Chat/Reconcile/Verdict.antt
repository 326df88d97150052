-- ===== src/Chat/Reconcile/Verdict.antt =====
-- What `_reconcile` of chat_controller.py promises, in terms of what the two snapshots show.
use simple_harness_service_s.Commands.{
  CommandSnapshot, CommandOutcome, OutputState, is_completed, is_failed, is_cancelled,
}
use simple_harness_service_s.Chat.State.{
  Text, ChatEvent, completed, failed, cancelled, protocol_error,
}
use simple_harness_service_s.Chat.Reconcile.{
  reconcile, any, snapshots_of, terminal_states, is_conflict, error_of, completed_run,
  reconcile_open,
}
use simple_harness_service_s.Text.{codes}
use simple_harness_service_s.Common.{
  ◌≡◌, refl, ◌⊎◌, ◌↔◌, inl, inr, Bool, true, false, Option, none, some, ap, Bool-cases, ◌≢◌,
  if◌then◌else◌, arith,
}

-- The start command's snapshot or that of the cancel command, if there is one, passes a test.
abbrev pub Shows : (CommandSnapshot → Bool) → CommandSnapshot → Option CommandSnapshot → Type 0
Shows test start cancel =
    (test start ≡ true) ⊎ ((c : CommandSnapshot) × (cancel ≡ some c) × (test c ≡ true))

-- Neither snapshot passes a test.
abbrev pub Lacks : (CommandSnapshot → Bool) → CommandSnapshot → Option CommandSnapshot → Type 0
Lacks test start cancel =
    (test start ≡ false) × ((c : CommandSnapshot) → cancel ≡ some c → test c ≡ false)

abbrev pub run_completed : CommandSnapshot → Bool
run_completed item = is_completed item.run_state

abbrev pub run_failed : CommandSnapshot → Bool
run_failed item = is_failed item.run_state

abbrev pub run_cancelled : CommandSnapshot → Bool
run_cancelled item = is_cancelled item.run_state

-- The run completed, no snapshot shows another end, and the start command has the output.
pub record IsCompletion (start : CommandSnapshot) (cancel : Option CommandSnapshot) (text : Text)
    : Type 0 where
  pub shown : Shows run_completed start cancel
  pub not_failed : Lacks run_failed start cancel
  pub not_cancelled : Lacks run_cancelled start cancel
  pub outcome : start.outcome ≡ CommandOutcome.completed
  pub present : start.output_state ≡ OutputState.present
  pub output : start.output_text ≡ some text

same_test :
    (test : CommandSnapshot → Bool) (a b : CommandSnapshot) → some a ≡ some b → test a ≡ test b
same_test test a b e = ap (λ o. elim o [ none ↦ false | some x ↦ test x ]) e

pub any-Shows :
    (test : CommandSnapshot → Bool) (start : CommandSnapshot) (cancel : Option CommandSnapshot)
    → any test (snapshots_of start cancel) ≡ true
    → Shows test start cancel
unfolding any
any-Shows test start none h = ground arith
any-Shows test start (some c) h = elim (Bool-cases (test start)) [
  | inl shown ↦ inl shown
  | inr other ↦ inr (c, refl, ground arith)
]

pub Shows-any :
    (test : CommandSnapshot → Bool) (start : CommandSnapshot) (cancel : Option CommandSnapshot)
    → Shows test start cancel
    → any test (snapshots_of start cancel) ≡ true
unfolding any
Shows-any test start none (inl h) = ground arith
Shows-any test start (some c) (inl h) = ground arith
Shows-any test start none (inr (c, e, h)) = absurd (ground arith)
Shows-any test start (some c') (inr (c, e, h)) = ground (arith, same_test test _ _ e)

pub any-Lacks :
    (test : CommandSnapshot → Bool) (start : CommandSnapshot) (cancel : Option CommandSnapshot)
    → any test (snapshots_of start cancel) ≡ false
    → Lacks test start cancel
unfolding any
any-Lacks test start none h = (ground arith, λ c e. absurd (ground arith))
any-Lacks test start (some c') h = (ground arith, λ c e. ground (arith, same_test test _ _ e))

pub Lacks-any :
    (test : CommandSnapshot → Bool) (start : CommandSnapshot) (cancel : Option CommandSnapshot)
    → Lacks test start cancel
    → any test (snapshots_of start cancel) ≡ false
unfolding any
Lacks-any test start none (h, g) = ground arith
Lacks-any test start (some c) (h, g) = ground (arith, g c refl)

completed_run-output :
    (start : CommandSnapshot) (text : Text)
    → completed_run start ≡ completed text
    → (start.outcome ≡ CommandOutcome.completed)
      × (start.output_state ≡ OutputState.present)
      × (start.output_text ≡ some text)
unfolding completed_run
completed_run-output start text h = ground arith

output-completed_run :
    (start : CommandSnapshot) (text : Text)
    → start.outcome ≡ CommandOutcome.completed
    → start.output_state ≡ OutputState.present
    → start.output_text ≡ some text
    → completed_run start ≡ completed text
unfolding completed_run
output-completed_run start text o p t = ground arith

reconcile_open-not_completed :
    (start : CommandSnapshot) (cancel : Option CommandSnapshot) (text : Text)
    → reconcile_open start cancel ≢ some (completed text)
unfolding reconcile_open
reconcile_open-not_completed start cancel text h = ground arith

-- The tests of `reconcile`, one after the other
verdict_completed :
    (conflict c f x : Bool) (run : ChatEvent) (code : Option Text) (otherwise : Option ChatEvent)
    (text : Text)
    → otherwise ≢ some (completed text)
    → (if conflict
        then some (protocol_error (codes "conflicting terminal run states"))
        else if c
        then some run
        else if f
        then some (failed code)
        else if x
        then some cancelled
        else otherwise)
      ≡ some (completed text)
    → (conflict ≡ false) × (c ≡ true) × (run ≡ completed text)
verdict_completed conflict c f x run code otherwise text unlike h = ground arith

IsCompletion-sound :
    (start : CommandSnapshot) (cancel : Option CommandSnapshot) (text : Text)
    → reconcile start cancel ≡ some (completed text)
    → IsCompletion start cancel text
unfolding reconcile
IsCompletion-sound start cancel text h =
    let t = terminal_states (snapshots_of start cancel) in
    let (calm, done, run) =
      verdict_completed (is_conflict t) t.completed t.failed t.cancelled (completed_run start)
        (error_of start.error_code cancel) (reconcile_open start cancel) text
        (reconcile_open-not_completed start cancel text) h in
    let (outcome, present, output) = completed_run-output start text run in
    record {
      shown = any-Shows run_completed start cancel done;
      not_failed = any-Lacks run_failed start cancel (ground arith);
      not_cancelled = any-Lacks run_cancelled start cancel (ground arith);
      outcome = outcome;
      present = present;
      output = output;
    }

IsCompletion-complete :
    (start : CommandSnapshot) (cancel : Option CommandSnapshot) (text : Text)
    → IsCompletion start cancel text
    → reconcile start cancel ≡ some (completed text)
unfolding reconcile terminal_states
IsCompletion-complete start cancel text i = ground (
  arith,
  Shows-any run_completed start cancel i.shown,
  Lacks-any run_failed start cancel i.not_failed,
  Lacks-any run_cancelled start cancel i.not_cancelled,
  output-completed_run start text i.outcome i.present i.output,
)

-- A run is told to be completed with a text exactly if one of the two snapshots shows it completed, no
-- snapshot shows it failed or cancelled, and the start command is reported as completed, with an
-- output that is present and is this text.
pub reconcile-completed :
    (start : CommandSnapshot) (cancel : Option CommandSnapshot) (text : Text)
    → (reconcile start cancel ≡ some (completed text)) ↔ IsCompletion start cancel text
reconcile-completed start cancel text =
    (IsCompletion-sound start cancel text, IsCompletion-complete start cancel text)
