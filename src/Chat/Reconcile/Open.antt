-- ===== src/Chat/Reconcile/Open.antt =====
-- When `_reconcile` of chat_controller.py leaves a run open, and what it makes of the snapshots that
-- service.py classifies.
use simple_harness_service_s.Commands.{
  CommandSnapshot, RunState, CommandOutcome, OutputState, is_completed, is_failed, is_cancelled,
}
use simple_harness_service_s.Chat.State.{
  Text, ChatEvent, completed, failed, cancelled, protocol_error,
}
use simple_harness_service_s.Chat.Reconcile.{
  reconcile, is_outcome_closed, is_outcome_error, any, snapshots_of, terminal_states, error_of,
  completed_run, reconcile_open,
}
use simple_harness_service_s.Commands.{CommandState, CommandKind, closed_outcome, has_valid_output}
use simple_harness_service_s.Commands.Outcome.{completed-only}
use simple_harness_service_s.Chat.Reconcile.Verdict.{
  Lacks, run_completed, run_failed, run_cancelled, any-Lacks, Lacks-any, reconcile-completed,
}
use simple_harness_service_s.Text.{codes}
use simple_harness_service_s.Common.{
  ◌≡◌, refl, ◌⊎◌, ◌↔◌, inl, inr, Bool, true, false, ◌&&◌, ◌||◌, Option, none, some, Option-cases,
  sym, ◌∙◌, if◌then◌else◌, arith,
}

-- Neither snapshot shows an end: none has a terminal run state, a closed outcome or an error.
pub record IsOpen (start : CommandSnapshot) (cancel : Option CommandSnapshot) : Type 0 where
  pub not_completed : Lacks run_completed start cancel
  pub not_failed : Lacks run_failed start cancel
  pub not_cancelled : Lacks run_cancelled start cancel
  pub no_error : Lacks (λ item. is_outcome_error item.outcome) start cancel
  pub not_closed : Lacks (λ item. is_outcome_closed item.outcome) start cancel

verdict_none :
    (c f x : Bool) (done code : ChatEvent) (otherwise : Option ChatEvent)
    → (if (c && f) || ((c && x) || (f && x))
        then some (protocol_error (codes "conflicting terminal run states"))
        else if c
        then some done
        else if f
        then some code
        else if x
        then some cancelled
        else otherwise)
      ≡ none
    → (c ≡ false) × (f ≡ false) × (x ≡ false) × (otherwise ≡ none)
verdict_none c f x done code otherwise h = ground arith

open_none :
    (e q b : Bool) (x y : ChatEvent)
    → (if e then some x else if q then some cancelled else if b then some y else none) ≡ none
    → (e ≡ false) × (b ≡ false)
open_none e q b x y h = ground arith

IsOpen-sound :
    (start : CommandSnapshot) (cancel : Option CommandSnapshot)
    → reconcile start cancel ≡ none
    → IsOpen start cancel
unfolding reconcile terminal_states reconcile_open
IsOpen-sound start cancel h =
    let t = terminal_states (snapshots_of start cancel) in
    let (c, f, x, rest) =
      verdict_none t.completed t.failed t.cancelled (completed_run start)
        (failed (error_of start.error_code cancel)) (reconcile_open start cancel) h in
    let (e, b) = open_none _ _ _ _ _ rest in
    record {
      not_completed = any-Lacks run_completed start cancel c;
      not_failed = any-Lacks run_failed start cancel f;
      not_cancelled = any-Lacks run_cancelled start cancel x;
      no_error = any-Lacks (λ item. is_outcome_error item.outcome) start cancel e;
      not_closed = any-Lacks (λ item. is_outcome_closed item.outcome) start cancel b;
    }

closed_none :
    (start : CommandSnapshot) (cancel : Option CommandSnapshot)
    → Lacks (λ item. is_outcome_error item.outcome) start cancel
    → Lacks (λ item. is_outcome_closed item.outcome) start cancel
    → reconcile_open start cancel ≡ none
unfolding reconcile_open
closed_none start none e b = ground (arith, e.0, b.0)
closed_none start (some c) e b = ground (arith, e.0, b.0, e.1 c refl, b.1 c refl)

IsOpen-complete :
    (start : CommandSnapshot) (cancel : Option CommandSnapshot)
    → IsOpen start cancel
    → reconcile start cancel ≡ none
unfolding reconcile terminal_states
IsOpen-complete start cancel i = ground (
  arith,
  Lacks-any run_completed start cancel i.not_completed,
  Lacks-any run_failed start cancel i.not_failed,
  Lacks-any run_cancelled start cancel i.not_cancelled,
  closed_none start cancel i.no_error i.not_closed,
)

-- A run is still pending exactly if no snapshot shows a terminal run state, a closed outcome or a
-- protocol error.
pub reconcile-IsOpen :
    (start : CommandSnapshot) (cancel : Option CommandSnapshot)
    → (reconcile start cancel ≡ none) ↔ IsOpen start cancel
reconcile-IsOpen start cancel = (IsOpen-sound start cancel, IsOpen-complete start cancel)

completed-state :
    (r : Option RunState)
    → r ≡ some RunState.completed
    → (is_completed r ≡ true) × (is_failed r ≡ false) × (is_cancelled r ≡ false)
completed-state r h = ground arith

valid-present :
    (start : CommandSnapshot)
    → has_valid_output start ≡ true
    → start.output_state ≡ OutputState.present
    → (text : Text) × (start.output_text ≡ some text)
unfolding has_valid_output
valid-present start h p = elim (Option-cases start.output_text) [
  | inl lacks ↦ absurd (ground arith)
  | inr found ↦ found
]

absent-completed_run :
    (start : CommandSnapshot)
    → start.output_state ≡ OutputState.absent
    → completed_run start ≡ protocol_error (codes "completed run lacks start output")
unfolding completed_run
absent-completed_run start h = ground arith

absent-told :
    (start : CommandSnapshot) (cancel : Option CommandSnapshot)
    → (is_completed start.run_state ≡ true)
      × (is_failed start.run_state ≡ false)
      × (is_cancelled start.run_state ≡ false)
    → ((c : CommandSnapshot)
        → cancel ≡ some c
        → (is_failed c.run_state ≡ false) × (is_cancelled c.run_state ≡ false))
    → start.output_state ≡ OutputState.absent
    → reconcile start cancel ≡ some (protocol_error (codes "completed run lacks start output"))
unfolding reconcile terminal_states any
absent-told start none (c, f, x) unlike gone = ground (arith, absent-completed_run start gone)
absent-told start (some k) (c, f, x) unlike gone =
    let (no_failure, no_cancel) = unlike k refl in ground (arith, absent-completed_run start gone)

-- A start command that the service classifies as completed ends the run: with its output, which is the
-- text told, if the output is present, and with a protocol error if the output is absent for good. The
-- snapshot of the cancel command, if there is one, shows no other end of the run: with a conflicting
-- one the controller tells a protocol error instead.
-- The snapshot is one that the constructor of the snapshots admits.
pub served-completed :
    (start : CommandSnapshot) (cancel : Option CommandSnapshot) (command_state : CommandState)
    (kind : Option CommandKind)
    → ((c : CommandSnapshot)
        → cancel ≡ some c
        → (is_failed c.run_state ≡ false) × (is_cancelled c.run_state ≡ false))
    → has_valid_output start ≡ true
    → start.outcome ≡ closed_outcome command_state start.output_state start.run_state kind
    → start.outcome ≡ CommandOutcome.completed
    → ((text : Text) × (start.output_text ≡ some text)
        × (reconcile start cancel ≡ some (completed text)))
      ⊎ ((start.output_state ≡ OutputState.absent)
          × (reconcile start cancel
              ≡ some (protocol_error (codes "completed run lacks start output"))))
unfolding reconcile terminal_states any
served-completed start cancel command_state kind unlike valid served done =
    let (state, shut, output) =
      completed-only command_state start.output_state start.run_state kind (sym served ∙ done) in
    let (c, f, x) = completed-state start.run_state state in
    elim output [
      | inl present ↦
          let (text, found) = valid-present start valid present in
          inl (
            text,
            found,
            (reconcile-completed start cancel text).1 (record {
              shown = inl c;
              not_failed = (f, λ s e. (unlike s e).0);
              not_cancelled = (x, λ s e. (unlike s e).1);
              outcome = done;
              present = present;
              output = found;
            }),
          )
      | inr gone ↦ inr (gone, absent-told start cancel (c, f, x) unlike gone)
    ]
