-- ===== src/Tests/Chats.antt =====
-- A controller of an interactive chat, on small inputs.

use simple_harness_service_s.Text.{codes, is_blank}
use simple_harness_service_s.Commands.{
  CommandSnapshot, OutputState, RunState, CommandOutcome, CommandState, CommandKind, closed_outcome,
  has_valid_output,
}
use simple_harness_service_s.Chat.State.{
  Text, ChatController, Deadlines, submit, quit, init, completed, ChatEvent, active_identity,
  state_of, settle,
}
use simple_harness_service_s.Chat.Reconcile.{reconcile}
use simple_harness_service_s.Chat.Reconcile.Open.{served-completed}
use simple_harness_service_s.Chat.Reconcile.Verdict.{reconcile-completed, IsCompletion}
use simple_harness_service_s.Chat.Actions.{
  Draw, Waiting, answered, awaits, runtime_error, dispatch, cancel_timed_out, cancel_returned,
  submit_text, begin_cancel, ensure_task, open_cancel, await_task,
}
use simple_harness_service_s.Chat.Observe.{
  Round, observe_once, observe_loop, observe_until, begin_observe, observe_run, read_of,
  end_observe, conclude, finish_observe,
}
use simple_harness_service_s.Chat.Observe.Ends.{observe_until-ends, Returns}
use simple_harness_service_s.Chat.Observe.Once.{observe_until-reports_once, reports_cancel}
use simple_harness_service_s.Chat.Runs.{
  Run, here, next, World, Reading, Step, act, begin_reading, end_reading, first, IsSound,
}
use simple_harness_service_s.Chat.Runs.Sound.{Run-IsSound, Run_raises_nothing}
use simple_harness_service_s.Chat.Runs.Ends.{Run-ends, Run-late, IsEndOf}
use simple_harness_service_s.Common.{
  ℕ, is_some, ◌≡◌, ◌≢◌, ◌⊎◌, ◌↔◌, refl, true, false, Option, none, some, [], ◌∷◌, arith,
}

abbrev deadlines : Deadlines
deadlines = record { observe_deadline = 315; cancel_reconcile = 5 }

abbrev draw : Draw
draw = record {
  new_run = codes "r";
  new_command = codes "s";
  new_cancel = codes "c";
  now = 0;
  start_returns = true;
}

abbrev hello : Text
hello = codes "hello"

-- A message was submitted, and a quit was asked for.
abbrev submitted : ChatController
submitted = (dispatch deadlines draw (submit hello) (init (codes "main"))).0

abbrev quitting : ChatController
quitting = (dispatch deadlines draw quit submitted).0

abbrev done : CommandSnapshot
done = record {
  output_state = OutputState.present;
  output_text = some (codes "hi");
  error_code = none;
  run_state = some RunState.completed;
  outcome = CommandOutcome.completed;
}

abbrev open_snapshot : CommandSnapshot
open_snapshot = record {
  output_state = OutputState.pending;
  output_text = none;
  error_code = none;
  run_state = some RunState.running;
  outcome = CommandOutcome.pending;
}

abbrev reading : Reading
reading = record { run = codes "r"; start = codes "s"; cancel = none }

-- A client that knows the start command alone
abbrev KnowsStart : Text → CommandSnapshot → Type 0
KnowsStart id x = id ≡ codes "s"

abbrev quit_wait : Waiting
quit_wait = record { task = 0; run = codes "r"; start = codes "s"; cancel_id = some (codes "c") }

quit_waits : (dispatch deadlines draw quit submitted).1 ≡ awaits quit_wait
unfolding dispatch submit_text begin_cancel ensure_task open_cancel await_task init state_of
    is_blank
quit_waits = refl

-- Submit, begin to read, and quit during the reading
abbrev reading_world : World
reading_world = record { controller = submitted; reading = some reading; waits = [] }

abbrev quitting_world : World
quitting_world = record { controller = quitting; reading = some reading; waits = quit_wait ∷ [] }

abbrev settled_world : World
settled_world = record {
  controller = (end_observe (codes "r") (codes "s") done none quitting).0;
  reading = none;
  waits = quit_wait ∷ [];
}

abbrev run_reading : Run KnowsStart deadlines (codes "main") reading_world
unfolding dispatch submit_text begin_observe observe_run read_of init state_of is_blank
    active_identity
run_reading =
    next (next here (act (init (codes "main")) none [] draw (submit hello)))
      (begin_reading submitted [] 1 refl)

abbrev run_quitting : Run KnowsStart deadlines (codes "main") quitting_world
unfolding dispatch submit_text begin_cancel ensure_task open_cancel await_task init state_of
    is_blank
run_quitting = next run_reading (act submitted (some reading) [] draw quit)

abbrev step_settled :
    Step KnowsStart deadlines quitting_world
      (end_observe (codes "r") (codes "s") done none quitting).1
      settled_world
step_settled = end_reading quitting reading (quit_wait ∷ []) done none refl tt

abbrev run_settled : Run KnowsStart deadlines (codes "main") settled_world
run_settled = next run_quitting step_settled

Run-IsSound_example : IsSound KnowsStart quitting_world
Run-IsSound_example = Run-IsSound KnowsStart deadlines (codes "main") quitting_world run_quitting

Run_raises_nothing_example :
    (end_observe (codes "r") (codes "s") done none quitting).1 ≢ runtime_error
Run_raises_nothing_example =
    Run_raises_nothing KnowsStart deadlines (codes "main") quitting_world settled_world
      (end_observe (codes "r") (codes "s") done none quitting).1 run_quitting step_settled

quitting_active : active_identity quitting ≡ some (codes "r", codes "s")
unfolding dispatch submit_text begin_cancel ensure_task open_cancel await_task init state_of
    is_blank active_identity
quitting_active = refl

Run-ends_example :
    (active_identity settled_world.controller ≡ some (codes "r", codes "s"))
    ⊎ ((event : ChatEvent) × IsEndOf KnowsStart
          (codes "r", codes "s")
          event
          quitting_world
          (end_observe (codes "r") (codes "s") done none quitting).1
          settled_world)
Run-ends_example =
    Run-ends KnowsStart deadlines (codes "main") quitting_world settled_world
      (end_observe (codes "r") (codes "s") done none quitting).1 (codes "r", codes "s") run_quitting
      step_settled quitting_active

settled_none : active_identity settled_world.controller ≡ none
unfolding end_observe conclude settle active_identity reconcile dispatch init
settled_none = refl

none-unlike :
    (identity i : Option (Text × Text)) → identity ≡ none → is_some i ≡ true → identity ≢ i
none-unlike identity none h s e = ground arith
none-unlike identity (some i) h s e = ground arith

settled_idle : active_identity settled_world.controller ≢ some (codes "r", codes "s")
settled_idle =
    none-unlike (active_identity settled_world.controller) (some (codes "r", codes "s"))
      settled_none refl

Run-late_example :
    ((cancel_timed_out quit_wait settled_world.controller).0 ≡ settled_world.controller)
    × ((cancel_returned quit_wait settled_world.controller).0 ≡ settled_world.controller)
Run-late_example =
    Run-late KnowsStart deadlines (codes "main") settled_world quit_wait run_settled first
      settled_idle

reconcile-completed_example :
    (reconcile done (some open_snapshot) ≡ some (completed (codes "hi")))
    ↔ IsCompletion done (some open_snapshot) (codes "hi")
reconcile-completed_example = reconcile-completed done (some open_snapshot) (codes "hi")

served-completed_example :
    ((text : Text) × (done.output_text ≡ some text)
      × (reconcile done (some open_snapshot) ≡ some (completed text)))
    ⊎ ((done.output_state ≡ OutputState.absent)
        × (reconcile done (some open_snapshot)
            ≡ some (ChatEvent.protocol_error (codes "completed run lacks start output"))))
unfolding closed_outcome has_valid_output
served-completed_example =
    served-completed done (some open_snapshot) CommandState.applied (some CommandKind.start)
      (λ c e. ground arith) refl refl refl

-- Rounds of two ticks, at which the run is still open
abbrev rounds : ℕ → Round
rounds k = record {
  before = 0;
  spent = 1;
  start_read = some open_snapshot;
  cancel_read = none;
  meanwhile = λ s. s;
}

observe_until-ends_example : Returns (observe_until 6 rounds 0 5 1 2 submitted)
observe_until-ends_example =
    observe_until-ends rounds 0 5 1 2 submitted (ground arith) (ground arith)

-- The cancel deadline is reached at once.
abbrev late_rounds : ℕ → Round
late_rounds k = record (rounds k) { before = 5 }

abbrev reported : ChatController
reported = (observe_once 5 (late_rounds 0) quitting).0

observe_until-reports_once_example :
    reports_cancel (answered (ChatEvent.timeout (codes "r") (codes "s") ∷ [])) ≡ false
unfolding dispatch submit_text begin_cancel ensure_task open_cancel await_task init state_of
    is_blank active_identity observe_until observe_loop observe_once begin_observe observe_run
    finish_observe end_observe conclude reconcile
observe_until-reports_once_example =
    observe_until-reports_once 3 3 late_rounds rounds 0 0 2 1 2 quitting reported _
      (observe_once 5 (late_rounds 0) quitting).1
      (answered (ChatEvent.timeout (codes "r") (codes "s") ∷ [])) refl refl (λ k s h. h) refl
