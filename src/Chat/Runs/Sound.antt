-- ===== src/Chat/Runs/Sound.antt =====
-- What holds in every run of a `ChatController` of chat_controller.py, whatever comes in which order.

use simple_harness_service_s.Chat.State.{
  ChatAction, ChatEvent, ChatController, Deadlines, Text, init, active_identity, state_of, is_idle,
}
use simple_harness_service_s.Chat.Actions.{
  Draw, Waiting, Reply, answered, awaits, client_raised, runtime_error, report_pending, dispatch,
  cancel_timed_out, cancel_returned, supervise_cancel_task, begin_cancel, submit_text,
  change_session,
}
use simple_harness_service_s.Chat.Observe.{begin_observe, end_observe, conclude, newer, keep_read}
use simple_harness_service_s.Chat.Reconcile.{reconcile}
use simple_harness_service_s.Chat.Invariant.{
  IsValid, init-IsValid, dispatch-IsValid, cancel_timed_out-IsValid, cancel_returned-IsValid,
  supervise_cancel_task-IsValid, begin_observe-IsValid, end_observe-IsValid,
}
use simple_harness_service_s.Chat.Owners.{
  IsOwn, IsSameRun, IsSameRun-old, IsSameRun-active, IsSameRun-IsOwn, dispatch-old, dispatch-IsOwn,
  dispatch-awaits, dispatch-active, cancel_timed_out-IsSameRun, cancel_returned-IsSameRun,
  supervise_cancel_task-IsSameRun, begin_observe-IsSameRun, end_observe-old, end_observe-IsOwn,
}
use simple_harness_service_s.Chat.Runs.{
  Reading, World, IsBegun, first, later, begun, reading_of, reply_of, Step, act, time_out, return,
  supervise, begin_reading, end_reading, lose_reading, Run, here, next, IsOfActive, IsSound,
}
use simple_harness_service_s.Commands.{CommandSnapshot}
use simple_harness_service_s.Chat.Served.{
  IsServed, IsOfCancel, dispatch-cancel, active-start, dispatch-IsServed, cancel_timed_out-IsServed,
  cancel_returned-IsServed, supervise_cancel_task-IsServed, begin_observe-IsServed,
  end_observe-IsServed,
}
use simple_harness_service_s.Common.{
  inl, inr, ℕ, ◌≡◌, ◌≢◌, refl, ◌∙◌, is_some, true, false, Option, none, some, List, arith,
}

IsSameRun-IsOfCancel :
    (id : Option Text) (c c' : ChatController) → IsSameRun c c' → IsOfCancel id c → IsOfCancel id c'
IsSameRun-IsOfCancel none c c' same h = tt
IsSameRun-IsOfCancel (some id) c c' same h = same.cancel_command_id ∙ h

-- A cancel command that stands is not replaced by an action.
dispatch-IsOfCancel :
    (d : Deadlines) (draw : Draw) (action : ChatAction) (id : Option Text) (c : ChatController)
    → IsValid c
    → IsOfCancel id c
    → IsOfCancel id (dispatch d draw action c).0
dispatch-IsOfCancel d draw action none c v h = tt
dispatch-IsOfCancel d draw action (some id) c v h = elim (dispatch-cancel d draw action c v) [
  | inl same ↦ same ∙ h
  | inr fresh ↦ absurd (cc)
]

-- A step that keeps the run, the cancel command and its task keeps what waits.
IsSameRun-IsOfActive :
    (r : Option Reading) (c c' : ChatController) → IsSameRun c c' → IsOfActive r c → IsOfActive r c'
IsSameRun-IsOfActive none c c' same h = tt
IsSameRun-IsOfActive (some r) c c' same h =
    (IsSameRun-active c c' same ∙ h.0, IsSameRun-IsOfCancel r.cancel c c' same h.1)

dispatch-IsOfActive :
    (d : Deadlines) (draw : Draw) (action : ChatAction) (r : Option Reading) (c : ChatController)
    → IsValid c
    → IsOfActive r c
    → IsOfActive r (dispatch d draw action c).0
dispatch-IsOfActive d draw action none c v h = tt
dispatch-IsOfActive d draw action (some r) c v h =
    (dispatch-active d draw action c h.0, dispatch-IsOfCancel d draw action r.cancel c v h.1)

begin_observe-IsOfActive :
    (now : ℕ) (c : ChatController)
    → IsOfActive (reading_of (begin_observe now c).1) (begin_observe now c).0
unfolding begin_observe active_identity
begin_observe-IsOfActive now c = ground arith

begun-IsOwn :
    (reply : Reply) (ws : List Waiting) (c : ChatController)
    → ((w : Waiting) → reply ≡ awaits w → IsOwn w c)
    → ((w : Waiting) → IsBegun w ws → IsOwn w c)
    → (w : Waiting) → IsBegun w (begun reply ws)
    → IsOwn w c
begun-IsOwn (awaits v) ws c new old _ first = new v refl
begun-IsOwn (awaits v) ws c new old w (later b) = old w b
begun-IsOwn (answered events) ws c new old w b = old w b
begun-IsOwn client_raised ws c new old w b = old w b
begun-IsOwn runtime_error ws c new old w b = old w b

same-IsSound :
    {Serves : Text → CommandSnapshot → Type 0} (r : Option Reading) (ws : List Waiting)
    (c c' : ChatController)
    → IsSameRun c c'
    → IsValid c'
    → IsServed Serves c'
    → IsSound Serves (record { controller = c; reading = r; waits = ws })
    → IsSound Serves (record { controller = c'; reading = r; waits = ws })
same-IsSound r ws c c' same v served s = record {
  valid = v;
  old = IsSameRun-old c c' same s.old;
  reading = IsSameRun-IsOfActive r c c' same s.reading;
  served = served;
  waits = λ w b. IsSameRun-IsOwn c c' w same (s.waits w b);
}

Step-IsSound :
    {Serves : Text → CommandSnapshot → Type 0} {d : Deadlines} {w w' : World} {reply : Reply}
    → Step Serves d w reply w'
    → IsSound Serves w
    → IsSound Serves w'
Step-IsSound {Serves} {d} (act c r ws draw action) s = record {
  valid = dispatch-IsValid d draw action c s.valid;
  old = dispatch-old d draw action c s.old;
  reading = dispatch-IsOfActive d draw action r c s.valid s.reading;
  served = dispatch-IsServed Serves d draw action c s.valid s.served;
  waits =
      begun-IsOwn (dispatch d draw action c).1 ws (dispatch d draw action c).0
        (λ w waits. dispatch-awaits d draw action c w s.valid s.old waits)
        (λ w b. dispatch-IsOwn d draw action c w s.valid (s.waits w b));
}
Step-IsSound {Serves} (time_out c r ws w b) s =
    same-IsSound r ws c (cancel_timed_out w c).0 (cancel_timed_out-IsSameRun w c)
      (cancel_timed_out-IsValid w c s.valid) (cancel_timed_out-IsServed Serves w c s.served) s
Step-IsSound {Serves} (return c r ws w b) s =
    same-IsSound r ws c (cancel_returned w c).0 (cancel_returned-IsSameRun w c)
      (cancel_returned-IsValid w c s.valid) (cancel_returned-IsServed Serves w c s.served) s
Step-IsSound {Serves} (supervise c r ws task has_error) s =
    same-IsSound r ws c (supervise_cancel_task task has_error c)
      (supervise_cancel_task-IsSameRun task has_error c)
      (supervise_cancel_task-IsValid task has_error c s.valid)
      (supervise_cancel_task-IsServed Serves task has_error c s.served) s
Step-IsSound {Serves} (begin_reading c ws now busy) s =
    let same = begin_observe-IsSameRun now c in
    record {
      valid = begin_observe-IsValid now c s.valid;
      old = IsSameRun-old c (begin_observe now c).0 same s.old;
      reading = begin_observe-IsOfActive now c;
      served = begin_observe-IsServed Serves now c s.served;
      waits = λ w b. IsSameRun-IsOwn c (begin_observe now c).0 w same (s.waits w b);
    }
Step-IsSound {Serves} (end_reading c r ws read cancel found fits) s = record {
  served =
      end_observe-IsServed Serves r.run r.start r.cancel read cancel c
        (active-start c r.run r.start s.reading.0) s.reading.1 found fits s.served;
  valid = end_observe-IsValid r.run r.start read cancel c s.valid;
  old = end_observe-old r.run r.start read cancel c s.old;
  reading = tt;
  waits = λ w b. end_observe-IsOwn r.run r.start read cancel c w (s.waits w b);
}
Step-IsSound {Serves} (lose_reading c r ws) s = record {
  valid = s.valid;
  old = s.old;
  reading = tt;
  served = s.served;
  waits = s.waits;
}

-- In every run of a new controller, whatever comes in which order: a start command and a deadline
-- stand exactly with a run, all that concerns a cancel stands only with its task and only with a
-- run, the commands that an observer asks for are those of the active run, each snapshot that is kept
-- was served for the command of the active run that is kept beside it, and a wait for a cancel task
-- whose task is still the current one is of the active run and of its cancel command.
pub Run-IsSound :
    (Serves : Text → CommandSnapshot → Type 0) (d : Deadlines) (session : Text) (w : World)
    → Run Serves d session w
    → IsSound Serves w
unfolding init
Run-IsSound Serves d session w here = record {
  valid = init-IsValid session;
  old = refl;
  reading = tt;
  served = record { start = tt; cancel = tt };
  waits = λ v b. elim b [ ];
}
Run-IsSound Serves d session w (next {w = m} run step) =
    Step-IsSound step (Run-IsSound Serves d session m run)

dispatch_raises_nothing :
    (d : Deadlines) (draw : Draw) (action : ChatAction) (c : ChatController)
    → IsValid c
    → (dispatch d draw action c).1 ≢ runtime_error
unfolding dispatch submit_text change_session begin_cancel state_of
dispatch_raises_nothing d draw action c v raised = ground arith

named_replies :
    (run start : Text) (o : Option Text)
    → is_some o ≡ true
    → report_pending run start o ≢ runtime_error
unfolding report_pending
named_replies run start none h raised = cc
named_replies run start (some id) h raised = cc

conclude_raises_nothing :
    (run start : Text) (terminal : Option ChatEvent) (c : ChatController)
    → (conclude run start terminal c).1 ≢ runtime_error
unfolding conclude
conclude_raises_nothing run start none c raised = cc
conclude_raises_nothing run start (some e) c raised = cc

begin_observe_raises_nothing :
    (now : ℕ) (c : ChatController)
    → IsValid c
    → is_idle (state_of c) ≡ false
    → reply_of (begin_observe now c).1 ≢ runtime_error
unfolding begin_observe state_of
begin_observe_raises_nothing now c v busy raised = ground arith

Step_raises_nothing :
    {Serves : Text → CommandSnapshot → Type 0} {d : Deadlines} {w w' : World} {reply : Reply}
    → Step Serves d w reply w'
    → IsSound Serves w
    → reply ≢ runtime_error
unfolding cancel_timed_out cancel_returned end_observe
Step_raises_nothing {d = d} (act c r ws draw action) s raised =
    dispatch_raises_nothing d draw action c s.valid raised
Step_raises_nothing (time_out c r ws w b) s raised =
    named_replies w.run w.start w.cancel_id (s.waits w b).named raised
Step_raises_nothing (return c r ws w b) s raised = cc
Step_raises_nothing (supervise c r ws task has_error) s raised = cc
Step_raises_nothing (begin_reading c ws now busy) s raised =
    begin_observe_raises_nothing now c s.valid busy raised
Step_raises_nothing (end_reading c r ws read cancel found fits) s raised =
    conclude_raises_nothing r.run r.start (reconcile read (newer cancel c.cancel_snapshot))
      (keep_read read cancel c) raised
Step_raises_nothing (lose_reading c r ws) s raised = cc

-- In every run of a new controller, no step raises one of the controller's own exceptions, neither
-- for a missing run nor for a cancel without a command id.
pub Run_raises_nothing :
    (Serves : Text → CommandSnapshot → Type 0) (d : Deadlines) (session : Text) (w w' : World)
    (reply : Reply)
    → Run Serves d session w
    → Step Serves d w reply w'
    → reply ≢ runtime_error
Run_raises_nothing Serves d session w w' reply run step =
    Step_raises_nothing step (Run-IsSound Serves d session w run)
