-- ===== src/Chat/Runs.antt =====
-- A `ChatController` as terminal_ui.py drives it: actions, the ends of the waits for cancel tasks and the
-- callbacks of these tasks come in any order, also during the reading of snapshots, and one observer
-- at a time reads snapshots while a run is active.
pub mod Sound
pub mod Ends
use simple_harness_service_s.Commands.{CommandSnapshot}
use simple_harness_service_s.Chat.State.{
  ChatAction, ChatController, Deadlines, Text, init, active_identity, state_of, is_idle,
}
use simple_harness_service_s.Chat.Actions.{
  Draw, Waiting, Reply, answered, awaits, runtime_error, report_pending, dispatch, cancel_timed_out,
  cancel_returned, supervise_cancel_task,
}
use simple_harness_service_s.Chat.Observe.{
  Observation, replies, reads, begin_observe, end_observe, conclude, observe_run,
}
use simple_harness_service_s.Chat.Invariant.{
  IsValid, init-IsValid, dispatch-IsValid, cancel_timed_out-IsValid, cancel_returned-IsValid,
  supervise_cancel_task-IsValid, begin_observe-IsValid, end_observe-IsValid,
}
use simple_harness_service_s.Chat.Owners.{
  has_old_task, IsOwn, IsSameRun, IsSameRun-old, IsSameRun-active, IsSameRun-IsOwn, dispatch-old,
  dispatch-IsOwn, dispatch-awaits, dispatch-active, cancel_timed_out-IsSameRun,
  cancel_returned-IsSameRun, supervise_cancel_task-IsSameRun, begin_observe-IsSameRun,
  end_observe-old, end_observe-IsOwn,
}
use simple_harness_service_s.Chat.Served.{IsAnswer, IsServed, IsOfCancel}
use simple_harness_service_s.Common.{
  ℕ, ◌≡◌, ◌≢◌, refl, Bool, true, false, Option, none, some, List, [], ◌∷◌, arith,
}

-- The run whose snapshots the observer reads, and the commands that it asks for
pub record Reading : Type 0 where
  pub run : Text
  pub start : Text
  pub cancel : Option Text

-- The controller, the reading in progress, and the waits for cancel tasks that were begun
pub record World : Type 0 where
  pub controller : ChatController
  pub reading : Option Reading
  pub waits : List Waiting

-- A wait is among those that were begun.
pub data IsBegun (w : Waiting) : List Waiting → Type 0 where
  first : {ws : List Waiting} → IsBegun w (w ∷ ws)
  later : {v : Waiting} {ws : List Waiting} → IsBegun w ws → IsBegun w (v ∷ ws)

abbrev pub begun : Reply → List Waiting → List Waiting
begun (awaits w) ws = w ∷ ws
begun _ ws = ws

abbrev pub reading_of : Observation → Option Reading
reading_of (replies reply) = none
reading_of (reads run start cancel) = some (record { run = run; start = start; cancel = cancel })

abbrev pub reply_of : Observation → Reply
reply_of (replies reply) = reply
reply_of (reads run start cancel) = answered []

-- One step, with what it replies: no events where it replies nothing. `Serves` is what the client may
-- answer for a command id.
pub data Step (Serves : Text → CommandSnapshot → Type 0) (d : Deadlines)
    : World → Reply → World → Type 0 where
  act :
      (c : ChatController) (r : Option Reading) (ws : List Waiting) (draw : Draw)
      (action : ChatAction)
      → Step Serves d
          (record { controller = c; reading = r; waits = ws })
          (dispatch d draw action c).1
          (record {
            controller = (dispatch d draw action c).0;
            reading = r;
            waits = begun (dispatch d draw action c).1 ws;
          })
  time_out :
      (c : ChatController) (r : Option Reading) (ws : List Waiting) (w : Waiting)
      → IsBegun w ws
      → Step Serves d
          (record { controller = c; reading = r; waits = ws })
          (cancel_timed_out w c).1
          (record { controller = (cancel_timed_out w c).0; reading = r; waits = ws })
  return :
      (c : ChatController) (r : Option Reading) (ws : List Waiting) (w : Waiting)
      → IsBegun w ws
      → Step Serves d
          (record { controller = c; reading = r; waits = ws })
          (cancel_returned w c).1
          (record { controller = (cancel_returned w c).0; reading = r; waits = ws })
  supervise :
      (c : ChatController) (r : Option Reading) (ws : List Waiting) (task : ℕ) (has_error : Bool)
      → Step Serves d
          (record { controller = c; reading = r; waits = ws })
          (answered [])
          (record { controller = supervise_cancel_task task has_error c; reading = r; waits = ws })
  begin_reading :
      (c : ChatController) (ws : List Waiting) (now : ℕ)
      → is_idle (state_of c) ≡ false
      → Step Serves d
          (record { controller = c; reading = none; waits = ws })
          (reply_of (begin_observe now c).1)
          (record {
            controller = (begin_observe now c).0;
            reading = reading_of (begin_observe now c).1;
            waits = ws;
          })
  end_reading :
      (c : ChatController) (r : Reading) (ws : List Waiting) (read : CommandSnapshot)
      (cancel : Option CommandSnapshot)
      → Serves r.start read
      → IsAnswer Serves r.cancel cancel
      → Step Serves d
          (record { controller = c; reading = some r; waits = ws })
          (end_observe r.run r.start read cancel c).1
          (record {
            controller = (end_observe r.run r.start read cancel c).0;
            reading = none;
            waits = ws;
          })
  lose_reading :
      (c : ChatController) (r : Reading) (ws : List Waiting)
      → Step Serves d
          (record { controller = c; reading = some r; waits = ws })
          Reply.client_raised
          (record { controller = c; reading = none; waits = ws })

abbrev pub start_world : Text → World
start_world session = record { controller = init session; reading = none; waits = [] }

-- The steps from a new controller
pub data Run (Serves : Text → CommandSnapshot → Type 0) (d : Deadlines) (session : Text)
    : World → Type 0 where
  here : Run Serves d session (start_world session)
  next :
      {w w' : World} {reply : Reply}
      → Run Serves d session w
      → Step Serves d w reply w'
      → Run Serves d session w'

-- The run and the commands of a reading are the active ones.
abbrev pub IsOfActive : Option Reading → ChatController → Type 0
IsOfActive none c = Unit {0}
IsOfActive (some r) c = (active_identity c ≡ some (r.run, r.start)) × IsOfCancel r.cancel c

pub record IsSound (Serves : Text → CommandSnapshot → Type 0) (w : World) : Type 0 where
  pub valid : IsValid w.controller
  pub old : has_old_task w.controller ≡ true
  pub reading : IsOfActive w.reading w.controller
  pub served : IsServed Serves w.controller
  pub waits : (v : Waiting) → IsBegun v w.waits → IsOwn v w.controller
