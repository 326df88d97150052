-- ===== src/Chat/Runs/Ends.antt =====
-- How a run of chat_controller.py ends, whatever comes in which order.
use simple_harness_service_s.Commands.{CommandSnapshot}
use simple_harness_service_s.Chat.State.{
  ChatEvent, ChatController, Deadlines, Text, settle, quit_requested, active_identity, state_of,
  is_idle,
}
use simple_harness_service_s.Chat.Actions.{
  Waiting, is_current_task, Waiting, Reply, answered, cancel_timed_out, cancel_returned,
  supervise_cancel_task,
}
use simple_harness_service_s.Chat.Observe.{begin_observe, end_observe, conclude, newer, keep_read}
use simple_harness_service_s.Chat.Reconcile.{reconcile}
use simple_harness_service_s.Chat.Owners.{
  IsSameRun-active, dispatch-active, cancel_timed_out-IsSameRun, cancel_returned-IsSameRun,
  supervise_cancel_task-IsSameRun, begin_observe-IsSameRun,
}
use simple_harness_service_s.Chat.Runs.{
  IsBegun, Reading, World, Step, act, time_out, return, supervise, begin_reading, end_reading,
  lose_reading, Run, IsSound,
}
use simple_harness_service_s.Chat.Runs.Sound.{Run-IsSound}
use simple_harness_service_s.Chat.Served.{IsFrom, newer-IsFrom}
use mathlib.Core.Option.{some-injective}
use simple_harness_service_s.Common.{
  ap, subst, ◌≢◌, Bool-cases, ◌≡◌, refl, sym, ◌∙◌, inl, inr, ◌⊎◌, if◌then◌else◌, true, Option, none,
  some, List, [], ◌∷◌, arith,
}

-- The run ends: what the observer has read of this very run reconciles to `event`, and the snapshot of
-- a cancel that counts for it was served for the cancel command of this run.
pub record IsEndOf (Serves : Text → CommandSnapshot → Type 0) (run : Text × Text)
    (event : ChatEvent) (w : World) (reply : Reply) (w' : World) : Type 0 where
  pub read : CommandSnapshot
  pub cancel : Option CommandSnapshot
  pub asked : Option Text
  pub of_run : w.reading ≡ some (record { run = run.0; start = run.1; cancel = asked })
  pub served : Serves run.1 read
  pub cancel_served :
      IsFrom Serves w.controller.cancel_command_id (newer cancel w.controller.cancel_snapshot)
  pub terminal : reconcile read (newer cancel w.controller.cancel_snapshot) ≡ some event
  pub told :
      reply
      ≡ answered
          (if w.controller.quit_after_settle then event ∷ quit_requested true ∷ [] else event ∷ [])
  pub idle : is_idle (state_of w'.controller) ≡ true

end_reading_ends :
    (Serves : Text → CommandSnapshot → Type 0) (i : Text × Text) (c : ChatController) (r : Reading)
    (ws : List Waiting) (read : CommandSnapshot) (cancel : Option CommandSnapshot)
    (terminal : Option ChatEvent)
    → reconcile read (newer cancel c.cancel_snapshot) ≡ terminal
    → active_identity c ≡ some i
    → some (r.run, r.start) ≡ some i
    → Serves r.start read
    → IsFrom Serves c.cancel_command_id (newer cancel c.cancel_snapshot)
    → (active_identity (conclude r.run r.start terminal (keep_read read cancel c)).0 ≡ some i)
      ⊎ ((event : ChatEvent) × IsEndOf Serves i event
            (record { controller = c; reading = some r; waits = ws })
            (conclude r.run r.start terminal (keep_read read cancel c)).1
            (record {
              controller = (conclude r.run r.start terminal (keep_read read cancel c)).0;
              reading = none;
              waits = ws;
            }))
unfolding conclude settle state_of active_identity
end_reading_ends Serves i c r ws read cancel none h active own found newest = inl active
end_reading_ends Serves i c r ws read cancel (some event) h active own found newest = inr (
  event,
  record {
    read = read;
    cancel = cancel;
    asked = r.cancel;
    of_run = ground arith;
    served = subst (λ id. Serves id read) (ap (λ j. j.1) (some-injective _ _ own)) found;
    cancel_served = newest;
    terminal = h;
    told = refl;
    idle = refl;
  },
)

Step-ends :
    {Serves : Text → CommandSnapshot → Type 0} {d : Deadlines} {w w' : World} {reply : Reply}
    {i : Text × Text}
    → Step Serves d w reply w'
    → IsSound Serves w
    → active_identity w.controller ≡ some i
    → (active_identity w'.controller ≡ some i)
      ⊎ ((event : ChatEvent) × IsEndOf Serves i event w reply w')
unfolding end_observe
Step-ends {d = d} (act c r ws draw action) s active = inl (dispatch-active d draw action c active)
Step-ends (time_out c r ws w b) s active =
    inl (IsSameRun-active c (cancel_timed_out w c).0 (cancel_timed_out-IsSameRun w c) ∙ active)
Step-ends (return c r ws w b) s active =
    inl (IsSameRun-active c (cancel_returned w c).0 (cancel_returned-IsSameRun w c) ∙ active)
Step-ends (supervise c r ws task has_error) s active = inl (
    IsSameRun-active c (supervise_cancel_task task has_error c)
      (supervise_cancel_task-IsSameRun task has_error c)
    ∙ active)
Step-ends (begin_reading c ws now busy) s active =
    inl (IsSameRun-active c (begin_observe now c).0 (begin_observe-IsSameRun now c) ∙ active)
Step-ends {Serves} {i = i} (end_reading c r ws read cancel found fits) s active =
    end_reading_ends Serves i c r ws read cancel (reconcile read (newer cancel c.cancel_snapshot))
      refl active (sym s.reading.0 ∙ active) found
      (newer-IsFrom Serves r.cancel cancel c s.reading.1 fits s.served.cancel)
Step-ends (lose_reading c r ws) s active = inl active

-- In every run of a new controller, a step leaves the active run and its start command as they are,
-- or ends the run: then the step ends a reading of the snapshots of this very run, the start snapshot
-- was served for its start command, the cancel snapshot, if there is one, for its cancel command, and
-- not for one of an earlier run, the two reconcile to a terminal event, and the step replies this event, followed by a request to quit exactly if a quit
-- was asked for, and leaves the controller idle.
pub Run-ends :
    (Serves : Text → CommandSnapshot → Type 0) (d : Deadlines) (session : Text) (w w' : World)
    (reply : Reply) (i : Text × Text)
    → Run Serves d session w
    → Step Serves d w reply w'
    → active_identity w.controller ≡ some i
    → (active_identity w'.controller ≡ some i)
      ⊎ ((event : ChatEvent) × IsEndOf Serves i event w reply w')
Run-ends Serves d session w w' reply i run step active =
    Step-ends step (Run-IsSound Serves d session w run) active

-- In every run of a new controller, when the wait for a cancel task ends, by time or by the task, and
-- the run that it was begun for is not the active one any more, the controller stays as it is.
pub Run-late :
    (Serves : Text → CommandSnapshot → Type 0) (d : Deadlines) (session : Text) (w : World)
    (v : Waiting)
    → Run Serves d session w
    → IsBegun v w.waits
    → active_identity w.controller ≢ some (v.run, v.start)
    → ((cancel_timed_out v w.controller).0 ≡ w.controller)
      × ((cancel_returned v w.controller).0 ≡ w.controller)
unfolding cancel_timed_out cancel_returned
Run-late Serves d session w v run b other =
    let own = (Run-IsSound Serves d session w run).waits v b in
    elim (Bool-cases (is_current_task v.task w.controller)) [
      | inl current ↦ elim (other (own.run current)) [ ]
      | inr late ↦ rw late (refl, refl)
    ]
