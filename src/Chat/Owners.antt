-- ===== src/Chat/Owners.antt =====
-- To which run the parts of chat_controller.py that wait belong: a wait for a cancel task, and the
-- reading of snapshots.
use simple_harness_service_s.Commands.{CommandSnapshot}
use simple_harness_service_s.Chat.State.{
  ChatAction, ChatEvent, ChatController, Deadlines, Text, settle, active_identity, state_of,
  is_idle, quit_requested,
}
use simple_harness_service_s.Chat.Actions.{
  Draw, Waiting, awaits, answered, dispatch, submit_text, begin_cancel, change_session,
  cancel_timed_out, cancel_returned, supervise_cancel_task, is_current_task,
}
use simple_harness_service_s.Chat.Observe.{begin_observe, end_observe, conclude, newer, keep_read}
use simple_harness_service_s.Chat.Reconcile.{reconcile}
use simple_harness_service_s.Chat.Invariant.{IsValid}
use simple_harness_service_s.Common.{
  ℕ, ◌≡◌, ◌<◌, refl, Bool, true, false, Option, none, some, is_some, arith, ltb, nat_eq, if-split,
  [], ◌∷◌,
}

-- The number of the current task was given before.
abbrev pub has_old_task : ChatController → Bool
has_old_task s = elim s.cancel_task [ none ↦ true | some task ↦ ltb task s.task_count ]

-- A wait has a cancel command id, and while its task is the current one, the run and the commands that
-- it has read are the active ones.
pub record IsOwn (w : Waiting) (s : ChatController) : Type 0 where
  pub named : is_some w.cancel_id ≡ true
  pub old : w.task < s.task_count
  pub run : is_current_task w.task s ≡ true → active_identity s ≡ some (w.run, w.start)
  pub command : is_current_task w.task s ≡ true → s.cancel_command_id ≡ w.cancel_id

begin_cancel-old :
    (d : Deadlines) (draw : Draw) (s : ChatController)
    → has_old_task s ≡ true
    → has_old_task (begin_cancel d draw s).0 ≡ true
unfolding begin_cancel
begin_cancel-old d draw s h = ground arith

begin_cancel-IsOwn :
    (d : Deadlines) (draw : Draw) (s : ChatController) (w : Waiting)
    → IsOwn w s
    → IsOwn w (begin_cancel d draw s).0
unfolding begin_cancel active_identity
begin_cancel-IsOwn d draw s w o = ground (arith, o.named, o.old, o.run, o.command)

begin_cancel-awaits :
    (d : Deadlines) (draw : Draw) (s : ChatController) (w : Waiting)
    → IsValid s
    → has_old_task s ≡ true
    → (begin_cancel d draw s).1 ≡ awaits w
    → IsOwn w (begin_cancel d draw s).0
unfolding begin_cancel active_identity
begin_cancel-awaits d draw s w v h waits = ground arith

-- Both states have the same run, cancel command and cancel task.
pub record IsSameRun (s s' : ChatController) : Type 0 where
  pub run_id : s'.run_id ≡ s.run_id
  pub start_command_id : s'.start_command_id ≡ s.start_command_id
  pub cancel_command_id : s'.cancel_command_id ≡ s.cancel_command_id
  pub cancel_task : s'.cancel_task ≡ s.cancel_task
  pub task_count : s'.task_count ≡ s.task_count

pub IsSameRun-old :
    (s s' : ChatController) → IsSameRun s s' → has_old_task s ≡ true → has_old_task s' ≡ true
IsSameRun-old s s' same h = ground (arith, same.cancel_task, same.task_count)

pub IsSameRun-active :
    (s s' : ChatController) → IsSameRun s s' → active_identity s' ≡ active_identity s
unfolding active_identity
IsSameRun-active s s' same = ground (arith, same.run_id, same.start_command_id)

pub IsSameRun-IsOwn :
    (s s' : ChatController) (w : Waiting) → IsSameRun s s' → IsOwn w s → IsOwn w s'
IsSameRun-IsOwn s s' w same o = record {
  named = o.named;
  old = rw same.task_count o.old;
  run = rw (IsSameRun-active s s' same, same.cancel_task) o.run;
  command = rw (same.cancel_task, same.cancel_command_id) o.command;
}

pub cancel_timed_out-IsSameRun :
    (w : Waiting) (s : ChatController) → IsSameRun s (cancel_timed_out w s).0
unfolding cancel_timed_out
cancel_timed_out-IsSameRun w s = ground arith

pub cancel_returned-IsSameRun :
    (w : Waiting) (s : ChatController) → IsSameRun s (cancel_returned w s).0
unfolding cancel_returned
cancel_returned-IsSameRun w s = ground arith

pub supervise_cancel_task-IsSameRun :
    (task : ℕ) (has_error : Bool) (s : ChatController)
    → IsSameRun s (supervise_cancel_task task has_error s)
unfolding supervise_cancel_task
supervise_cancel_task-IsSameRun task has_error s = ground arith

pub begin_observe-IsSameRun : (now : ℕ) (s : ChatController) → IsSameRun s (begin_observe now s).0
unfolding begin_observe
begin_observe-IsSameRun now s = ground arith

-- A concluded reading leaves the run as it was, or leaves no cancel task.
conclude-old :
    (run start : Text) (terminal : Option ChatEvent) (s : ChatController)
    → has_old_task s ≡ true
    → has_old_task (conclude run start terminal s).0 ≡ true
unfolding conclude settle
conclude-old run start none s h = h
conclude-old run start (some event) s h = refl

conclude-IsOwn :
    (run start : Text) (terminal : Option ChatEvent) (s : ChatController) (w : Waiting)
    → IsOwn w s
    → IsOwn w (conclude run start terminal s).0
unfolding conclude settle
conclude-IsOwn run start none s w o = o
conclude-IsOwn run start (some event) s w o = record {
  named = o.named;
  old = o.old;
  run = λ h. cc;
  command = λ h. cc;
}

pub end_observe-old :
    (run start : Text) (read : CommandSnapshot) (cancel : Option CommandSnapshot)
    (s : ChatController)
    → has_old_task s ≡ true
    → has_old_task (end_observe run start read cancel s).0 ≡ true
unfolding end_observe
end_observe-old run start read cancel s h =
    conclude-old run start (reconcile read (newer cancel s.cancel_snapshot))
      (keep_read read cancel s) h

pub end_observe-IsOwn :
    (run start : Text) (read : CommandSnapshot) (cancel : Option CommandSnapshot)
    (s : ChatController) (w : Waiting)
    → IsOwn w s
    → IsOwn w (end_observe run start read cancel s).0
unfolding end_observe active_identity
end_observe-IsOwn run start read cancel s w o =
    conclude-IsOwn run start (reconcile read (newer cancel s.cancel_snapshot))
      (keep_read read cancel s) w
      (record { named = o.named; old = o.old; run = o.run; command = o.command })

-- No action but a cancel or a quit touches the cancel task.
pub dispatch-old :
    (d : Deadlines) (draw : Draw) (action : ChatAction) (s : ChatController)
    → has_old_task s ≡ true
    → has_old_task (dispatch d draw action s).0 ≡ true
unfolding dispatch submit_text change_session
dispatch-old d draw (ChatAction.submit text) s h = ground arith
dispatch-old d draw ChatAction.cancel s h = begin_cancel-old d draw s h
dispatch-old d draw ChatAction.quit s h =
    ground (arith, begin_cancel-old d draw (record s { quit_after_settle = true }) h)
dispatch-old d draw ChatAction.clear s h = h
dispatch-old d draw ChatAction.help s h = h
dispatch-old d draw ChatAction.status s h = h
dispatch-old d draw (ChatAction.set_session name) s h = ground arith
dispatch-old d draw ChatAction.new_session s h = ground arith

-- The actions that do not open a cancel
submit_text-IsOwn :
    (d : Deadlines) (draw : Draw) (text : Text) (s : ChatController) (w : Waiting)
    → IsValid s
    → IsOwn w s
    → IsOwn w (submit_text d draw text s).0
unfolding submit_text active_identity
submit_text-IsOwn d draw text s w v o = ground (arith, o.named, o.old, o.run, o.command)

change_session-IsSameRun :
    (name : Text) (s : ChatController) → IsSameRun s (change_session name s).0
unfolding change_session
change_session-IsSameRun name s = ground arith

pub dispatch-IsOwn :
    (d : Deadlines) (draw : Draw) (action : ChatAction) (s : ChatController) (w : Waiting)
    → IsValid s
    → IsOwn w s
    → IsOwn w (dispatch d draw action s).0
unfolding dispatch active_identity state_of
dispatch-IsOwn d draw (ChatAction.submit text) s w v o = submit_text-IsOwn d draw text s w v o
dispatch-IsOwn d draw ChatAction.cancel s w v o = begin_cancel-IsOwn d draw s w o
dispatch-IsOwn d draw ChatAction.quit s w v o =
    if-split (λ r. IsOwn w r.0) (is_idle (state_of s)) (s, answered (quit_requested false ∷ []))
      (begin_cancel d draw (record s { quit_after_settle = true })) (λ p. o)
      (λ p.
        begin_cancel-IsOwn d draw (record s { quit_after_settle = true }) w
          (record { named = o.named; old = o.old; run = o.run; command = o.command }))
dispatch-IsOwn d draw ChatAction.clear s w v o = o
dispatch-IsOwn d draw ChatAction.help s w v o = o
dispatch-IsOwn d draw ChatAction.status s w v o = o
dispatch-IsOwn d draw (ChatAction.set_session name) s w v o =
    IsSameRun-IsOwn s (change_session name s).0 w (change_session-IsSameRun name s) o
dispatch-IsOwn d draw ChatAction.new_session s w v o =
    ground (arith, o.named, o.old, o.run, o.command)

-- The wait that an action begins is of the active run.
pub dispatch-awaits :
    (d : Deadlines) (draw : Draw) (action : ChatAction) (s : ChatController) (w : Waiting)
    → IsValid s
    → has_old_task s ≡ true
    → (dispatch d draw action s).1 ≡ awaits w
    → IsOwn w (dispatch d draw action s).0
unfolding dispatch state_of submit_text change_session
dispatch-awaits d draw (ChatAction.submit text) s w v h waits = ground arith
dispatch-awaits d draw ChatAction.cancel s w v h waits = begin_cancel-awaits d draw s w v h waits
dispatch-awaits d draw ChatAction.quit s w v h waits =
    ground (arith, begin_cancel-awaits d draw (record s { quit_after_settle = true }) w)
dispatch-awaits d draw ChatAction.clear s w v h waits = cc
dispatch-awaits d draw ChatAction.help s w v h waits = cc
dispatch-awaits d draw ChatAction.status s w v h waits = cc
dispatch-awaits d draw (ChatAction.set_session name) s w v h waits = ground arith
dispatch-awaits d draw ChatAction.new_session s w v h waits = ground arith

-- No action ends or replaces the active run.
pub dispatch-active :
    (d : Deadlines) (draw : Draw) (action : ChatAction) (s : ChatController) {i : Text × Text}
    → active_identity s ≡ some i
    → active_identity (dispatch d draw action s).0 ≡ some i
unfolding dispatch submit_text begin_cancel change_session active_identity state_of
dispatch-active d draw (ChatAction.submit text) s h = ground arith
dispatch-active d draw ChatAction.cancel s h = ground arith
dispatch-active d draw ChatAction.quit s h = ground arith
dispatch-active d draw ChatAction.clear s h = h
dispatch-active d draw ChatAction.help s h = h
dispatch-active d draw ChatAction.status s h = h
dispatch-active d draw (ChatAction.set_session name) s h = ground arith
dispatch-active d draw ChatAction.new_session s h = ground arith
