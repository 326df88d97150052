-- ===== src/Chat/Invariant.antt =====
-- What holds of the attributes of `ChatController` between two critical sections, and that every
-- operation of chat_controller.py keeps it.
use simple_harness_service_s.Commands.{CommandSnapshot}
use simple_harness_service_s.Chat.State.{
  ChatAction, ChatEvent, ChatController, Deadlines, Text, init, settle,
}
use simple_harness_service_s.Chat.Reconcile.{reconcile}
use simple_harness_service_s.Chat.Actions.{
  Draw, Waiting, dispatch, submit_text, begin_cancel, change_session, cancel_timed_out,
  cancel_returned, supervise_cancel_task,
}
use simple_harness_service_s.Chat.Observe.{newer, keep_read, begin_observe, end_observe, conclude}
use simple_harness_service_s.Common.{
  ℕ, ◌≡◌, Bool, true, not, ◌||◌, Option, none, some, is_some, arith,
}

-- The second flag may stand only with the first.
abbrev pub only_with : Bool → Bool → Bool
only_with first second = first || not second

-- A start command and a deadline stand exactly with a run. What concerns a cancel stands only with
-- its task, which stands with its command id and only with a run.
pub record IsValid (s : ChatController) : Type 0 where
  pub start_of_run : is_some s.start_command_id ≡ is_some s.run_id
  pub deadline_of_run : is_some s.run_deadline ≡ is_some s.run_id
  pub cancel_id_of_task : is_some s.cancel_command_id ≡ is_some s.cancel_task
  pub task_in_run : only_with (is_some s.run_id) (is_some s.cancel_task) ≡ true
  pub quit_in_run : only_with (is_some s.run_id) s.quit_after_settle ≡ true
  pub accepted_with_task : only_with (is_some s.cancel_task) s.cancel_accepted ≡ true
  pub reported_with_task : only_with (is_some s.cancel_task) s.cancel_pending_reported ≡ true
  pub deadline_with_task : only_with (is_some s.cancel_task) (is_some s.cancel_deadline) ≡ true

pub init-IsValid : (session : Text) → IsValid (init session)
unfolding init
init-IsValid session = ground arith

pub submit_text-IsValid :
    (d : Deadlines) (draw : Draw) (text : Text) (s : ChatController)
    → IsValid s
    → IsValid (submit_text d draw text s).0
unfolding submit_text
submit_text-IsValid d draw text s v = ground arith

pub begin_cancel-IsValid :
    (d : Deadlines) (draw : Draw) (s : ChatController)
    → IsValid s
    → IsValid (begin_cancel d draw s).0
unfolding begin_cancel
begin_cancel-IsValid d draw s v = ground arith

pub settle-IsValid : (event : _) (s : ChatController) → IsValid (settle event s)
unfolding settle
settle-IsValid event s = ground arith

pub change_session-IsValid :
    (name : Text) (s : ChatController) → IsValid s → IsValid (change_session name s).0
unfolding change_session
change_session-IsValid name s v = ground arith

pub dispatch-IsValid :
    (d : Deadlines) (draw : Draw) (action : ChatAction) (s : ChatController)
    → IsValid s
    → IsValid (dispatch d draw action s).0
unfolding dispatch
dispatch-IsValid d draw (ChatAction.submit text) s v = submit_text-IsValid d draw text s v
dispatch-IsValid d draw ChatAction.cancel s v = begin_cancel-IsValid d draw s v
dispatch-IsValid d draw ChatAction.quit s v = ground arith
dispatch-IsValid d draw ChatAction.clear s v = v
dispatch-IsValid d draw ChatAction.help s v = v
dispatch-IsValid d draw ChatAction.status s v = v
dispatch-IsValid d draw (ChatAction.set_session name) s v = change_session-IsValid name s v
dispatch-IsValid d draw ChatAction.new_session s v = ground arith

pub cancel_timed_out-IsValid :
    (w : Waiting) (s : ChatController) → IsValid s → IsValid (cancel_timed_out w s).0
unfolding cancel_timed_out
cancel_timed_out-IsValid w s v = ground arith

pub cancel_returned-IsValid :
    (w : Waiting) (s : ChatController) → IsValid s → IsValid (cancel_returned w s).0
unfolding cancel_returned
cancel_returned-IsValid w s v = ground arith

pub supervise_cancel_task-IsValid :
    (task : ℕ) (has_error : Bool) (s : ChatController)
    → IsValid s
    → IsValid (supervise_cancel_task task has_error s)
unfolding supervise_cancel_task
supervise_cancel_task-IsValid task has_error s v = ground arith

pub begin_observe-IsValid :
    (now : ℕ) (s : ChatController) → IsValid s → IsValid (begin_observe now s).0
unfolding begin_observe
begin_observe-IsValid now s v = ground arith

conclude-IsValid :
    (run start : Text) (terminal : Option ChatEvent) (s : ChatController)
    → IsValid s
    → IsValid (conclude run start terminal s).0
unfolding conclude
conclude-IsValid run start none s v = v
conclude-IsValid run start (some event) s v = settle-IsValid event s

pub end_observe-IsValid :
    (run start : Text) (read : CommandSnapshot) (cancel : Option CommandSnapshot)
    (s : ChatController)
    → IsValid s
    → IsValid (end_observe run start read cancel s).0
unfolding end_observe
end_observe-IsValid run start read cancel s v =
    conclude-IsValid run start (reconcile read (newer cancel s.cancel_snapshot))
      (keep_read read cancel s) (ground arith)
