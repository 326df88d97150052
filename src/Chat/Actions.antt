-- ===== src/Chat/Actions.antt =====
-- The actions of chat_controller.py: `dispatch`, `_submit`, `_cancel`, `_set_session`, `_status_text` and
-- the callback of the cancel task. `_cancel` is split at the wait for its task; the lock makes
-- `_submit` one step with the call of the client.
use simple_harness_service_s.Text.{codes, is_space, is_blank}
use simple_harness_service_s.Chat.State.{
  Text, ChatAction, submit, cancel, quit, clear, help, status, set_session, new_session, ChatEvent,
  accepted, cancel_pending, notice, transcript_cleared, session_changed, quit_requested,
  ChatController, Deadlines, ControllerState, state_of, is_idle,
}
use simple_harness_service_s.Common.{
  ℕ, ◌+◌, Bool, true, false, not, ◌&&◌, Option, none, some, List, [], ◌∷◌, ◌++◌, is_some, is_none,
  if◌then◌else◌, ◌==◌, nat_eq,
}

-- What the outside gives an action: the ids that the factory makes, the time, and whether the
-- client's `start` returns.
pub record Draw : Type 0 where
  pub new_run : Text
  pub new_command : Text
  pub new_cancel : Text
  pub now : ℕ
  pub start_returns : Bool

-- What `_cancel` has read under the lock when it waits for its task
pub record Waiting : Type 0 where
  pub task : ℕ
  pub run : Text
  pub start : Text
  pub cancel_id : Option Text

-- What an action comes to: events, the wait for the cancel task, or an exception of the client or of
-- the controller itself (RuntimeError).
pub data Reply : Type 0 where
  answered : List ChatEvent → Reply
  awaits : Waiting → Reply
  client_raised runtime_error : Reply

unfoldable pub submit_text : Deadlines → Draw → Text → ChatController → ChatController × Reply
submit_text d draw text s =
    if is_blank text
    then (s, answered [])
    else if is_some s.run_id
    then (s, answered (notice (codes "A run is already active") ∷ []))
    else if not draw.start_returns
    then (s, client_raised)
    else (
      record s {
        run_id = some draw.new_run;
        start_command_id = some draw.new_command;
        last_outcome = codes "pending";
        run_deadline = some (draw.now + d.observe_deadline);
      },
      answered (
          accepted draw.new_run draw.new_command
          ∷ ChatEvent.pending draw.new_run draw.new_command none
          ∷ []),
    )

-- A new cancel task is made.
unfoldable pub open_cancel : Deadlines → Draw → ChatController → ChatController
open_cancel d draw s = record s {
  cancel_command_id = some draw.new_cancel;
  cancel_task = some s.task_count;
  cancel_deadline = some (draw.now + d.cancel_reconcile);
  task_count = s.task_count + 1;
}

unfoldable pub ensure_task : Deadlines → Draw → ChatController → ChatController
unfolding open_cancel
ensure_task d draw s = if is_none s.cancel_task then open_cancel d draw s else s

-- CancelPending(run_id, start_id, cancel_id), or the RuntimeError that guards it
unfoldable pub report_pending : Text → Text → Option Text → Reply
report_pending run start none = runtime_error
report_pending run start (some cancel_id) = answered (cancel_pending run start cancel_id ∷ [])

-- Past the task: it is waited for, unless the pending cancel was reported before.
unfoldable pub await_task : Text → Text → ChatController → Option ℕ → Reply
unfolding report_pending
await_task run start s none = runtime_error
await_task run start s (some task) =
    if s.cancel_pending_reported
    then report_pending run start s.cancel_command_id
    else awaits (record { task = task; run = run; start = start; cancel_id = s.cancel_command_id })

unfoldable pub begin_cancel : Deadlines → Draw → ChatController → ChatController × Reply
unfolding ensure_task await_task
begin_cancel d draw s = elim s.run_id [
  | none ↦ (s, answered (notice (codes "No active run") ∷ []))
  | some run ↦ elim s.start_command_id [
    | none ↦ (s, answered (notice (codes "No active run") ∷ []))
    | some start ↦ let s' = ensure_task d draw s in (s', await_task run start s' s'.cancel_task)
  ]
]

-- self._cancel_task is task
abbrev pub is_current_task : ℕ → ChatController → Bool
is_current_task task s = elim s.cancel_task [ none ↦ false | some current ↦ current == task ]

-- The wait for the task timed out.
unfoldable pub cancel_timed_out : Waiting → ChatController → ChatController × Reply
unfolding report_pending
cancel_timed_out w s = (
  if is_current_task w.task s
      then record s { cancel_pending_reported = true; cancel_deadline = none }
      else s,
  report_pending w.run w.start w.cancel_id,
)

-- The task returned in time.
unfoldable pub cancel_returned : Waiting → ChatController → ChatController × Reply
cancel_returned w s = (
  if is_current_task w.task s then record s { cancel_accepted = true } else s,
  answered (ChatEvent.pending w.run w.start w.cancel_id ∷ []),
)

-- `_supervise_cancel_task`, for a task that was not cancelled
unfoldable pub supervise_cancel_task : ℕ → Bool → ChatController → ChatController
supervise_cancel_task task has_error s =
    if not has_error && is_current_task task s then record s { cancel_accepted = true } else s

-- text.lstrip() and text.strip()
unfoldable pub lstrip : Text → Text
lstrip [] = []
lstrip (c ∷ text) = let rest = lstrip text in if is_space c then rest else c ∷ text

unfoldable pub strip_end : Text → Text
unfolding is_blank
strip_end [] = []
strip_end (c ∷ text) = let rest = strip_end text in if is_blank (c ∷ text) then [] else c ∷ rest

abbrev pub strip : Text → Text
strip text = strip_end (lstrip text)

unfoldable pub change_session : Text → ChatController → ChatController × Reply
unfolding state_of lstrip strip_end
change_session name s =
    if not (is_idle (state_of s))
    then (s, answered (notice (codes "Cancel the active run before changing session") ∷ []))
    else if is_blank name
    then (s, answered (notice (codes "Session is required") ∷ []))
    else (
      record s { session = strip name; last_outcome = codes "idle" },
      answered (session_changed (strip name) ∷ []),
    )

abbrev pub or_empty : Option Text → Text
or_empty none = []
or_empty (some text) = text

abbrev pub state_name : ControllerState → Text
state_name ControllerState.idle = codes "idle"
state_name ControllerState.pending = codes "pending"
state_name ControllerState.cancel_in_flight = codes "cancel_in_flight"

-- The part of the status that names the cancel command
abbrev pub cancel_status : Option Text → Text
cancel_status none = []
cancel_status (some id) = codes " cancel=" ++ id

-- `_status_text`; a command id stands there whenever a run does
unfoldable pub status_text : ChatController → Text
unfolding state_of
status_text s =
    if is_none s.run_id
    then codes "session=" ++ (s.session ++ (codes " state=idle outcome=" ++ s.last_outcome))
    else codes "session="
      ++ (s.session
          ++ (codes " state="
              ++ (state_name (state_of s)
                  ++ (codes " run="
                      ++ (or_empty s.run_id
                          ++ (codes " command="
                              ++ (or_empty s.start_command_id
                                  ++ cancel_status s.cancel_command_id)))))))

-- " ".join(item.usage for item in COMMANDS)
abbrev pub usages : Text
usages = codes "/help /session NAME /new /cancel /quit /status /clear"

unfoldable pub dispatch : Deadlines → Draw → ChatAction → ChatController → ChatController × Reply
unfolding submit_text begin_cancel change_session status_text state_of
dispatch d draw (submit text) s = submit_text d draw text s
dispatch d draw cancel s = begin_cancel d draw s
dispatch d draw quit s =
    if is_idle (state_of s)
    then (s, answered (quit_requested false ∷ []))
    else begin_cancel d draw (record s { quit_after_settle = true })
dispatch d draw clear s = (s, answered (transcript_cleared ∷ []))
dispatch d draw help s = (s, answered (notice usages ∷ []))
dispatch d draw status s = (s, answered (notice (status_text s) ∷ []))
dispatch d draw (set_session name) s = change_session name s
dispatch d draw new_session s =
    if not (is_idle (state_of s))
    then (s, answered (notice (codes "Cancel the active run before /new") ∷ []))
    else (
      record s { last_outcome = codes "idle" },
      answered (transcript_cleared ∷ notice (codes "New display context") ∷ []),
    )
