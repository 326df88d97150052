-- ===== src/Chat/Served.antt =====
-- Which command the snapshots belong to that a `ChatController` of chat_controller.py keeps.
use simple_harness_service_s.Commands.{CommandSnapshot}
use simple_harness_service_s.Chat.State.{
  ChatAction, ChatEvent, ChatController, Deadlines, Text, settle, state_of, active_identity,
}
use simple_harness_service_s.Chat.Actions.{
  Draw, Waiting, dispatch, submit_text, begin_cancel, change_session, cancel_timed_out,
  cancel_returned, supervise_cancel_task,
}
use simple_harness_service_s.Chat.Observe.{begin_observe, end_observe, conclude, newer, keep_read}
use simple_harness_service_s.Chat.Reconcile.{reconcile}
use simple_harness_service_s.Chat.Invariant.{IsValid}
use simple_harness_service_s.Common.{ℕ, ◌≡◌, Bool, ◌⊎◌, inl, inr, Option, none, some, arith, subst}

-- The cancel command that a reading asks for is the current one.
abbrev pub IsOfCancel : Option Text → ChatController → Type 0
IsOfCancel none c = Unit {0}
IsOfCancel (some id) c = c.cancel_command_id ≡ some id

-- The snapshots stay, and a command id that stands stays.
record KeepsCommands (c c' : ChatController) : Type 0 where
  start_snapshot : c'.start_snapshot ≡ c.start_snapshot
  cancel_snapshot : c'.cancel_snapshot ≡ c.cancel_snapshot
  start : (c'.start_command_id ≡ c.start_command_id) ⊎ (c.start_command_id ≡ none)
  cancel : (c'.cancel_command_id ≡ c.cancel_command_id) ⊎ (c.cancel_command_id ≡ none)

dispatch-KeepsCommands :
    (d : Deadlines) (draw : Draw) (action : ChatAction) (c : ChatController)
    → IsValid c
    → KeepsCommands c (dispatch d draw action c).0
unfolding dispatch submit_text begin_cancel change_session state_of
dispatch-KeepsCommands d draw (ChatAction.submit text) c v = ground arith
dispatch-KeepsCommands d draw ChatAction.cancel c v = ground arith
dispatch-KeepsCommands d draw ChatAction.quit c v = ground arith
dispatch-KeepsCommands d draw ChatAction.clear c v = ground arith
dispatch-KeepsCommands d draw ChatAction.help c v = ground arith
dispatch-KeepsCommands d draw ChatAction.status c v = ground arith
dispatch-KeepsCommands d draw (ChatAction.set_session name) c v = ground arith
dispatch-KeepsCommands d draw ChatAction.new_session c v = ground arith

pub dispatch-cancel :
    (d : Deadlines) (draw : Draw) (action : ChatAction) (c : ChatController)
    → IsValid c
    → ((dispatch d draw action c).0.cancel_command_id ≡ c.cancel_command_id)
      ⊎ (c.cancel_command_id ≡ none)
dispatch-cancel d draw action c v = (dispatch-KeepsCommands d draw action c v).cancel

pub active-start :
    (c : ChatController) (run start : Text)
    → active_identity c ≡ some (run, start)
    → c.start_command_id ≡ some start
unfolding active_identity
active-start c run start h = ground arith

-- `Serves id x`: the client may answer `get(id)` with the snapshot `x`.
module _ (Serves : Text → CommandSnapshot → Type 0) where
  -- A snapshot that is kept was served for the command that is kept beside it.
  abbrev pub IsFrom : Option Text → Option CommandSnapshot → Type 0
  IsFrom _ none = Unit {0}
  IsFrom none (some x) = ⊥
  IsFrom (some id) (some x) = Serves id x

  -- The commands that were asked for were answered, and no others.
  abbrev pub IsAnswer : Option Text → Option CommandSnapshot → Type 0
  IsAnswer none none = Unit {0}
  IsAnswer (some id) (some x) = Serves id x
  IsAnswer _ _ = ⊥

  pub record IsServed (c : ChatController) : Type 0 where
    pub start : IsFrom c.start_command_id c.start_snapshot
    pub cancel : IsFrom c.cancel_command_id c.cancel_snapshot

  IsFrom-kept :
      (id id' : Option Text) (x : Option CommandSnapshot)
      → (id' ≡ id) ⊎ (id ≡ none)
      → IsFrom id x
      → IsFrom id' x
  IsFrom-kept id id' none k h = tt
  IsFrom-kept id id' (some x) (inl same) h = rw same h
  IsFrom-kept id id' (some x) (inr fresh) h = absurd (subst (λ i. IsFrom i (some x)) fresh h)

  KeepsCommands-IsServed : (c c' : ChatController) → KeepsCommands c c' → IsServed c → IsServed c'
  KeepsCommands-IsServed c c' k s = record {
    start =
        rw k.start_snapshot (IsFrom-kept c.start_command_id c'.start_command_id _ k.start s.start);
    cancel =
        rw k.cancel_snapshot
          (IsFrom-kept c.cancel_command_id c'.cancel_command_id _ k.cancel s.cancel);
  }

  pub dispatch-IsServed :
      (d : Deadlines) (draw : Draw) (action : ChatAction) (c : ChatController)
      → IsValid c
      → IsServed c
      → IsServed (dispatch d draw action c).0
  dispatch-IsServed d draw action c v =
      KeepsCommands-IsServed c (dispatch d draw action c).0
        (dispatch-KeepsCommands d draw action c v)

  pub cancel_timed_out-IsServed :
      (w : Waiting) (c : ChatController) → IsServed c → IsServed (cancel_timed_out w c).0
  unfolding cancel_timed_out
  cancel_timed_out-IsServed w c = KeepsCommands-IsServed c (cancel_timed_out w c).0 (ground arith)

  pub cancel_returned-IsServed :
      (w : Waiting) (c : ChatController) → IsServed c → IsServed (cancel_returned w c).0
  unfolding cancel_returned
  cancel_returned-IsServed w c = KeepsCommands-IsServed c (cancel_returned w c).0 (ground arith)

  pub supervise_cancel_task-IsServed :
      (task : ℕ) (has_error : Bool) (c : ChatController)
      → IsServed c
      → IsServed (supervise_cancel_task task has_error c)
  unfolding supervise_cancel_task
  supervise_cancel_task-IsServed task has_error c =
      KeepsCommands-IsServed c (supervise_cancel_task task has_error c) (ground arith)

  pub begin_observe-IsServed :
      (now : ℕ) (c : ChatController) → IsServed c → IsServed (begin_observe now c).0
  unfolding begin_observe
  begin_observe-IsServed now c = KeepsCommands-IsServed c (begin_observe now c).0 (ground arith)

  -- The newer of the two snapshots of the cancel command
  pub newer-IsFrom :
      (asked : Option Text) (answer : Option CommandSnapshot) (c : ChatController)
      → IsOfCancel asked c
      → IsAnswer asked answer
      → IsFrom c.cancel_command_id c.cancel_snapshot
      → IsFrom c.cancel_command_id (newer answer c.cancel_snapshot)
  newer-IsFrom none none c own answered old = old
  newer-IsFrom (some id) (some x) c own answered old = rw own answered
  newer-IsFrom none (some x) c own answered old = absurd answered
  newer-IsFrom (some id) none c own answered old = absurd answered

  conclude-IsServed :
      (run start : Text) (terminal : Option ChatEvent) (c : ChatController)
      → IsServed c
      → IsServed (conclude run start terminal c).0
  unfolding conclude settle
  conclude-IsServed run start none c s = s
  conclude-IsServed run start (some event) c s = record { start = tt; cancel = tt }

  pub end_observe-IsServed :
      (run start : Text) (asked : Option Text) (read : CommandSnapshot)
      (answer : Option CommandSnapshot) (c : ChatController)
      → c.start_command_id ≡ some start
      → IsOfCancel asked c
      → Serves start read
      → IsAnswer asked answer
      → IsServed c
      → IsServed (end_observe run start read answer c).0
  unfolding end_observe
  end_observe-IsServed run start asked read answer c active own served answered s =
      conclude-IsServed run start (reconcile read (newer answer c.cancel_snapshot))
        (keep_read read answer c)
        (record {
          start = rw active served;
          cancel = newer-IsFrom asked answer c own answered s.cancel;
        })
