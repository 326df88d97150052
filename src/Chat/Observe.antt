-- ===== src/Chat/Observe.antt =====
-- `observe_once` and `observe_until` of chat_controller.py. `observe_once` is split at the reading of the
-- snapshots, during which other actions may run.
pub mod Ends
pub mod Once
use simple_harness_service_s.Commands.{CommandSnapshot}
use simple_harness_service_s.Chat.State.{
  Text, ChatEvent, timeout, quit_requested, ChatController, active_identity, settle,
}
use simple_harness_service_s.Chat.Reconcile.{reconcile}
use simple_harness_service_s.Chat.Actions.{Reply, answered, runtime_error, report_pending}
use simple_harness_service_s.Common.{
  ℕ, zero, suc, ◌+◌, ◌*◌, min, Bool, true, false, not, ◌||◌, Option, none, some, [], ◌∷◌, is_none,
  if◌then◌else◌, leb, ltb,
}

-- deadline is not None and now >= deadline
abbrev pub is_reached : Option ℕ → ℕ → Bool
is_reached none now = false
is_reached (some deadline) now = leb deadline now

-- The first part of `observe_once`: a reply, or the ids of the commands that are read.
pub data Observation : Type 0 where
  replies : Reply → Observation
  reads : Text → Text → Option Text → Observation

-- `_read_snapshots` reads the cancel command only once it was accepted.
unfoldable pub read_of : Text → Text → ChatController → Observation
read_of run start s =
    reads run start
      (if is_none s.cancel_command_id || not s.cancel_accepted then none else s.cancel_command_id)

unfoldable pub observe_run : ℕ → Text → Text → ChatController → ChatController × Observation
unfolding read_of report_pending
observe_run now run start s =
    if is_reached s.cancel_deadline now
    then (
      record s { cancel_deadline = none },
      replies (report_pending run start s.cancel_command_id),
    )
    else if is_reached s.run_deadline now
    then (s, replies (answered (timeout run start ∷ [])))
    else (s, read_of run start s)

unfoldable pub begin_observe : ℕ → ChatController → ChatController × Observation
unfolding active_identity observe_run
begin_observe now s = elim (active_identity s) [
  | none ↦ (s, replies runtime_error)
  | some (run, start) ↦ observe_run now run start s
]

-- if cancel_snapshot is not None: self._cancel_snapshot = cancel_snapshot
abbrev pub newer : Option CommandSnapshot → Option CommandSnapshot → Option CommandSnapshot
newer none old = old
newer (some new) old = some new

unfoldable pub conclude : Text → Text → Option ChatEvent → ChatController → ChatController × Reply
unfolding settle
conclude run start none s = (s, answered (ChatEvent.pending run start s.cancel_command_id ∷ []))
conclude run start (some terminal) s = (
  settle terminal s,
  answered (if s.quit_after_settle then terminal ∷ quit_requested true ∷ [] else terminal ∷ []),
)

-- The snapshots that were read are kept.
abbrev pub keep_read : CommandSnapshot → Option CommandSnapshot → ChatController → ChatController
keep_read read cancel s = record s {
  start_snapshot = some read;
  cancel_snapshot = newer cancel s.cancel_snapshot;
}

-- The rest of `observe_once`, with the snapshots that were read
unfoldable pub end_observe :
    Text → Text → CommandSnapshot → Option CommandSnapshot → ChatController → ChatController × Reply
unfolding reconcile conclude
end_observe run start read cancel s =
    conclude run start (reconcile read (newer cancel s.cancel_snapshot)) (keep_read read cancel s)

-- What one round of `observe_until` meets: the time from its test to the clock of `observe_once`, the
-- time that the rest of the round takes beyond the delay that it sleeps, the snapshots that are read
-- (the client may raise), and what other actions make of the state meanwhile.
pub record Round : Type 0 where
  pub before : ℕ
  pub spent : ℕ
  pub start_read : Option CommandSnapshot
  pub cancel_read : Option CommandSnapshot
  pub meanwhile : ChatController → ChatController

unfoldable pub finish_observe : Round → Observation → ChatController → ChatController × Reply
unfolding end_observe
finish_observe r (replies reply) s = (s, reply)
finish_observe r (reads run start cancel) s = elim r.start_read [
  | none ↦ (r.meanwhile s, Reply.client_raised)
  | some snapshot ↦
      end_observe run start snapshot (elim cancel [ none ↦ none | some id ↦ r.cancel_read ])
        (r.meanwhile s)
]

unfoldable pub observe_once : ℕ → Round → ChatController → ChatController × Reply
unfolding begin_observe finish_observe
observe_once now r s = let (s', o) = begin_observe now s in finish_observe r o s'

-- isinstance(events[0], Pending)
abbrev pub is_pending : Reply → Bool
is_pending (answered (ChatEvent.pending run start cancel ∷ events)) = true
is_pending _ = false

-- The `while` loop of `observe_until`, at the time `now`; `none` is the end of the fuel, and `k` numbers
-- the rounds. A sleep takes at least its delay.
unfoldable pub observe_loop :
    ℕ
    → (ℕ → Round)
    → ℕ
    → (now deadline delay maximum_delay : ℕ) → Text
    → Text
    → ChatController
    → Option (ChatController × Reply)
unfolding observe_once
observe_loop zero rounds k now deadline delay maximum_delay run command s = none
observe_loop (suc fuel) rounds k now deadline delay maximum_delay run command s =
    let (s', reply) = observe_once (now + (rounds k).before) (rounds k) s in
    let woken = now + (rounds k).before + (rounds k).spent + delay in
    let rest =
      observe_loop fuel rounds (suc k) woken deadline (min maximum_delay (delay * 2)) maximum_delay
        run command s' in
    if not (ltb now deadline)
    then some (s, answered (timeout run command ∷ []))
    else if not (is_pending reply)
    then some (s', reply)
    else rest

unfoldable pub observe_until :
    ℕ
    → (ℕ → Round)
    → (now deadline_seconds initial_delay maximum_delay : ℕ) → ChatController
    → Option (ChatController × Reply)
unfolding active_identity observe_loop
observe_until fuel rounds now deadline_seconds initial_delay maximum_delay s =
    elim (active_identity s) [
      | none ↦ some (s, runtime_error)
      | some (run, command) ↦
          observe_loop fuel rounds 0 now (now + deadline_seconds) initial_delay maximum_delay run
            command s
    ]
