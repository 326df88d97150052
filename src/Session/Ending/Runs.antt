-- ===== src/Session/Ending/Runs.antt =====
-- A session as its parts drive it, in any interleaving: the receive loop, the consumer of `events()`,
-- a controlled close, and the operations that fail the session.
use simple_harness_service_s.Events.{RealtimeEvent}
use simple_harness_service_s.Identity.{RealtimeIdentityTable}
use simple_harness_service_s.Session.State.{Config, Session}
use simple_harness_service_s.Session.Queue.{next_event, Round, ended, blocked, skipped, yielded}
use simple_harness_service_s.Session.Terminal.{fail, start_close, complete_close}
use simple_harness_service_s.Session.Receive.{Received, receive_round}
use simple_harness_service_s.Session.Ending.Rounds.{IsDecoded}
use simple_harness_service_s.Common.{
  ◌≡◌, Bool, true, false, List, [], ◌∷◌, ◌++◌, String, RealtimeErrorCode,
}

-- The event that a round of `events()` takes out of the queue.
abbrev pub taken_by : Round → List RealtimeEvent
taken_by ended = []
taken_by blocked = []
taken_by (skipped e) = e ∷ []
taken_by (yielded e) = e ∷ []

-- One step of a session, with the events that its consumer has taken before and after.
pub data Transition (c : Config)
    : List RealtimeEvent → Session → List RealtimeEvent → Session → Type 0 where
  receive :
      (t : List RealtimeEvent) (s : Session) (received : Received)
      → IsDecoded received
      → Transition c t s t (receive_round c received s).0
  consume :
      (t : List RealtimeEvent) (s : Session)
      → Transition c t s (t ++ taken_by (next_event c s).1) (next_event c s).0
  begin_close :
      (t : List RealtimeEvent) (s : Session) (event_id : String)
      → Transition c t s t (start_close event_id s).0
  end_close :
      (t : List RealtimeEvent) (s : Session) (reason : String)
      → s.terminal.closing ≡ true
      → s.terminal.terminal_published ≡ false
      → Transition c t s t (complete_close c reason s)
  abort :
      (t : List RealtimeEvent) (s : Session) (code : RealtimeErrorCode) (is_retryable : Bool)
      → Transition c t s t (fail c code is_retryable s)
  supersede :
      (t : List RealtimeEvent) (s : Session) → Transition c t s t (record s { superseded = true })
  identify :
      (t : List RealtimeEvent) (s : Session) (table : RealtimeIdentityTable)
      → Transition c t s t (record s { identity_table = table })

pub data Run (c : Config) (s : Session) : List RealtimeEvent → Session → Type 0 where
  here : Run c s [] s
  next :
      {t t' : List RealtimeEvent} {m m' : Session}
      → Run c s t m
      → Transition c t m t' m'
      → Run c s t' m'

-- A round of the consumer moves an event from the queue to what was taken.
record IsMove (t : List RealtimeEvent) (s : Session) (r : Session × Round) : Type 0 where
  log : (t ++ taken_by r.1) ++ r.0.output.events ≡ t ++ s.output.events
  terminal : r.0.terminal ≡ s.terminal
