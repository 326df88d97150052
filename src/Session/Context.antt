-- ===== src/Session/Context.antt =====
-- Messages and instructions put into the context: `append_message`, `update_instructions`,
-- `out_of_band_response`, `truncate_output`, `_validate_context` and `_inject_context` of
-- realtime/session.py. An injection is split at the wait for its acknowledgement. The event of the adapter
-- enters by its id and by whether it asks for a response, the digest of a message as a text.
pub mod Once
use simple_harness_service_s.Text.{codes, is_blank}
use simple_harness_service_s.Session.State.{Config, Session, Pending, waiting, resolved, rejected}
use simple_harness_service_s.Session.Terminal.{fail}
use simple_harness_service_s.Session.Requests.{require_active}
use simple_harness_service_s.Session.Tools.{Write, utf8_size, send_runtime_event}
use simple_harness_service_s.Recovery.{RecoveryState, claim_message, confirm_message}
use simple_harness_service_s.Common.{
  ℕ, Bool, true, false, not, ◌&&◌, ◌||◌, Option, none, some, List, [], ◌∷◌, String, string_eq,
  nat_eq, ◌==◌, ltb, if◌then◌else◌, contains, get, put, remove, RealtimeErrorCode, Exception,
  Result, ok, raise, raise_if, ◌>>=◌, ◌>>◌, realtime_error, timeout, unsupported, busy,
  invalid_request,
}

unfoldable pub validate_context : Config → String → Session → Result (Unit {0})
unfolding require_active utf8_size is_blank
validate_context c text s = do
  require_active c s
  raise_if (not s.ready) (realtime_error busy false)
  raise_if
      (is_blank (codes text)
        || (contains (codes text) 0 || ltb c.limits.tool_payload_bytes (utf8_size (codes text))))
      (realtime_error invalid_request false)

-- The event that the adapter makes
pub record ContextEvent : Type 0 where
  pub event_id : String
  pub is_response_create : Bool

-- How far an operation has come: it waits for the acknowledgement of an event, it has returned, or it has
-- raised an exception.
pub data Progress : Type 0 where
  awaits : String → Progress
  returned : Progress
  raised : Exception → Progress

abbrev pub forget : String → Session → Session
forget identity s = record s { context_pending = remove identity s.context_pending }

-- The event was handed to the connection, or the send raised.
unfoldable pub after_send : String → Session × Result (Unit {0}) → Session × Progress
after_send identity (s, ok done) = (s, awaits identity)
after_send identity (s, raise x) = (forget identity s, raised x)

-- `_inject_context` up to its wait
unfoldable pub begin_context : Config → Write → ContextEvent → Session → Session × Progress
unfolding require_active send_runtime_event after_send
begin_context c written event s = elim (require_active c s) [
  | raise x ↦ (s, raised x)
  | ok active ↦ after_send event.event_id (
      send_runtime_event c written
        (record s { context_pending = put event.event_id waiting s.context_pending }))
]

abbrev pub after_trigger : String → Session × Result (Unit {0}) → Session × Progress
after_trigger identity (s, ok done) = (forget identity s, returned)
after_trigger identity (s, raise x) = (forget identity s, raised x)

-- The rest of it, once the message is confirmed: a response is asked for.
unfoldable pub trigger : Config → Write → Bool → ContextEvent → Session → Session × Progress
unfolding send_runtime_event
trigger c written trigger_response event s =
    if trigger_response && not event.is_response_create
    then after_trigger event.event_id (send_runtime_event c written s)
    else (forget event.event_id s, returned)

-- The session and the recovery state that it shares with the other sessions of its process
abbrev pub Both : Type 0
Both = Session × RecoveryState

-- The message of the key is confirmed with the item that was acknowledged.
unfoldable pub confirm_ack :
    String → Option String → Session → RecoveryState → RecoveryState × Result (Unit {0})
unfolding confirm_message
confirm_ack id none s st = (st, ok tt)
confirm_ack id (some key) s st = elim s.context_ack_id [
  | none ↦ (st, ok tt)
  | some item_id ↦ confirm_message id key item_id st
]

-- What the wait ends with: the acknowledgement, its refusal, or a timeout
pub data Acknowledged : Type 0 where
  acknowledged timed_out : Acknowledged
  refused : RealtimeErrorCode → Acknowledged

unfoldable pub after_confirm :
    Config
    → Write
    → Bool
    → ContextEvent
    → Session
    → RecoveryState × Result (Unit {0})
    → Both × Progress
unfolding trigger
after_confirm c written trigger_response event s (st, raise x) =
    ((forget event.event_id s, st), raised x)
after_confirm c written trigger_response event s (st, ok done) =
    let (s', progress) = trigger c written trigger_response event s in ((s', st), progress)

unfoldable pub after_ack :
    Config → Write → String → Option String → Bool → ContextEvent → Both → Both × Progress
unfolding require_active confirm_ack after_confirm
after_ack c written id key trigger_response event (s, st) = elim (require_active c s) [
  | raise x ↦ ((forget event.event_id s, st), raised x)
  | ok active ↦ after_confirm c written trigger_response event s (confirm_ack id key s st)
]

unfoldable pub end_context :
    Config
    → Write
    → Acknowledged
    → String
    → Option String
    → Bool
    → ContextEvent
    → Both
    → Both × Progress
unfolding after_ack
end_context c written acknowledged id key trigger_response event both =
    after_ack c written id key trigger_response event both
end_context c written timed_out id key trigger_response event (s, st) =
    ((forget event.event_id (fail c timeout false s), st), raised (realtime_error timeout false))
end_context c written (refused code) id key trigger_response event (s, st) =
    ((forget event.event_id s, st), raised (realtime_error code false))

-- What the claim of an idempotency key comes to: the message is sent, or it was before.
unfoldable pub append_claimed :
    Config
    → Write
    → ContextEvent
    → Session
    → RecoveryState × Result (Option String)
    → Both × Progress
unfolding begin_context
append_claimed c written event s (st, raise x) = ((s, st), raised x)
append_claimed c written event s (st, ok (some prior)) =
    ((record s { context_ack_id = some prior }, st), returned)
append_claimed c written event s (st, ok none) =
    let (s', progress) = begin_context c written event s in ((s', st), progress)

-- A message with its idempotency key, if it has one, and the digest of its payload
pub record AppendRequest : Type 0 where
  pub text : String
  pub idempotency_key : Option String
  pub digest : String
  pub event : ContextEvent

-- A message without a key is granted at once.
abbrev pub claim_of :
    String → Option String → String → RecoveryState → RecoveryState × Result (Option String)
claim_of id none digest st = (st, ok none)
claim_of id (some key) digest st = claim_message id key digest st

unfoldable pub append_valid :
    Config → Write → String → AppendRequest → Result (Unit {0}) → Both → Both × Progress
unfolding append_claimed claim_message
append_valid c written id r (raise x) both = (both, raised x)
append_valid c written id r (ok valid) (s, st) =
    append_claimed c written r.event s (claim_of id r.idempotency_key r.digest st)

-- `append_message` up to the wait, with the external id of the session
unfoldable pub append_message : Config → Write → String → AppendRequest → Both → Both × Progress
unfolding validate_context append_valid
append_message c written id r both =
    append_valid c written id r (validate_context c r.text both.0) both

-- `update_instructions` and `out_of_band_response`, up to the wait
unfoldable pub inject_text : Config → Write → String → ContextEvent → Session → Session × Progress
unfolding validate_context begin_context
inject_text c written text event s = elim (validate_context c text s) [
  | raise x ↦ (s, raised x)
  | ok valid ↦ begin_context c written event s
]

unfoldable pub truncate_output : Config → Bool → Write → Session → Session × Result (Unit {0})
unfolding require_active send_runtime_event
truncate_output c supports_truncate written s = elim (require_active c s) [
  | raise x ↦ (s, raise x)
  | ok active ↦
      if not supports_truncate
      then (s, raise (realtime_error unsupported false))
      else send_runtime_event c written s
]
