-- ===== src/Recovery.antt =====
-- `RealtimeRecoveryState` of realtime/recovery.py: what is kept of a logical session between two
-- connections. `_session` adds a session that is not there, also where the caller then raises, so
-- operations return the state with their result.
pub mod Messages
pub mod Snapshot
pub mod Saved
pub mod Restored
pub mod RoundTrip
use simple_harness_service_s.Text.{check_identity}
use simple_harness_service_s.Identity.{RealtimeIdentityTable, begin_generation}
use simple_harness_service_s.Common.{
  ℕ, ◌+◌, max, Bool, true, false, not, Option, none, some, List, [], ◌∷◌, String, string_eq, ◌==◌,
  Dict, get, put, if◌then◌else◌, Result, ok, raise, Exception, realtime_error, key_error,
  invalid_request, busy,
}

pub data MessageStatus : Type 0 where
  pending confirmed : MessageStatus

pub record Message : Type 0 where
  pub digest : String
  pub status : MessageStatus
  pub item_id : Option String

pub record SessionState : Type 0 where
  pub table : RealtimeIdentityTable
  pub tool_calls : List String
  pub completed_inputs : List String
  pub messages : Dict String Message

abbrev pub RecoveryState : Type 0
RecoveryState = Dict String SessionState

abbrev pub fresh : SessionState
fresh = record {
  table = record { generation = 0; items = [] };
  tool_calls = [];
  completed_inputs = [];
  messages = [];
}

-- setdefault(external_session_id, _SessionState()), for an id that is checked
unfoldable pub session_of : String → RecoveryState → SessionState
session_of id st = elim (get st id) [ none ↦ fresh | some s ↦ s ]

unfoldable pub with_session :
    {A : Type 0}
    → String
    → RecoveryState
    → (SessionState → SessionState × Result A)
    → RecoveryState × Result A
unfolding session_of
with_session id st k = elim (check_identity id) [
  | raise e ↦ (st, raise e)
  | ok _ ↦ let (s, result) = k (session_of id st) in (put id s st, result)
]

unfoldable pub begin_in : ℕ → SessionState → SessionState × Result ℕ
unfolding begin_generation
begin_in minimum_generation s =
    let generation = max (s.table.generation + 1) minimum_generation in
    (record s { table = begin_generation generation s.table }, ok generation)

unfoldable pub begin_session : String → ℕ → RecoveryState → RecoveryState × Result ℕ
unfolding with_session begin_in
begin_session id minimum_generation st = with_session id st (begin_in minimum_generation)

unfoldable pub claim_existing : String → Message → Result (Option String)
claim_existing digest existing =
    if not (existing.digest == digest)
    then raise (realtime_error invalid_request false)
    else elim existing.status [
      | pending ↦ raise (realtime_error busy false)
      | confirmed ↦ ok existing.item_id
    ]

-- `claim_message` and `confirm_message`, on the state of their session
unfoldable pub claim_in : String → String → SessionState → SessionState × Result (Option String)
unfolding claim_existing
claim_in key digest s =
    let entry : Message = record { digest = digest; status = pending; item_id = none } in
    elim (check_identity key) [
      | raise e ↦ (s, raise e)
      | ok _ ↦ elim (get s.messages key) [
        | some existing ↦ (s, claim_existing digest existing)
        | none ↦ (record s { messages = put key entry s.messages }, ok none)
      ]
    ]

unfoldable pub confirm_in : String → String → SessionState → SessionState × Result (Unit {0})
confirm_in key item_id s = elim (get s.messages key) [
  | none ↦ (s, raise key_error)
  | some entry ↦ (
    record s {
      messages = put key (record entry { status = confirmed; item_id = some item_id }) s.messages;
    },
    ok tt,
  )
]

unfoldable pub claim_message :
    String → String → String → RecoveryState → RecoveryState × Result (Option String)
unfolding with_session claim_in
claim_message id key digest st = with_session id st (claim_in key digest)

unfoldable pub confirm_message :
    String → String → String → RecoveryState → RecoveryState × Result (Unit {0})
unfolding with_session confirm_in
confirm_message id key item_id st = with_session id st (confirm_in key item_id)
