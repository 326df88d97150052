-- ===== src/Recovery/Snapshot.antt =====
-- `RealtimeIdentityTable.snapshot`, `RealtimeRecoveryState.snapshot` and `from_snapshot` of
-- realtime/recovery.py. A snapshot that is read enters by the members that are read: `none` stands for
-- a member of another type, and `has_keys` is the test of the set of keys.
use simple_harness_service_s.Text.{codes, check_identity}
use simple_harness_service_s.Identity.{RealtimeIdentityTable, Registration, user, register, lookup}
use simple_harness_service_s.Recovery.{
  SessionState, RecoveryState, Message, MessageStatus, pending, confirmed, session_of,
}
use simple_harness_service_s.Common.{
  ℕ, Bool, true, false, not, ◌&&◌, ◌||◌, Option, none, some, is_none, List, [], ◌∷◌, String,
  string_eq, nat_eq, ◌==◌, Dict, put, contains, add, leb, ltb, length, if◌then◌else◌, Result, ok,
  raise, raise_if, value_error, ◌>>=◌, ◌>>◌,
}

pub record ItemValue : Type 0 where
  pub has_keys : Bool
  pub canonical_id : Option String
  pub role : Option String
  pub source : Option String
  pub generation : Option ℕ
  pub is_confirmed : Bool
  pub aliases : Option (List (Option String))
  pub origin : Option (Option String)

pub record MessageValue : Type 0 where
  pub has_keys : Bool
  pub digest : Option String
  pub status : Option String
  pub item_id : Option String

pub record SessionValue : Type 0 where
  pub has_keys : Bool
  pub generation : Option ℕ
  pub identities : Option (List ItemValue)
  pub tool_calls : Option (List (Option String))
  pub completed_inputs : Option (List (Option String))
  pub messages : Option (Dict String MessageValue)

pub record SnapshotValue : Type 0 where
  pub has_keys : Bool
  pub schema_version : Option ℕ
  pub sessions : Option (Dict String SessionValue)

-- A value that must have its type
abbrev pub typed {ℓ} : {A : Type ℓ} → Option A → Result A
typed none = raise value_error
typed (some a) = ok a

-- `_identity`
unfoldable pub identity : Option String → Result String
identity none = raise value_error
identity (some value) = do check_identity value; ok value

unfoldable pub identities : List (Option String) → Result (List String)
unfolding identity
identities [] = ok []
identities (value ∷ values) = do
  first ← identity value
  others ← identities values
  ok (first ∷ others)

abbrev pub known_sources : List String
known_sources =
    "context_ack" ∷ "speech_started" ∷ "committed" ∷ "transcript" ∷ "output_item"
    ∷ "input_audio_item" ∷ []

abbrev pub is_text : String → Option String → Bool
is_text expected none = false
is_text expected (some text) = text == expected

-- item.get("origin", item["source"])
abbrev pub origin_of : ItemValue → Option String
origin_of item = elim item.origin [ none ↦ item.source | some origin ↦ origin ]

-- The checks of a recovered item; what it comes to is a registration in a generation.
unfoldable pub check_item : ℕ → ItemValue → Result (ℕ × Registration)
unfolding identity identities
check_item generation item = do
  raise_if (not item.has_keys || (not (is_text "user" item.role) || not item.is_confirmed))
      value_error
  of_item ← typed item.generation
  raise_if (of_item == 0 || ltb generation of_item) value_error
  source ← typed item.source
  raise_if (not (contains known_sources source)) value_error
  aliases ← typed item.aliases
  origin ← typed (origin_of item)
  raise_if (not (contains known_sources origin)) value_error
  canonical_id ← identity item.canonical_id
  linked ← identities aliases
  ok (
    of_item,
    record {
      item_id = canonical_id;
      role = user;
      source = source;
      confirmed = true;
      aliases = linked;
      origin = some origin;
    },
  )

-- The item is registered in its own generation.
unfoldable pub restore_item : ℕ → ItemValue → RealtimeIdentityTable → Result RealtimeIdentityTable
unfolding check_item
restore_item generation item t = do
  (of_item, registration) ← check_item generation item
  (registered, t') ← register (record t { generation = of_item }) registration
  ok (record t' { generation = generation })

unfoldable pub restore_items :
    ℕ → List ItemValue → RealtimeIdentityTable → Result RealtimeIdentityTable
unfolding restore_item
restore_items generation [] t = ok t
restore_items generation (item ∷ items) t = do
  t' ← restore_item generation item t
  restore_items generation items t'

-- any(c not in "0123456789abcdef" for c in digest)
abbrev pub is_hex : ℕ → Bool
is_hex c = (leb 48 c && leb c 57) || (leb 97 c && leb c 102)

unfoldable pub all_hex : List ℕ → Bool
all_hex [] = true
all_hex (c ∷ text) = is_hex c && all_hex text

unfoldable pub status_of : Option String → Result MessageStatus
status_of none = raise value_error
status_of (some text) =
    if text == "pending"
    then ok pending
    else if text == "confirmed"
    then ok confirmed
    else raise value_error

-- A confirmed message names an item that is registered.
unfoldable pub check_registered :
    RealtimeIdentityTable → MessageStatus → Option String → Result (Unit {0})
check_registered t pending item_id = ok tt
check_registered t confirmed none = raise value_error
check_registered t confirmed (some item_id) = raise_if (is_none (lookup t item_id)) value_error

unfoldable pub check_message : RealtimeIdentityTable → MessageValue → Result Message
unfolding all_hex status_of check_registered
check_message t value = do
  raise_if (not value.has_keys) value_error
  digest ← typed value.digest
  raise_if (not (length (codes digest) == 64) || not (all_hex (codes digest))) value_error
  status ← status_of value.status
  check_registered t status value.item_id
  ok (record { digest = digest; status = status; item_id = value.item_id })

unfoldable pub restore_messages :
    RealtimeIdentityTable
    → Dict String MessageValue
    → Dict String Message
    → Result (Dict String Message)
unfolding check_message
restore_messages t [] messages = ok messages
restore_messages t ((key, value) ∷ values) messages = do
  message ← check_message t value
  check_identity key
  restore_messages t values (put key message messages)

-- set.update
unfoldable pub add_all : List String → List String → List String
add_all [] members = members
add_all (value ∷ values) members = add_all values (add value members)

abbrev pub collection_limit : ℕ
collection_limit = 10000

-- The collections of a session, once their types and sizes are checked
pub record Collections : Type 0 where
  pub items : List ItemValue
  pub calls : List (Option String)
  pub inputs : List (Option String)
  pub messages : Dict String MessageValue

unfoldable pub collections : SessionValue → Result Collections
collections value = do
  items ← typed value.identities
  calls ← typed value.tool_calls
  inputs ← typed value.completed_inputs
  messages ← typed value.messages
  raise_if
      (ltb collection_limit (length items)
        || (ltb collection_limit (length calls)
            || (ltb collection_limit (length inputs) || ltb collection_limit (length messages))))
      value_error
  ok (record { items = items; calls = calls; inputs = inputs; messages = messages })

unfoldable pub session_generation : SessionValue → Result ℕ
session_generation value = do raise_if (not value.has_keys) value_error; typed value.generation

unfoldable pub fill_session : ℕ → Collections → SessionState → Result SessionState
unfolding restore_items identities restore_messages add_all
fill_session generation c s = do
  table ← restore_items generation c.items (record s.table { generation = generation })
  tool_calls ← identities c.calls
  completed_inputs ← identities c.inputs
  messages ← restore_messages table c.messages s.messages
  ok (record {
    table = table;
    tool_calls = add_all tool_calls s.tool_calls;
    completed_inputs = add_all completed_inputs s.completed_inputs;
    messages = messages;
  })

unfoldable pub restore_session : String → SessionValue → RecoveryState → Result RecoveryState
unfolding collections session_generation fill_session session_of
restore_session key value st = do
  generation ← session_generation value
  check_identity key
  c ← collections value
  s ← fill_session generation c (session_of key st)
  ok (put key s st)

unfoldable pub restore_sessions : Dict String SessionValue → RecoveryState → Result RecoveryState
unfolding restore_session
restore_sessions [] st = ok st
restore_sessions ((key, value) ∷ values) st = do
  st' ← restore_session key value st
  restore_sessions values st'

unfoldable pub from_snapshot : SnapshotValue → Result RecoveryState
unfolding restore_sessions
from_snapshot value = do
  raise_if (not value.has_keys) value_error
  version ← typed value.schema_version
  raise_if (not (version == 1)) value_error
  sessions ← typed value.sessions
  raise_if (ltb 1024 (length sessions)) value_error
  restore_sessions sessions []
