-- ===== src/Recovery/Saved.antt =====
-- `RealtimeIdentityTable.snapshot` and `RealtimeRecoveryState.snapshot` of realtime/recovery.py, as the
-- values that `from_snapshot` reads.
use Prim.Native.String.{compare}
use Prim.Native.Nat.{Ordering}
use simple_harness_service_s.Identity.{
  RealtimeIdentityTable, RealtimeItemIdentity, Role, user, assistant, system, is_user_role,
}
use simple_harness_service_s.Recovery.{
  SessionState, RecoveryState, Message, MessageStatus, pending, confirmed,
}
use simple_harness_service_s.Recovery.Snapshot.{
  ItemValue, MessageValue, SessionValue, SnapshotValue,
}
use simple_harness_service_s.Common.{
  Bool, true, false, ◌&&◌, some, List, [], ◌∷◌, String, string_eq, ◌==◌, Dict, map, if◌then◌else◌,
}

abbrev pub is_before : String → String → Bool
is_before a b = elim (compare a b) [ Ordering.gt ↦ false | _ ↦ true ]

-- sorted(...) of texts, and of pairs with keys that differ
unfoldable pub insert_text : String → List String → List String
insert_text a [] = a ∷ []
insert_text a (b ∷ texts) =
    let rest = insert_text a texts in if is_before a b then a ∷ b ∷ texts else b ∷ rest

unfoldable pub sorted_texts : List String → List String
unfolding insert_text
sorted_texts [] = []
sorted_texts (a ∷ texts) = insert_text a (sorted_texts texts)

unfoldable pub insert_item :
    String × RealtimeItemIdentity
    → Dict String RealtimeItemIdentity
    → Dict String RealtimeItemIdentity
insert_item a [] = a ∷ []
insert_item a (b ∷ items) =
    let rest = insert_item a items in if is_before a.0 b.0 then a ∷ b ∷ items else b ∷ rest

unfoldable pub sorted_items : Dict String RealtimeItemIdentity → Dict String RealtimeItemIdentity
unfolding insert_item
sorted_items [] = []
sorted_items (a ∷ items) = insert_item a (sorted_items items)

abbrev pub role_text : Role → String
role_text user = "user"
role_text assistant = "assistant"
role_text system = "system"

-- asdict(item)
abbrev pub item_value : RealtimeItemIdentity → ItemValue
item_value item = record {
  has_keys = true;
  canonical_id = some item.canonical_id;
  role = some (role_text item.role);
  source = some item.source;
  generation = some item.generation;
  is_confirmed = item.confirmed;
  aliases = some (map (λ alias. some alias) item.aliases);
  origin = some item.origin;
}

unfoldable pub kept_items : Dict String RealtimeItemIdentity → List ItemValue
kept_items [] = []
kept_items ((key, item) ∷ items) =
    let rest = kept_items items in
    if key == item.canonical_id && (is_user_role item.role && item.confirmed)
    then item_value item ∷ rest
    else rest

unfoldable pub table_snapshot : RealtimeIdentityTable → List ItemValue
unfolding sorted_items kept_items
table_snapshot t = kept_items (sorted_items t.items)

abbrev pub message_status_text : MessageStatus → String
message_status_text pending = "pending"
message_status_text confirmed = "confirmed"

unfoldable pub message_values : Dict String Message → Dict String MessageValue
message_values [] = []
message_values ((key, message) ∷ messages) =
    (
      key,
      record {
        has_keys = true;
        digest = some message.digest;
        status = some (message_status_text message.status);
        item_id = message.item_id;
      },
    )
    ∷ message_values messages

unfoldable pub session_value : SessionState → SessionValue
unfolding table_snapshot sorted_texts message_values
session_value s = record {
  has_keys = true;
  generation = some s.table.generation;
  identities = some (table_snapshot s.table);
  tool_calls = some (map (λ id. some id) (sorted_texts s.tool_calls));
  completed_inputs = some (map (λ id. some id) (sorted_texts s.completed_inputs));
  messages = some (message_values s.messages);
}

unfoldable pub session_values : RecoveryState → Dict String SessionValue
unfolding session_value
session_values [] = []
session_values ((key, s) ∷ st) = (key, session_value s) ∷ session_values st

unfoldable pub snapshot : RecoveryState → SnapshotValue
unfolding session_values
snapshot st = record {
  has_keys = true;
  schema_version = some 1;
  sessions = some (session_values st);
}
