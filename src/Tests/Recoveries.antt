-- ===== src/Tests/Recoveries.antt =====
-- A recovery state that is saved and restored.
use simple_harness_service_s.Text.{is_space, is_blank, check_identity}
use simple_harness_service_s.Identity.{
  user, RealtimeItemIdentity, RealtimeIdentityTable, from_keys, check_links, put_all, merged_item,
  link, register,
}
use simple_harness_service_s.Recovery.{RecoveryState, Message, confirmed, pending, session_of}
use simple_harness_service_s.Recovery.Snapshot.{
  identity, identities, check_item, restore_item, restore_items, all_hex, status_of,
  check_registered, check_message, restore_messages, add_all, collections, session_generation,
  fill_session, restore_session, restore_sessions, from_snapshot,
}
use simple_harness_service_s.Recovery.Saved.{
  insert_text, sorted_texts, insert_item, sorted_items, kept_items, table_snapshot, message_values,
  session_value, session_values, snapshot,
}
use simple_harness_service_s.Recovery.RoundTrip.{AllSavable, restore-message_values}
use simple_harness_service_s.Recovery.Restored.{AreRestored, from_snapshot-AreRestored}
use simple_harness_service_s.Common.{
  ◌≡◌, refl, true, some, none, [], ◌∷◌, String, contains, Distinct, string_eq, Dict, add, get, put,
  ok,
}

abbrev digest : String
digest = "0123456789abcdef0123456789abcdef0123456789abcdef0123456789abcdef"

abbrev turn_item : RealtimeItemIdentity
turn_item = record {
  canonical_id = "a";
  role = user;
  source = "committed";
  generation = 1;
  confirmed = true;
  aliases = "a" ∷ "b" ∷ [];
  origin = some "committed";
}

abbrev saved : RecoveryState
saved =
    (
      "s",
      record {
        table = record { generation = 2; items = ("a", turn_item) ∷ ("b", turn_item) ∷ [] };
        tool_calls = "t" ∷ [];
        completed_inputs = [];
        messages = ("k", record { digest = digest; status = confirmed; item_id = some "b" }) ∷ [];
      },
    )
    ∷ []

restored : from_snapshot (snapshot saved) ≡ ok saved
unfolding from_snapshot snapshot session_values session_value restore_sessions restore_session
    collections session_generation fill_session restore_messages check_message check_registered
    status_of all_hex restore_items restore_item check_item identities identity add_all
    table_snapshot sorted_items insert_item kept_items sorted_texts insert_text message_values
    session_of register link check_links put_all merged_item from_keys check_identity is_blank
    is_space get put contains add
restored = refl

one_session : Distinct (session_values saved)
unfolding session_values get
one_session = (refl, tt)

from_snapshot-AreRestored_example : AreRestored saved
unfolding snapshot
from_snapshot-AreRestored_example =
    from_snapshot-AreRestored (snapshot saved) (session_values saved) saved refl one_session
      restored

abbrev turn_table : RealtimeIdentityTable
turn_table = record { generation = 2; items = ("a", turn_item) ∷ ("b", turn_item) ∷ [] }

abbrev messages : Dict String Message
messages =
    ("k", record { digest = digest; status = confirmed; item_id = some "b" })
    ∷ ("j", record { digest = digest; status = pending; item_id = none })
    ∷ []

restore-message_values_example :
    ((out : Dict String Message)
      → restore_messages turn_table (message_values messages) [] ≡ ok out
      → (out ≡ messages) × AllSavable turn_table messages)
    × (AllSavable turn_table messages
        → restore_messages turn_table (message_values messages) [] ≡ ok messages)
unfolding get
restore-message_values_example = restore-message_values turn_table messages (refl, (refl, tt))

-- The messages have what they must have.
messages_savable : AllSavable turn_table messages
unfolding check_identity is_blank is_space get all_hex
messages_savable = (
  record { named = refl; size = refl; digits = refl; registered = refl },
  (record { named = refl; size = refl; digits = refl; registered = refl }, tt),
)
