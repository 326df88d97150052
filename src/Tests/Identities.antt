-- ===== src/Tests/Identities.antt =====
-- The identity table and the recovery state, on small inputs.
use simple_harness_service_s.Text.{is_space, is_blank, check_identity}
use simple_harness_service_s.Identity.{
  user, RealtimeItemIdentity, RealtimeIdentityTable, Registration, empty, lookup, begin_generation,
  from_keys, check_links, put_all, merged_item, link, register,
}
use simple_harness_service_s.Identity.Invariant.{
  IsConsistent, kept, empty-IsConsistent, lookup-begin_generation, begin_generation-IsConsistent,
}
use simple_harness_service_s.Identity.Register.{Keeps, register-IsConsistent, register-Keeps}
use simple_harness_service_s.Recovery.{
  session_of, with_session, begin_in, begin_session, claim_in, claim_message, confirm_message,
}
use simple_harness_service_s.Recovery.Messages.{begin_session-later, claim-confirm}
use simple_harness_service_s.Common.{
  ◌≤◌, ◌<◌, ◌≡◌, refl, true, none, some, [], ◌∷◌, String, contains, get, put, ok,
}

abbrev turn : Registration
turn = record {
  item_id = "a";
  role = user;
  source = "committed";
  confirmed = true;
  aliases = "b" ∷ [];
  origin = none;
}

abbrev turn_item : RealtimeItemIdentity
turn_item = record {
  canonical_id = "a";
  role = user;
  source = "committed";
  generation = 0;
  confirmed = true;
  aliases = "a" ∷ "b" ∷ [];
  origin = some "committed";
}

abbrev turn_table : RealtimeIdentityTable
turn_table = record { generation = 0; items = ("a", turn_item) ∷ ("b", turn_item) ∷ [] }

turn_registered : register empty turn ≡ ok (turn_item, turn_table)
unfolding register link check_links put_all merged_item from_keys check_identity is_blank is_space
    get put contains
turn_registered = refl

turn_table-IsConsistent : IsConsistent turn_table
turn_table-IsConsistent =
    register-IsConsistent empty turn turn_item turn_table empty-IsConsistent turn_registered

register-IsConsistent_example : IsConsistent turn_table
register-IsConsistent_example =
    register-IsConsistent empty turn turn_item turn_table empty-IsConsistent turn_registered

register-Keeps_example :
    (lookup turn_table "a" ≡ some turn_item)
    × ((k : String) (old : RealtimeItemIdentity)
        → lookup empty k ≡ some old
        → (new : RealtimeItemIdentity) × (lookup turn_table k ≡ some new) × Keeps old new)
register-Keeps_example =
    register-Keeps empty turn turn_item turn_table empty-IsConsistent turn_registered

lookup-begin_generation_example :
    lookup (begin_generation 1 turn_table) "b" ≡ kept (lookup turn_table "b")
lookup-begin_generation_example = lookup-begin_generation 1 turn_table "b" turn_table-IsConsistent

begin_generation-IsConsistent_example : IsConsistent (begin_generation 1 turn_table)
begin_generation-IsConsistent_example =
    begin_generation-IsConsistent 1 turn_table turn_table-IsConsistent

-- The session starts in generation 5, at the least, and a message is claimed in it.
begin_session-later_example :
    (0 < 5) × (5 ≤ 5) × ((session_of "s" (begin_session "s" 5 []).0).table.generation ≡ 5)
unfolding begin_session with_session begin_in begin_generation session_of check_identity is_blank
    is_space get
begin_session-later_example = begin_session-later "s" 5 [] 5 refl

claim-confirm_example :
    (claim_message "s" "k" "d"
      (confirm_message "s" "k" "item" (claim_message "s" "k" "d" []).0).0).1
    ≡ ok (some "item")
unfolding claim_message claim_in with_session session_of check_identity is_blank is_space get
claim-confirm_example = claim-confirm "s" "k" "d" "item" [] refl
