-- ===== src/Session/Conversation.antt =====
-- The invariant of what a session knows about the responses, items and contents of the conversation,
-- and that each single change of `_apply` keeps it.
pub mod Live
pub mod Preserve
pub mod Unchanged
pub mod Steps
pub mod Whole
use simple_harness_service_s.Events.{ItemId, CallItemId, ContentId}
use simple_harness_service_s.Session.State.{Conversation, no_conversation}
use simple_harness_service_s.Session.Apply.{live_responses}
use simple_harness_service_s.Common.{
  ◌≡◌, ◌≤◌, refl, Bool, true, false, ◌&&◌, not, List, [], String, string_eq, nat_eq, pair_eq,
  contains, length, arith,
}

-- A response that neither ended nor was cancelled.
pub record IsActive (v : Conversation) (r : String) : Type 0 where
  pub known : contains v.responses r ≡ true
  pub unfinished : contains v.terminal_responses r ≡ false
  pub uncancelled : contains v.cancelled_responses r ≡ false

pub record IsOrdered (v : Conversation) : Type 0 where
  pub ended_known :
      (r : String) → contains v.terminal_responses r ≡ true → contains v.responses r ≡ true
  pub order_known :
      (r : String) → contains v.response_order r ≡ true → contains v.responses r ≡ true
  pub cancelled_known :
      (r : String) → contains v.cancelled_responses r ≡ true → contains v.responses r ≡ true
  pub item_known : (i : ItemId) → contains v.items i ≡ true → contains v.responses i.0 ≡ true
  pub call_known :
      (k : CallItemId)
      → contains v.function_call_items k ≡ true
      → contains v.items (k.0, k.1.0) ≡ true
  pub content_known :
      (k : ContentId) → contains v.contents k ≡ true → contains v.items (k.0, k.1.0) ≡ true
  pub content_done :
      (k : ContentId) → contains v.completed_contents k ≡ true → contains v.contents k ≡ true
  pub item_done : (i : ItemId) → contains v.completed_items i ≡ true → contains v.items i ≡ true
  pub one_active : (r q : String) → IsActive v r → IsActive v q → r ≡ q
  pub two_live : length (live_responses v.terminal_responses v.responses) ≤ 2

pub no_conversation-IsOrdered : IsOrdered no_conversation
unfolding contains live_responses
no_conversation-IsOrdered = record {
  ended_known = λ r h. h;
  order_known = λ r h. h;
  cancelled_known = λ r h. h;
  item_known = λ i h. ground arith;
  call_known = λ k h. ground arith;
  content_known = λ k h. ground arith;
  content_done = λ k h. h;
  item_done = λ i h. h;
  one_active = λ r q a b. ground (arith, a.known);
  two_live = omega arith;
}
