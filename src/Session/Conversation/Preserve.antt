-- ===== src/Session/Conversation/Preserve.antt =====
-- Each change that `_apply` and `cancel_response` make to the conversation keeps the invariant.
use simple_harness_service_s.Events.{ItemId, CallItemId, ContentId}
use simple_harness_service_s.Session.State.{Conversation}
use simple_harness_service_s.Session.Apply.{may_introduce, complete_content, complete_item}
use simple_harness_service_s.Session.Conversation.{IsOrdered, IsActive}
use simple_harness_service_s.Session.Conversation.Live.{
  length-live-add-le, length-live-introduce, may_introduce-MayStart,
}
use simple_harness_service_s.Common.{
  ◌≡◌, refl, true, Option, none, some, [], ◌∷◌, ◌++◌, String, string_eq, nat_eq, pair_eq, contains,
  contains-append, add, contains-add, arith, eq_of_beq,
}

-- The three records of responses decide which response is active.
one_active_of :
    (v w : Conversation)
    → w.responses ≡ v.responses
    → w.terminal_responses ≡ v.terminal_responses
    → w.cancelled_responses ≡ v.cancelled_responses
    → IsOrdered v
    → (p q : String) → IsActive w p
    → IsActive w q
    → p ≡ q
one_active_of v w e f g o p q a b =
    o.one_active p q
      (record {
        known = rw e at a.known;
        unfinished = rw f at a.unfinished;
        uncancelled = rw g at a.uncancelled;
      })
      (record {
        known = rw e at b.known;
        unfinished = rw f at b.unfinished;
        uncancelled = rw g at b.uncancelled;
      })

-- A new response enters the two records of responses.
abbrev pub with_response : String → Conversation → Conversation
with_response r v = record v {
  responses = add r v.responses;
  response_order = v.response_order ++ r ∷ [];
}

pub with_response-IsOrdered :
    (r : String) (v : Conversation)
    → may_introduce r v ≡ true
    → IsOrdered v
    → IsOrdered (with_response r v)
unfolding contains
with_response-IsOrdered r v may o =
    let start = may_introduce-MayStart r v may in
    record {
      ended_known = λ q h. ground (arith, o.ended_known q, contains-add r v.responses q);
      order_known = λ q h. ground (
        arith,
        o.order_known q,
        contains-add r v.responses q,
        contains-append v.response_order (r ∷ []) q,
      );
      cancelled_known = λ q h. ground (arith, o.cancelled_known q, contains-add r v.responses q);
      item_known = λ i h. ground (arith, o.item_known i, contains-add r v.responses i.0);
      call_known = o.call_known;
      content_known = o.content_known;
      content_done = o.content_done;
      item_done = o.item_done;
      one_active = λ p q a b. ground (
        arith,
        a.known,
        a.unfinished,
        a.uncancelled,
        b.known,
        b.unfinished,
        b.uncancelled,
        contains-add r v.responses p,
        contains-add r v.responses q,
        start.others_cancelled p,
        start.others_cancelled q,
        string_eq.beq_iff r p,
        string_eq.beq_iff r q,
      );
      two_live =
          omega
            (arith, length-live-introduce r v.terminal_responses v.responses start.new, start.room);
    }

abbrev pub with_ended : String → Conversation → Conversation
with_ended r v = record v { terminal_responses = add r v.terminal_responses }

pub with_ended-IsOrdered :
    (r : String) (v : Conversation)
    → contains v.responses r ≡ true
    → IsOrdered v
    → IsOrdered (with_ended r v)
with_ended-IsOrdered r v known o = record {
  ended_known = λ q h.
      ground (arith, o.ended_known q, contains-add r v.terminal_responses q, string_eq.beq_iff r q);
  order_known = o.order_known;
  cancelled_known = o.cancelled_known;
  item_known = o.item_known;
  call_known = o.call_known;
  content_known = o.content_known;
  content_done = o.content_done;
  item_done = o.item_done;
  one_active = λ p q a b.
      o.one_active p q
        (record {
          known = a.known;
          unfinished = ground (arith, a.unfinished, contains-add r v.terminal_responses p);
          uncancelled = a.uncancelled;
        })
        (record {
          known = b.known;
          unfinished = ground (arith, b.unfinished, contains-add r v.terminal_responses q);
          uncancelled = b.uncancelled;
        });
  two_live = omega (arith, length-live-add-le r v.terminal_responses v.responses, o.two_live);
}

abbrev pub with_cancelled : String → Conversation → Conversation
with_cancelled r v = record v { cancelled_responses = add r v.cancelled_responses }

pub with_cancelled-IsOrdered :
    (r : String) (v : Conversation)
    → contains v.responses r ≡ true
    → IsOrdered v
    → IsOrdered (with_cancelled r v)
with_cancelled-IsOrdered r v known o = record {
  ended_known = o.ended_known;
  order_known = o.order_known;
  cancelled_known = λ q h.
      ground
        (arith, o.cancelled_known q, contains-add r v.cancelled_responses q, string_eq.beq_iff r q);
  item_known = o.item_known;
  call_known = o.call_known;
  content_known = o.content_known;
  content_done = o.content_done;
  item_done = o.item_done;
  one_active = λ p q a b.
      o.one_active p q
        (record {
          known = a.known;
          unfinished = a.unfinished;
          uncancelled = ground (arith, a.uncancelled, contains-add r v.cancelled_responses p);
        })
        (record {
          known = b.known;
          unfinished = b.unfinished;
          uncancelled = ground (arith, b.uncancelled, contains-add r v.cancelled_responses q);
        });
  two_live = o.two_live;
}

abbrev pub with_item : ItemId → Conversation → Conversation
with_item i v = record v { items = add i v.items }

pub with_item-IsOrdered :
    (i : ItemId) (v : Conversation)
    → contains v.responses i.0 ≡ true
    → IsOrdered v
    → IsOrdered (with_item i v)
with_item-IsOrdered i v known o = record {
  ended_known = o.ended_known;
  order_known = o.order_known;
  cancelled_known = o.cancelled_known;
  item_known = λ j h. member-item j h;
  call_known = λ k h. ground (arith, o.call_known k, contains-add i v.items (k.0, k.1.0));
  content_known = λ k h. ground (arith, o.content_known k, contains-add i v.items (k.0, k.1.0));
  content_done = o.content_done;
  item_done = λ j h. ground (arith, o.item_done j, contains-add i v.items j);
  one_active = one_active_of v (with_item i v) refl refl refl o;
  two_live = o.two_live;
}
  where
    member-item : (j : ItemId) → contains (add i v.items) j ≡ true → contains v.responses j.0 ≡ true
    member-item j h = ground (arith, o.item_known j, contains-add i v.items j, eq_of_beq i j)

abbrev pub with_call_item : CallItemId → Conversation → Conversation
with_call_item k v = record v { function_call_items = add k v.function_call_items }

pub with_call_item-IsOrdered :
    (k : CallItemId) (v : Conversation)
    → contains v.items (k.0, k.1.0) ≡ true
    → IsOrdered v
    → IsOrdered (with_call_item k v)
with_call_item-IsOrdered k v known o = record {
  ended_known = o.ended_known;
  order_known = o.order_known;
  cancelled_known = o.cancelled_known;
  item_known = o.item_known;
  call_known =
      λ j h. ground (arith, o.call_known j, contains-add k v.function_call_items j, eq_of_beq k j);
  content_known = o.content_known;
  content_done = o.content_done;
  item_done = o.item_done;
  one_active = one_active_of v (with_call_item k v) refl refl refl o;
  two_live = o.two_live;
}

abbrev pub with_content : ContentId → Conversation → Conversation
with_content k v = record v { contents = add k v.contents }

pub with_content-IsOrdered :
    (k : ContentId) (v : Conversation)
    → contains v.items (k.0, k.1.0) ≡ true
    → IsOrdered v
    → IsOrdered (with_content k v)
with_content-IsOrdered k v known o = record {
  ended_known = o.ended_known;
  order_known = o.order_known;
  cancelled_known = o.cancelled_known;
  item_known = o.item_known;
  call_known = o.call_known;
  content_known =
      λ j h. ground (arith, o.content_known j, contains-add k v.contents j, eq_of_beq k j);
  content_done = λ j h. ground (arith, o.content_done j, contains-add k v.contents j);
  item_done = o.item_done;
  one_active = one_active_of v (with_content k v) refl refl refl o;
  two_live = o.two_live;
}

completed_item-IsOrdered :
    (i : ItemId) (v : Conversation)
    → contains v.items i ≡ true
    → IsOrdered v
    → IsOrdered (complete_item (some i) v)
completed_item-IsOrdered i v known o = record {
  ended_known = o.ended_known;
  order_known = o.order_known;
  cancelled_known = o.cancelled_known;
  item_known = o.item_known;
  call_known = o.call_known;
  content_known = o.content_known;
  content_done = o.content_done;
  item_done =
      λ j h. ground (arith, o.item_done j, contains-add i v.completed_items j, eq_of_beq i j);
  one_active = one_active_of v (complete_item (some i) v) refl refl refl o;
  two_live = o.two_live;
}

completed_content-IsOrdered :
    (k : ContentId) (v : Conversation)
    → contains v.contents k ≡ true
    → IsOrdered v
    → IsOrdered (complete_content (some k) v)
completed_content-IsOrdered k v known o = record {
  ended_known = o.ended_known;
  order_known = o.order_known;
  cancelled_known = o.cancelled_known;
  item_known = o.item_known;
  call_known = o.call_known;
  content_known = o.content_known;
  content_done =
      λ j h. ground (arith, o.content_done j, contains-add k v.completed_contents j, eq_of_beq k j);
  item_done = o.item_done;
  one_active = one_active_of v (complete_content (some k) v) refl refl refl o;
  two_live = o.two_live;
}

-- What is completed was introduced.
pub completed-IsOrdered :
    (i : Option ItemId) (k : Option ContentId) (v : Conversation)
    → ((j : ItemId) → i ≡ some j → contains v.items j ≡ true)
    → ((j : ContentId) → k ≡ some j → contains v.contents j ≡ true)
    → IsOrdered v
    → IsOrdered (complete_item i (complete_content k v))
completed-IsOrdered none none v hi hk o = o
completed-IsOrdered (some i) none v hi hk o = completed_item-IsOrdered i v (hi i refl) o
completed-IsOrdered none (some k) v hi hk o = completed_content-IsOrdered k v (hk k refl) o
completed-IsOrdered (some i) (some k) v hi hk o =
    completed_item-IsOrdered i (complete_content (some k) v) (hi i refl)
      (completed_content-IsOrdered k v (hk k refl) o)
