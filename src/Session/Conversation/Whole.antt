-- ===== src/Session/Conversation/Whole.antt =====
-- `_apply` as a whole keeps the invariant of the conversation.
use simple_harness_service_s.Events.{
  RealtimeEvent, transcript_completed, output_text, output_audio_started, output_audio,
  output_audio_completed, tool_call_requested, response_finished, session_failed, ItemId, ContentId,
  ToolCallIdentity, ResponseFinished, DecodedProviderEvent,
}
use simple_harness_service_s.Session.State.{Config, Session, Conversation}
use simple_harness_service_s.Session.Queue.{emit_terminal_safe}
use simple_harness_service_s.Session.Flow.{go, Step}
use simple_harness_service_s.Session.Rules.{Triple, Triple->>, Triple-of_keeps}
use simple_harness_service_s.Session.Batch.{
  deliver_finish, deliver, deliver_all, settled_status, end_response,
}
use simple_harness_service_s.Session.Apply.{
  check_completed, apply_completed, apply_introductions, apply, may_complete_item,
  may_complete_content, or_id, holds_failure,
}
use simple_harness_service_s.Session.Conversation.{IsOrdered}
use simple_harness_service_s.Session.Conversation.Preserve.{completed-IsOrdered}
use simple_harness_service_s.Session.Conversation.Unchanged.{
  conversation-finish_terminal, conversation-emit_or_fail, conversation-reject,
  conversation-check_current, conversation-apply_rejection, conversation-apply_context_ack,
  conversation-apply_ready, conversation-stop_acknowledged, conversation-apply_tool_ack,
  conversation-check_completed, conversation-deliver_transcript, conversation-deliver_call,
  conversation-deliver_output,
}
use simple_harness_service_s.Session.Conversation.Steps.{
  Ordered, Ordered-of_same, apply_response-Ordered, apply_item-Ordered, apply_content-Ordered,
  deliver_finish-Ordered,
}
use simple_harness_service_s.Common.{
  ◌≡◌, sym, subst, Bool, true, ◌&&◌, Option, none, some, List, [], ◌∷◌, string_eq, nat_eq, pair_eq,
  contains, arith,
}

-- The invariant, and that what the batch completes was introduced.
pub record IsPrepared (d : DecodedProviderEvent) (s : Session) : Type 0 where
  pub ordered : IsOrdered s.conversation
  pub item_known : (j : ItemId) → d.completed_item ≡ some j → contains s.conversation.items j ≡ true
  pub content_known :
      (j : ContentId) → d.completed_content ≡ some j → contains s.conversation.contents j ≡ true

records-deliver_finish :
    (c : Config) (batch : Bool) (e : ResponseFinished) (s : Session)
    → ((deliver_finish c batch e s).0.conversation.items ≡ s.conversation.items)
      × ((deliver_finish c batch e s).0.conversation.contents ≡ s.conversation.contents)
unfolding deliver_finish emit_terminal_safe
records-deliver_finish c batch e s =
    let event = response_finished (settled_status e s.conversation) in
    let ended = end_response e.response_id s in
    (
      ground (arith, conversation-reject c s, conversation-emit_or_fail c event ended),
      ground (arith, conversation-reject c s, conversation-emit_or_fail c event ended),
    )

IsPrepared-of_same :
    (d : DecodedProviderEvent) (s s' : Session)
    → s'.conversation ≡ s.conversation
    → IsPrepared d s
    → IsPrepared d s'
IsPrepared-of_same d s s' e p = record {
  ordered = subst IsOrdered (sym e) p.ordered;
  item_known = λ j h. rw e (p.item_known j h);
  content_known = λ j h. rw e (p.content_known j h);
}

deliver-IsPrepared :
    (d : DecodedProviderEvent) (c : Config) (batch : Bool) (identity : Option ToolCallIdentity)
    (event : RealtimeEvent) (s : Session)
    → IsPrepared d s
    → IsPrepared d (deliver c batch identity event s).0
unfolding deliver
deliver-IsPrepared d c batch identity (response_finished e) s p = record {
  ordered = deliver_finish-Ordered c batch e s p.ordered;
  item_known = λ j h. rw (records-deliver_finish c batch e s).0 (p.item_known j h);
  content_known = λ j h. rw (records-deliver_finish c batch e s).1 (p.content_known j h);
}
deliver-IsPrepared d c batch identity (transcript_completed turn text) s p =
    IsPrepared-of_same d s _ (conversation-deliver_transcript c turn text s) p
deliver-IsPrepared d c batch identity (tool_call_requested call) s p =
    IsPrepared-of_same d s _ (conversation-deliver_call c identity call s) p
deliver-IsPrepared d c batch identity (output_text id text delta) s p =
    IsPrepared-of_same d s _ (conversation-deliver_output c id (output_text id text delta) s) p
deliver-IsPrepared d c batch identity (output_audio_started id) s p =
    IsPrepared-of_same d s _ (conversation-deliver_output c id (output_audio_started id) s) p
deliver-IsPrepared d c batch identity (output_audio id pcm) s p =
    IsPrepared-of_same d s _ (conversation-deliver_output c id (output_audio id pcm) s) p
deliver-IsPrepared d c batch identity (output_audio_completed id) s p =
    IsPrepared-of_same d s _ (conversation-deliver_output c id (output_audio_completed id) s) p
deliver-IsPrepared d c batch identity (session_failed e) s p =
    IsPrepared-of_same d s _ (conversation-finish_terminal c _ _ _ s) p
deliver-IsPrepared d c batch identity event s p =
    IsPrepared-of_same d s _ (conversation-emit_or_fail c event s) p

deliver_all-Triple :
    (d : DecodedProviderEvent) (c : Config) (batch : Bool) (identity : Option ToolCallIdentity)
    (events : List RealtimeEvent)
    → Triple (IsPrepared d) (IsPrepared d) (IsPrepared d) (deliver_all c batch identity events)
unfolding deliver_all
deliver_all-Triple d c batch identity [] = record { always = λ s p. p; onward = λ s p h. p }
deliver_all-Triple d c batch identity (event ∷ rest) =
    Triple->> _ _
      (Triple-of_keeps (deliver c batch identity event)
        (deliver-IsPrepared d c batch identity event))
      (deliver_all-Triple d c batch identity rest)

may_complete_lem :
    (c : Config) (d : DecodedProviderEvent) (s : Session)
    → (check_completed c d s).1 ≡ go
    → (may_complete_content d.completed_content s.conversation
        && may_complete_item d.completed_item s.conversation)
      ≡ true
unfolding check_completed
may_complete_lem c d s h = ground arith

content_of_may :
    (k : Option ContentId) (v : Conversation)
    → may_complete_content k v ≡ true
    → (j : ContentId) → k ≡ some j
    → contains v.contents j ≡ true
content_of_may none v h j e = cc
content_of_may (some k) v h j e = ground arith

item_of_may :
    (k : Option ItemId) (v : Conversation)
    → may_complete_item k v ≡ true
    → (j : ItemId) → k ≡ some j
    → contains v.items j ≡ true
item_of_may none v h j e = cc
item_of_may (some k) v h j e = ground arith

check_completed-Triple :
    (c : Config) (d : DecodedProviderEvent)
    → Triple Ordered (IsPrepared d) Ordered (check_completed c d)
check_completed-Triple c d = record {
  always = λ s o. subst IsOrdered (sym (conversation-check_completed c d s)) o;
  onward = λ s o h.
      let may = may_complete_lem c d s h in
      IsPrepared-of_same d s _ (conversation-check_completed c d s) (record {
        ordered = o;
        item_known = item_of_may d.completed_item s.conversation (ground arith);
        content_known = content_of_may d.completed_content s.conversation (ground arith);
      });
}

apply_completed-Triple :
    (d : DecodedProviderEvent) → Triple (IsPrepared d) Ordered Ordered (apply_completed d)
unfolding apply_completed
apply_completed-Triple d = record {
  always = λ s p.
      completed-IsOrdered d.completed_item d.completed_content s.conversation p.item_known
        p.content_known p.ordered;
  onward = λ s p h. cc;
}

weaken :
    {d : DecodedProviderEvent} (m : Step)
    → Triple (IsPrepared d) (IsPrepared d) (IsPrepared d) m
    → Triple (IsPrepared d) (IsPrepared d) Ordered m
weaken m t = record { always = λ s p. (t.always s p).ordered; onward = t.onward }

apply_introductions-Triple :
    (c : Config) (d : DecodedProviderEvent)
    → Triple Ordered (IsPrepared d) Ordered (apply_introductions c d)
unfolding apply_introductions
apply_introductions-Triple c d =
    Triple->> _ _ (Triple-of_keeps _ (apply_response-Ordered c d.introduced_response_id)) (
      Triple->> _ _
        (Triple-of_keeps _ (apply_item-Ordered c d.introduced_item d.introduced_item_detail))
        (Triple->> _ _ (Triple-of_keeps _ (apply_content-Ordered c d.introduced_content)) (
          Triple->> _ _ (Ordered-of_same _ (conversation-apply_tool_ack c d.tool_ack_identity))
            (check_completed-Triple c d))))

-- Whatever a provider event holds, and however `_apply` ends on it, it keeps the order of the
-- conversation: every item belongs to a known response and every content to a known item, only what
-- was introduced is completed, at most two responses are live, and at most one of them is not
-- cancelled.
pub apply-IsOrdered :
    (c : Config) (d : DecodedProviderEvent) (s : Session)
    → IsOrdered s.conversation
    → IsOrdered (apply c d s).0.conversation
unfolding apply
apply-IsOrdered c d =
    (Triple->> _ _ (Ordered-of_same _ (conversation-check_current c)) (
      Triple->> _ _ (Ordered-of_same _ (conversation-apply_rejection d.rejected_event_id)) (
        Triple->> _ _
          (Ordered-of_same _
            (conversation-apply_context_ack d (or_id d.context_request_id d.context_ack_id)))
          (Triple->> _ _ (Ordered-of_same _ (conversation-apply_ready c d)) (
            Triple->> _ _ (Ordered-of_same _ (conversation-stop_acknowledged d)) (
              Triple->> _ _ (apply_introductions-Triple c d) (
                Triple->> _ _
                  (weaken _
                    (deliver_all-Triple d c (holds_failure d.events) d.tool_call_identity d.events))
                  (apply_completed-Triple d)))))))).always
