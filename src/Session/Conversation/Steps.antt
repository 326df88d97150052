-- ===== src/Session/Conversation/Steps.antt =====
-- `_apply` keeps the invariant of the conversation: stage by stage, and as a whole.
use simple_harness_service_s.Events.{
  RealtimeEvent, response_finished, ItemId, ItemDetail, ContentId, ResponseFinished,
}
use simple_harness_service_s.Session.State.{Config, Session}
use simple_harness_service_s.Session.Queue.{emit_terminal_safe}
use simple_harness_service_s.Session.Flow.{go, Step, reject, emit_or_fail}
use simple_harness_service_s.Session.Rules.{Triple, Triple-of_keeps}
use simple_harness_service_s.Session.Batch.{deliver_finish, settled_status, end_response}
use simple_harness_service_s.Session.Apply.{
  apply_response, apply_item, apply_item_detail, apply_content, may_introduce, introduce, add_item,
  start_followup,
}
use simple_harness_service_s.Session.Conversation.{IsOrdered}
use simple_harness_service_s.Session.Conversation.Preserve.{
  with_response-IsOrdered, with_ended, with_ended-IsOrdered, with_item-IsOrdered,
  with_call_item-IsOrdered, with_content-IsOrdered,
}
use simple_harness_service_s.Session.Conversation.Unchanged.{
  conversation-emit_or_fail, conversation-reject, conversation-start_followup,
}
use simple_harness_service_s.Common.{
  ◌≡◌, sym, subst, ◌∙◌, Bool, true, Option, none, some, List, String, string_eq, nat_eq, pair_eq,
  ◌==◌, contains, inl, inr, Bool-cases, if◌then◌else◌, eq_of_beq, contains-add, beq_refl,
}

abbrev pub Ordered : Session → Type 0
Ordered s = IsOrdered s.conversation

-- A step that leaves the conversation alone.
pub Ordered-of_same :
    (m : Step)
    → ((s : Session) → (m s).0.conversation ≡ s.conversation)
    → Triple Ordered Ordered Ordered m
Ordered-of_same m same = Triple-of_keeps m (λ s o. subst IsOrdered (sym (same s)) o)

-- `reject`, and what goes on from a changed conversation.
reject-Ordered : (c : Config) (s : Session) → Ordered s → Ordered (reject c s).0
reject-Ordered c s o = subst IsOrdered (sym (conversation-reject c s)) o

followup-Ordered :
    (calls : List String) (s : Session) → Ordered s → Ordered (start_followup calls s).0
followup-Ordered calls s o = subst IsOrdered (sym (conversation-start_followup calls s)) o

pub apply_response-Ordered :
    (c : Config) (r : Option String) (s : Session) → Ordered s → Ordered (apply_response c r s).0
unfolding apply_response
apply_response-Ordered c none s o = o
apply_response-Ordered c (some r) s o = elim (Bool-cases (may_introduce r s.conversation)) [
  | inl may ↦ rw may (
      followup-Ordered s.tool_book.followup_waiting (introduce r s)
        (with_response-IsOrdered r s.conversation may o))
  | inr not_now ↦ rw not_now (reject-Ordered c s o)
]

apply_item_detail-Ordered :
    (c : Config) (i : ItemId) (detail : Option ItemDetail) (s : Session)
    → contains s.conversation.items i ≡ true
    → Ordered s
    → Ordered (apply_item_detail c i detail s).0
unfolding apply_item_detail
apply_item_detail-Ordered c i none s known o = reject-Ordered c s o
apply_item_detail-Ordered c i (some detail) s known o =
    elim (Bool-cases ((detail.response_id, detail.item_id) == i)) [
      | inr differs ↦ rw differs (reject-Ordered c s o)
      | inl same ↦ rw same (elim (Bool-cases (detail.item_type == "function_call")) [
        | inr plain ↦ rw plain o
        | inl call ↦ rw call (
            with_call_item-IsOrdered (detail.response_id, (detail.item_id, detail.output_index))
              s.conversation
              (subst (λ j. contains s.conversation.items j ≡ true)
                (sym (eq_of_beq (detail.response_id, detail.item_id) i same)) known)
              o)
      ])
    ]

pub apply_item-Ordered :
    (c : Config) (i : Option ItemId) (detail : Option ItemDetail) (s : Session)
    → Ordered s
    → Ordered (apply_item c i detail s).0
unfolding apply_item
apply_item-Ordered c none detail s o = o
apply_item-Ordered c (some i) detail s o =
    elim (Bool-cases (contains s.conversation.responses i.0)) [
      | inr unknown ↦ rw unknown (reject-Ordered c s o)
      | inl known ↦ rw known (elim (Bool-cases (contains s.conversation.items i)) [
        | inl old ↦ rw old (reject-Ordered c s o)
        | inr new ↦ rw new (
            apply_item_detail-Ordered c i detail (add_item i s)
              (contains-add i s.conversation.items i ∙ rw (beq_refl i))
              (with_item-IsOrdered i s.conversation known o))
      ])
    ]

pub apply_content-Ordered :
    (c : Config) (k : Option ContentId) (s : Session) → Ordered s → Ordered (apply_content c k s).0
unfolding apply_content
apply_content-Ordered c none s o = o
apply_content-Ordered c (some k) s o =
    elim (Bool-cases (contains s.conversation.items (k.0, k.1.0))) [
      | inr unknown ↦ rw unknown (reject-Ordered c s o)
      | inl known ↦ rw known (elim (Bool-cases (contains s.conversation.contents k)) [
        | inl old ↦ rw old (reject-Ordered c s o)
        | inr new ↦ rw new (with_content-IsOrdered k s.conversation known o)
      ])
    ]

pub deliver_finish-Ordered :
    (c : Config) (batch : Bool) (e : ResponseFinished) (s : Session)
    → Ordered s
    → Ordered (deliver_finish c batch e s).0
unfolding deliver_finish emit_terminal_safe
deliver_finish-Ordered c batch e s o =
    elim (Bool-cases (contains s.conversation.responses e.response_id)) [
      | inr unknown ↦ rw unknown (reject-Ordered c s o)
      | inl known ↦
          rw known (elim (Bool-cases (contains s.conversation.terminal_responses e.response_id)) [
            | inl old ↦ rw old o
            | inr new ↦ rw new (ended known)
          ])
    ]
  where
    event : RealtimeEvent
    event = response_finished (settled_status e s.conversation)

    finished :
        contains s.conversation.responses e.response_id ≡ true
        → IsOrdered (with_ended e.response_id s.conversation)
    finished known = with_ended-IsOrdered e.response_id s.conversation known o

    ended :
        contains s.conversation.responses e.response_id ≡ true
        → Ordered
            (if batch
              then (emit_terminal_safe c event (end_response e.response_id s), go)
              else emit_or_fail c event (end_response e.response_id s)).0
    ended known = elim (Bool-cases batch) [
      | inl b ↦ rw b (finished known)
      | inr b ↦ rw b (
          subst IsOrdered (sym (conversation-emit_or_fail c event (end_response e.response_id s)))
            (finished known))
    ]
