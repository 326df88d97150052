-- ===== src/Session/Ending/Batches.antt =====
-- The steps of `_apply` up to its domain events, and the number of terminal events queued.

use simple_harness_service_s.Events.{
  RealtimeEvent, ContentId, ItemId, ItemDetail, ToolAck, DecodedProviderEvent,
}
use simple_harness_service_s.Session.State.{Config, Session, ToolRecord, resolved}
use simple_harness_service_s.Session.Flow.{Step, reject}
use simple_harness_service_s.Session.Rules.{Triple}
use simple_harness_service_s.Session.Apply.{
  check_current, apply_rejection, apply_context_ack, stop_acknowledged, apply_response,
  apply_item_detail, apply_content, apply_tool_ack, acknowledge, start_followup, check_completed,
  apply_completed, settle, same_text, may_complete_content, may_complete_item, introduce,
  may_introduce,
}
use simple_harness_service_s.Session.Ending.{IsEnding}
use simple_harness_service_s.Session.Ending.Emit.{reject-IsEnding}
use simple_harness_service_s.Common.{
  is_none, ◌==◌, Option-cases, ◌≡◌, refl, Bool, true, false, ◌&&◌, not, Option, none, some, List,
  [], ◌∷◌, String, string_eq, nat_eq, pair_eq, if◌then◌else◌, get, contains, is_some, arith, ◌⊎◌,
  inl, inr, Bool-cases,
}

-- Neither the queue nor the terminal changed.
pub record Same (s s' : Session) : Type 0 where
  pub output : s'.output ≡ s.output
  pub terminal : s'.terminal ≡ s.terminal

pub Same-IsEnding :
    (taken : List RealtimeEvent) (s s' : Session) → Same s s' → IsEnding taken s → IsEnding taken s'
Same-IsEnding taken s s' e r = record {
  log = rw (e.output, e.terminal) r.log;
  owned = rw e.terminal r.owned;
  started = rw e.terminal r.started;
}

-- A step that rejects the batch, or touches neither the queue nor the terminal.
unfoldable pub Calm : Config → Step → Type 0
Calm c m = (s : Session) → (m s ≡ reject c s) ⊎ Same s (m s).0

pub Triple-of_Calm :
    (taken : List RealtimeEvent) (c : Config) (m : Step)
    → Calm c m
    → Triple (IsEnding taken) (IsEnding taken) (IsEnding taken) m
unfolding Calm reject
Triple-of_Calm taken c m calm = record {
  always = λ s r. elim (calm s) [
    | inl rejected ↦ rw rejected (reject-IsEnding taken c s r)
    | inr same ↦ (Same-IsEnding taken s _ same r)
  ];
  onward = λ s r h. elim (calm s) [
    | inl rejected ↦ absurd (cc)
    | inr same ↦ Same-IsEnding taken s _ same r
  ];
}

pub Calm-check_current : (c : Config) → Calm c (check_current c)
unfolding Calm check_current
Calm-check_current c s = inr (record { output = ground arith; terminal = ground arith })

Same-refl : (s : Session) → Same s s
Same-refl s = record { output = refl; terminal = refl }

Same-if : (b : Bool) (s t u : Session) → Same s t → Same s u → Same s (if b then t else u)
Same-if true s t u p q = p
Same-if false s t u p q = q

pub Calm-apply_rejection : (c : Config) (id : Option String) → Calm c (apply_rejection id)
unfolding Calm apply_rejection
Calm-apply_rejection c none s = inr (Same-refl s)
Calm-apply_rejection c (some id) s = elim (Option-cases (get s.context_pending id)) [
  | inl missing ↦ rw (missing, apply_rejection) (inr (Same-refl s))
  | inr (p, there) ↦
      rw (there, apply_rejection)
        (inr (Same-if _ s _ _ (record { output = refl; terminal = refl }) (Same-refl s)))
]

pub Calm-apply_context_ack :
    (c : Config) (d : DecodedProviderEvent) (id : Option String) → Calm c (apply_context_ack d id)
unfolding Calm apply_context_ack
Calm-apply_context_ack c d none s = inr (Same-refl s)
Calm-apply_context_ack c d (some id) s = elim (Option-cases (get s.context_pending id)) [
  | inl missing ↦ rw (missing, apply_context_ack) (inr (Same-refl s))
  | inr (p, there) ↦
      rw (there, apply_context_ack)
        (inr (
          Same-if _ s _ _
            (settled (
              Same-if
                (is_some d.context_ack_id
                  && (not d.session_acknowledged && is_none d.introduced_response_id))
                s (record s { context_ack_id = d.context_ack_id }) s
                (record { output = refl; terminal = refl }) (Same-refl s)))
            (Same-refl s)))
]
  where
    settled : {t : Session} → Same s t → Same s (settle id resolved t)
    settled e = record { output = e.output; terminal = e.terminal }

pub Calm-stop_acknowledged : (c : Config) (d : DecodedProviderEvent) → Calm c (stop_acknowledged d)
unfolding Calm stop_acknowledged
Calm-stop_acknowledged c d s = inr (record { output = ground arith; terminal = ground arith })

pub calm-start_followup : (calls : List String) (s : Session) → Same s (start_followup calls s).0
unfolding start_followup
calm-start_followup [] s = record { output = refl; terminal = refl }
calm-start_followup (call ∷ calls) s = record { output = ground arith; terminal = ground arith }

pub Calm-apply_response : (c : Config) (r : Option String) → Calm c (apply_response c r)
unfolding Calm apply_response
Calm-apply_response c none s = inr (record { output = refl; terminal = refl })
Calm-apply_response c (some r) s = elim (Bool-cases (may_introduce r s.conversation)) [
  | inl may ↦ rw may (
      inr (record {
        output = (calm-start_followup s.tool_book.followup_waiting (introduce r s)).output;
        terminal = (calm-start_followup s.tool_book.followup_waiting (introduce r s)).terminal;
      }))
  | inr never ↦ rw never (inl refl)
]

pub calm-apply_item_detail :
    (c : Config) (i : ItemId) (detail : Option ItemDetail) (s : Session)
    → (apply_item_detail c i detail s ≡ reject c s) ⊎ Same s (apply_item_detail c i detail s).0
unfolding apply_item_detail
calm-apply_item_detail c i none s = inl refl
calm-apply_item_detail c i (some detail) s =
    elim (Bool-cases ((detail.response_id, detail.item_id) == i)) [
      | inr differs ↦ rw differs (inl refl)
      | inl same ↦ rw same (elim (Bool-cases (detail.item_type == "function_call")) [
        | inl call ↦ rw call (inr (record { output = refl; terminal = refl }))
        | inr plain ↦ rw plain (inr (Same-refl s))
      ])
    ]

pub Calm-apply_content : (c : Config) (k : Option ContentId) → Calm c (apply_content c k)
unfolding Calm apply_content
Calm-apply_content c none s = inr (Same-refl s)
Calm-apply_content c (some k) s = elim (Bool-cases (contains s.conversation.items (k.0, k.1.0))) [
  | inr unknown ↦ rw unknown (inl refl)
  | inl known ↦ rw known (elim (Bool-cases (contains s.conversation.contents k)) [
    | inl old ↦ rw old (inl refl)
    | inr new ↦ rw new (inr (record { output = refl; terminal = refl }))
  ])
]

pub calm-acknowledge :
    (call : String) (entry : ToolRecord) (s : Session) → Same s (acknowledge call entry s).0
unfolding acknowledge
calm-acknowledge call entry s = record { output = ground arith; terminal = ground arith }

pub Calm-apply_tool_ack : (c : Config) (ack : Option ToolAck) → Calm c (apply_tool_ack c ack)
unfolding Calm apply_tool_ack
Calm-apply_tool_ack c none s = inr (Same-refl s)
Calm-apply_tool_ack c (some ack) s = elim (Option-cases (get s.tool_book.tools ack.call_id)) [
  | inl unknown ↦ rw (unknown, apply_tool_ack) (inl refl)
  | inr (entry, known) ↦
      rw (known, apply_tool_ack)
        (elim (Bool-cases (
          same_text entry.output ack.output
          && (ack.item_type == "function_call_output" && ack.status == "completed"))) [
            | inl fits ↦ rw fits (inr (calm-acknowledge ack.call_id entry s))
            | inr differs ↦ rw differs (inl refl)
          ])
]

pub Calm-check_completed : (c : Config) (d : DecodedProviderEvent) → Calm c (check_completed c d)
unfolding Calm check_completed
Calm-check_completed c d s =
    elim (Bool-cases (
      may_complete_content d.completed_content s.conversation
      && may_complete_item d.completed_item s.conversation)) [
        | inl may ↦ rw may (inr (Same-refl s))
        | inr never ↦ rw never (inl refl)
      ]

pub Calm-apply_completed : (c : Config) (d : DecodedProviderEvent) → Calm c (apply_completed d)
unfolding Calm apply_completed
Calm-apply_completed c d s = inr (record { output = refl; terminal = refl })
