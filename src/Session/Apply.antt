-- ===== src/Session/Apply.antt =====
-- `_apply` of realtime/session.py: one decoded provider event against the state of the session.
-- Diagnostics are left out: nothing reads them back.
use simple_harness_service_s.Events.{
  RealtimeEvent, session_ready, session_failed, ItemId, ItemDetail, ContentId, ToolAck,
  ToolCallState, DecodedProviderEvent,
}
use simple_harness_service_s.Session.State.{
  Config, Session, Conversation, ToolRecord, Pending, waiting, resolved, rejected,
  is_current_generation,
}
use simple_harness_service_s.Session.Flow.{
  go, halt, thrown, Step, ◌>>◌, reject, require, emit_or_fail,
}
use simple_harness_service_s.Session.Batch.{count_late, count_duplicate, deliver_all}
use simple_harness_service_s.Common.{
  Bool, true, false, ◌&&◌, ◌||◌, not, Option, none, some, List, [], ◌∷◌, ◌++◌, String, string_eq,
  nat_eq, pair_eq, ◌==◌, if◌then◌else◌, contains, add, get, put, is_some, is_none, length, leb,
  unsupported,
}

-- `a or b` on optional ids: the empty text is false, too
unfoldable pub or_id : Option String → Option String → Option String
or_id none b = b
or_id (some a) b = if a == "" then b else some a

unfoldable pub pending_at : Session → Option String → Option Pending
pending_at s none = none
pending_at s (some id) = get s.context_pending id

abbrev pub settle : String → Pending → Session → Session
settle id p s = record s { context_pending = put id p s.context_pending }

abbrev pub is_waiting : Pending → Bool
is_waiting waiting = true
is_waiting _ = false

-- The provider rejected a context event.
unfoldable pub apply_rejection : Option String → Step
unfolding pending_at
apply_rejection none s = (s, go)
apply_rejection (some id) s = elim (get s.context_pending id) [
  | none ↦ (s, go)
  | some p ↦ (if is_waiting p then settle id (rejected unsupported) s else s, halt true)
]

-- A context event was acknowledged.
unfoldable pub apply_context_ack : DecodedProviderEvent → Option String → Step
unfolding pending_at
apply_context_ack d none s = (s, go)
apply_context_ack d (some id) s = elim (get s.context_pending id) [
  | none ↦ (s, go)
  | some p ↦ (
    if is_waiting p
        then settle id resolved (
            if is_some d.context_ack_id
              && (not d.session_acknowledged && is_none d.introduced_response_id)
            then record s { context_ack_id = d.context_ack_id }
            else s)
        else s,
    go,
  )
]

unfoldable pub apply_ready : Config → DecodedProviderEvent → Step
unfolding reject
apply_ready c d s =
    if d.provider_ready && not s.ready
    then emit_or_fail c
        (session_ready (record {
          generation = c.generation;
          correlation = c.correlation;
          input_audio = c.input_audio;
          output_audio = c.output_audio;
          tools_acknowledged = d.tools_acknowledged;
        }))
        (record s { ready = true })
    else if not s.ready && not d.session_acknowledged
    then reject c s
    else (s, go)

-- self._responses - self._terminal_responses
unfoldable pub live_responses : List String → List String → List String
live_responses terminal_responses [] = []
live_responses terminal_responses (r ∷ rs) =
    let rest = live_responses terminal_responses rs in
    if contains terminal_responses r then rest else r ∷ rest

-- live.issubset(cancelled)
unfoldable pub all_in : List String → List String → Bool
all_in set [] = true
all_in set (r ∷ rs) = contains set r && all_in set rs

-- A new response may start: it is new, and what is still live is at most one, cancelled response.
unfoldable pub may_introduce : String → Conversation → Bool
unfolding live_responses all_in
may_introduce r v =
    let live = live_responses v.terminal_responses v.responses in
    not (contains v.responses r || contains v.terminal_responses r)
    && (not (leb 2 (length live)) && all_in v.cancelled_responses live)

abbrev pub introduce : String → Session → Session
introduce r s = record s {
  conversation = record s.conversation {
    responses = add r s.conversation.responses;
    response_order = s.conversation.response_order ++ r ∷ [];
  };
}

-- A new response starts the followup that has waited longest. `self._tools[call_id]` raises KeyError
-- where there is no such call.
unfoldable pub start_followup : List String → Step
start_followup [] s = (s, go)
start_followup (call_id ∷ waiting_calls) s =
    let s' = record s { tool_book = record s.tool_book { followup_waiting = waiting_calls } } in
    elim (get s.tool_book.tools call_id) [
      | none ↦ (s', thrown)
      | some entry ↦ (
        record s' {
          tool_book = record s'.tool_book {
            tools =
                put call_id (record entry { state = ToolCallState.followup_started })
                  s.tool_book.tools;
          };
        },
        go,
      )
    ]

unfoldable pub apply_response : Config → Option String → Step
unfolding may_introduce reject start_followup
apply_response c none s = (s, go)
apply_response c (some r) s =
    if may_introduce r s.conversation
    then start_followup s.tool_book.followup_waiting (introduce r s)
    else reject c s

abbrev pub add_item : ItemId → Session → Session
add_item item s = record s {
  conversation = record s.conversation { items = add item s.conversation.items };
}

unfoldable pub apply_item_detail : Config → ItemId → Option ItemDetail → Step
unfolding reject
apply_item_detail c item none s = reject c s
apply_item_detail c item (some detail) s =
    if not ((detail.response_id, detail.item_id) == item)
    then reject c s
    else if detail.item_type == "function_call"
    then (
      record s {
        conversation = record s.conversation {
          function_call_items =
              add (detail.response_id, (detail.item_id, detail.output_index))
                s.conversation.function_call_items;
        };
      },
      go,
    )
    else (s, go)

unfoldable pub apply_item : Config → Option ItemId → Option ItemDetail → Step
unfolding reject apply_item_detail
apply_item c none detail s = (s, go)
apply_item c (some item) detail s =
    if not (contains s.conversation.responses item.0)
    then reject c s
    else if contains s.conversation.items item
    then reject c s
    else apply_item_detail c item detail (add_item item s)

unfoldable pub apply_content : Config → Option ContentId → Step
unfolding reject
apply_content c none s = (s, go)
apply_content c (some id) s =
    if not (contains s.conversation.items (id.0, id.1.0))
    then reject c s
    else if contains s.conversation.contents id
    then reject c s
    else (
      record s {
        conversation = record s.conversation { contents = add id s.conversation.contents };
      },
      go,
    )

abbrev pub same_text : Option String → String → Bool
same_text none b = false
same_text (some a) b = a == b

abbrev pub put_record : String → ToolRecord → Session → Session
put_record call_id entry s = record s {
  tool_book = record s.tool_book { tools = put call_id entry s.tool_book.tools };
}

abbrev pub is_sent : ToolCallState → Bool
is_sent ToolCallState.result_sent = true
is_sent _ = false

-- A sent result is acknowledged: `record.ack.set()` stands behind an assertion, which raises.
unfoldable pub acknowledge : String → ToolRecord → Step
acknowledge call_id entry s =
    if is_sent entry.state
    then (elim entry.ack [
      | none ↦ (put_record call_id (record entry { state = ToolCallState.result_acked }) s, thrown)
      | some set ↦ (
        put_record call_id (record entry { state = ToolCallState.result_acked; ack = some true }) s,
        go,
      )
    ])
    else (count_duplicate s, go)

unfoldable pub apply_tool_ack : Config → Option ToolAck → Step
unfolding reject acknowledge
apply_tool_ack c none s = (s, go)
apply_tool_ack c (some ack) s = elim (get s.tool_book.tools ack.call_id) [
  | none ↦ reject c s
  | some entry ↦
      if same_text entry.output ack.output
        && (ack.item_type == "function_call_output" && ack.status == "completed")
      then acknowledge ack.call_id entry s
      else reject c s
]

abbrev pub may_complete_content : Option ContentId → Conversation → Bool
may_complete_content none v = true
may_complete_content (some id) v = contains v.contents id && not (contains v.completed_contents id)

abbrev pub may_complete_item : Option ItemId → Conversation → Bool
may_complete_item none v = true
may_complete_item (some item) v = contains v.items item && not (contains v.completed_items item)

abbrev pub complete_content : Option ContentId → Conversation → Conversation
complete_content none v = v
complete_content (some id) v = record v { completed_contents = add id v.completed_contents }

abbrev pub complete_item : Option ItemId → Conversation → Conversation
complete_item none v = v
complete_item (some item) v = record v { completed_items = add item v.completed_items }

unfoldable pub apply_completed : DecodedProviderEvent → Step
apply_completed d s = (
  record s {
    conversation =
        complete_item d.completed_item (complete_content d.completed_content s.conversation);
  },
  halt true,
)

-- isinstance(event, SessionFailed) for some event
unfoldable pub holds_failure : List RealtimeEvent → Bool
holds_failure [] = false
holds_failure (session_failed e ∷ rest) = true
holds_failure (event ∷ rest) = holds_failure rest

unfoldable pub check_current : Config → Step
check_current c s = if is_current_generation c s then (s, go) else (count_late s, halt true)

unfoldable pub stop_acknowledged : DecodedProviderEvent → Step
stop_acknowledged d s = if d.session_acknowledged then (s, halt true) else (s, go)

unfoldable pub check_completed : Config → DecodedProviderEvent → Step
unfolding require
check_completed c d s =
    require c
      (may_complete_content d.completed_content s.conversation
        && may_complete_item d.completed_item s.conversation)
      s

-- What a batch introduces, before its events are delivered.
unfoldable pub apply_introductions : Config → DecodedProviderEvent → Step
apply_introductions c d =
    apply_response c d.introduced_response_id
    >> apply_item c d.introduced_item d.introduced_item_detail
    >> apply_content c d.introduced_content
    >> apply_tool_ack c d.tool_ack_identity
    >> check_completed c d

unfoldable pub apply : Config → DecodedProviderEvent → Step
apply c d =
    check_current c
    >> apply_rejection d.rejected_event_id
    >> apply_context_ack d (or_id d.context_request_id d.context_ack_id)
    >> apply_ready c d
    >> stop_acknowledged d
    >> apply_introductions c d
    >> deliver_all c (holds_failure d.events) d.tool_call_identity d.events
    >> apply_completed d
