-- ===== src/Session/Batch.antt =====
-- The loop of `_apply` over the domain events of one decoded provider event (realtime/session.py).

use simple_harness_service_s.Identity.{RealtimeItemIdentity, lookup}
use simple_harness_service_s.Events.{
  RealtimeEvent, transcript_completed, output_text, output_audio_started, output_audio,
  output_audio_completed, tool_call_requested, response_finished, session_failed, provider,
  ContentId, ToolCallRequested, ToolCallIdentity, ToolCallState, ResponseFinished, ResponseStatus,
}
use simple_harness_service_s.Session.State.{Config, Session, Conversation, ToolRecord}
use simple_harness_service_s.Session.Queue.{emit_terminal_safe}
use simple_harness_service_s.Session.Terminal.{finish_terminal, disposition_of}
use simple_harness_service_s.Session.Flow.{go, halt, Step, ◌>>◌, skip, modify, reject, emit_or_fail}
use simple_harness_service_s.Common.{
  ◌+◌, Bool, true, false, ◌&&◌, ◌||◌, not, Option, none, some, List, [], ◌∷◌, ◌++◌, String,
  string_eq, nat_eq, pair_eq, ◌==◌, if◌then◌else◌, contains, add, get, put, is_some, length,
}

abbrev pub count_duplicate : Session → Session
count_duplicate s = record s { duplicate_event_count = s.duplicate_event_count + 1 }

abbrev pub count_late : Session → Session
count_late s = record s { late_event_count = s.late_event_count + 1 }

-- source in {"speech_started", "committed", "transcript"}
abbrev pub is_input_source : String → Bool
is_input_source source =
    source == "speech_started" || (source == "committed" || source == "transcript")

-- The mark of the first transcript of a user in this generation.
unfoldable pub mark_first_transcript : Config → Option RealtimeItemIdentity → Session → Session
mark_first_transcript c none s = s
mark_first_transcript c (some item) s =
    if not s.first_user_transcript
      && ((is_input_source item.source || item.source == "input_audio_item")
          && item.generation == c.generation)
    then record s { first_user_transcript = true }
    else s

unfoldable pub is_completed_input : Option RealtimeItemIdentity → String → Session → Bool
is_completed_input none turn_id s = false
is_completed_input (some item) turn_id s =
    is_input_source item.source && contains s.completed_inputs turn_id

unfoldable pub remember_input : Option RealtimeItemIdentity → String → Session → Session
remember_input none turn_id s = s
remember_input (some item) turn_id s =
    if is_input_source item.source
    then record s { completed_inputs = add turn_id s.completed_inputs }
    else s

-- TranscriptCompleted
unfoldable pub deliver_transcript : Config → String → String → Step
unfolding is_completed_input remember_input mark_first_transcript
deliver_transcript c turn_id text s =
    let identity = lookup s.identity_table turn_id in
    if is_completed_input identity turn_id s
    then (count_duplicate s, go)
    else emit_or_fail c (transcript_completed turn_id text)
        (mark_first_transcript c identity (remember_input identity turn_id s))

-- The tests on a tool call before it is known to be new.
unfoldable pub valid_call : Config → ToolCallIdentity → ToolCallRequested → Conversation → Bool
valid_call c identity call v =
    identity.response_id == call.response_id
    && (identity.call_id == call.call_id
        && (contains v.responses identity.response_id
            && (not (contains v.terminal_responses identity.response_id)
                && (contains v.function_call_items
                      (identity.response_id, (identity.item_id, identity.output_index))
                    && (call.generation == 0 || call.generation == c.generation)))))

abbrev pub new_record : ToolRecord
new_record = record { state = ToolCallState.requested; output = none; ack = none; attempt = none }

unfoldable pub admit_call : Config → ToolCallRequested → Session → Session
admit_call c call s = record s {
  tool_book = record s.tool_book {
    tools = put call.call_id new_record s.tool_book.tools;
    seen_tool_calls = add call.call_id s.tool_book.seen_tool_calls;
    dispatched =
        if c.has_dispatcher || c.invalid_tool_arguments call
        then s.tool_book.dispatched ++ (call, c.invalid_tool_arguments call) ∷ []
        else s.tool_book.dispatched;
  };
}

-- ToolCallRequested; its generation is replaced by that of the session
unfoldable pub deliver_call : Config → Option ToolCallIdentity → ToolCallRequested → Step
unfolding valid_call reject
deliver_call c none call s = reject c s
deliver_call c (some identity) call s =
    if not (valid_call c identity call s.conversation)
    then reject c s
    else if is_some (get s.tool_book.tools call.call_id)
    then reject c s
    else if contains s.tool_book.seen_tool_calls call.call_id
    then (count_duplicate s, go)
    else let stamped = record call { generation = c.generation } in
      let s' = admit_call c stamped s in
      if c.invalid_tool_arguments stamped
      then (s', go)
      else emit_or_fail c (tool_call_requested stamped) s'

-- What is done with an output event: passed on, dropped as late, or refused.
pub data Verdict : Type 0 where
  passed late refused : Verdict

unfoldable pub judge_output : ContentId → Conversation → Verdict
judge_output id v =
    if contains v.terminal_responses id.0 || contains v.cancelled_responses id.0
    then late
    else if not (contains v.responses id.0)
    then refused
    else if not (contains v.contents id)
    then refused
    else if contains v.completed_contents id
    then late
    else passed

abbrev pub count_audio : RealtimeEvent → Session → Session
count_audio (output_audio id pcm) s = record s {
  output = record s.output {
    output_frame_count = s.output.output_frame_count + 1;
    output_byte_count = s.output.output_byte_count + length pcm;
  };
}
count_audio event s = s

unfoldable pub deliver_judged : Config → RealtimeEvent → Verdict → Step
unfolding reject
deliver_judged c event late s = (count_late s, go)
deliver_judged c event refused s = reject c s
deliver_judged c event passed s = (emit_or_fail c event >> modify (count_audio event)) s

-- OutputText, OutputAudioStarted, OutputAudio, OutputAudioCompleted
unfoldable pub deliver_output : Config → ContentId → RealtimeEvent → Step
unfolding deliver_judged judge_output
deliver_output c id event s = deliver_judged c event (judge_output id s.conversation) s

abbrev pub is_incomplete : ResponseStatus → Bool
is_incomplete ResponseStatus.incomplete = true
is_incomplete _ = false

-- An incomplete response that was cancelled is reported as cancelled.
unfoldable pub settled_status : ResponseFinished → Conversation → ResponseFinished
settled_status e v =
    if is_incomplete e.status && contains v.cancelled_responses e.response_id
    then record e { status = ResponseStatus.cancelled }
    else e

abbrev pub end_response : String → Session → Session
end_response r s = record s {
  conversation = record s.conversation {
    terminal_responses = add r s.conversation.terminal_responses;
  };
}

-- ResponseFinished; `terminal_batch` is whether the batch holds a SessionFailed
unfoldable pub deliver_finish : Config → Bool → ResponseFinished → Step
unfolding settled_status reject
deliver_finish c terminal_batch e s =
    if not (contains s.conversation.responses e.response_id)
    then reject c s
    else if contains s.conversation.terminal_responses e.response_id
    then (count_duplicate s, go)
    else let event = response_finished (settled_status e s.conversation) in
      let s' = end_response e.response_id s in
      if terminal_batch then (emit_terminal_safe c event s', go) else emit_or_fail c event s'

unfoldable pub deliver : Config → Bool → Option ToolCallIdentity → RealtimeEvent → Step
deliver c batch identity (transcript_completed turn_id text) = deliver_transcript c turn_id text
deliver c batch identity (tool_call_requested call) = deliver_call c identity call
deliver c batch identity (output_text id text delta) =
    deliver_output c id (output_text id text delta)
deliver c batch identity (output_audio_started id) = deliver_output c id (output_audio_started id)
deliver c batch identity (output_audio id pcm) = deliver_output c id (output_audio id pcm)
deliver c batch identity (output_audio_completed id) =
    deliver_output c id (output_audio_completed id)
deliver c batch identity (response_finished e) = deliver_finish c batch e
deliver c batch identity (session_failed e) = λ s.
    (finish_terminal c (session_failed e) provider (disposition_of e.is_retryable) s, halt false)
deliver c batch identity event = emit_or_fail c event

-- for event in decoded.events
unfoldable pub deliver_all : Config → Bool → Option ToolCallIdentity → List RealtimeEvent → Step
deliver_all c batch identity [] = skip
deliver_all c batch identity (event ∷ rest) =
    deliver c batch identity event >> deliver_all c batch identity rest
