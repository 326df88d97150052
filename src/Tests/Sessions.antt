-- ===== src/Tests/Sessions.antt =====
-- A session, on small inputs.

use simple_harness_service_s.Events.{
  speech_started, RealtimeAudioFormat, DecodedProviderEvent, ToolCallState,
}
use simple_harness_service_s.Session.State.{Config, RealtimeLimits, Session, ToolRecord, init}
use simple_harness_service_s.Session.Queue.{event_size, emit, next_event, has_room, enqueue}
use simple_harness_service_s.Session.Terminal.{current_response, last_open}
use simple_harness_service_s.Session.Apply.{
  apply, check_current, apply_rejection, apply_context_ack, or_id, apply_ready, stop_acknowledged,
  apply_introductions, apply_response, apply_item, apply_content, apply_tool_ack, acknowledge,
  all_in, apply_completed, check_completed, holds_failure, live_responses, may_introduce,
  start_followup,
}
use simple_harness_service_s.Session.Batch.{deliver, deliver_all}
use simple_harness_service_s.Session.Flow.{◌>>◌, emit_or_fail, reject, require, resume}
use simple_harness_service_s.Session.Conversation.{IsOrdered, no_conversation-IsOrdered}
use simple_harness_service_s.Session.Conversation.Whole.{apply-IsOrdered}
use simple_harness_service_s.Session.Accounting.{
  total_size, IsWithin, emit-IsWithin, next_event-IsWithin,
}
use simple_harness_service_s.Session.Requests.{
  InputQueue, require_active, admit_audio, settle_audio, cancel_response,
}
use simple_harness_service_s.Session.Requests.Bounds.{
  admit-settle, cancel_response-IsOrdered, Cancels,
}
use simple_harness_service_s.Identity.{empty}
use simple_harness_service_s.Common.{
  ◌≤◌, ◌≡◌, refl, true, false, none, some, [], ◌∷◌, ok, arith, string_eq, contains, get, put, add,
}

abbrev format : RealtimeAudioFormat
format = record { codec = "pcm_s16le"; sample_rate = 16000; channels = 1 }

abbrev limits : RealtimeLimits
limits = record {
  input_audio_event_bytes = 64;
  input_queue_frames = 2;
  input_queue_bytes = 100;
  output_queue_frames = 2;
  output_queue_bytes = 100;
  tool_payload_bytes = 64;
}

abbrev config : Config
config = record {
  generation = 0;
  correlation = "c";
  input_audio = format;
  output_audio = format;
  limits = limits;
  supports_cancel = true;
  supports_tools = false;
  has_dispatcher = false;
  json_size = λ e. 10;
  invalid_tool_arguments = λ c. false;
}

abbrev fresh : Session
fresh = init empty [] []

abbrev ready_session : Session
ready_session = record fresh { ready = true }

-- A provider event that introduces a response.
abbrev introduces : DecodedProviderEvent
introduces = record {
  event_id = "e";
  events = [];
  provider_ready = true;
  session_acknowledged = false;
  introduced_response_id = some "r";
  introduced_item = none;
  introduced_item_detail = none;
  introduced_content = none;
  completed_item = none;
  completed_content = none;
  tool_ack_identity = none;
  tool_call_identity = none;
  tools_acknowledged = false;
  context_ack_id = none;
  rejected_event_id = none;
  context_request_id = none;
}

fresh_IsOrdered : IsOrdered fresh.conversation
unfolding init
fresh_IsOrdered = no_conversation-IsOrdered

apply-IsOrdered_example : IsOrdered (apply config introduces fresh).0.conversation
apply-IsOrdered_example = apply-IsOrdered config introduces fresh fresh_IsOrdered

responding_IsOrdered : IsOrdered (apply config introduces fresh).0.conversation
responding_IsOrdered = apply-IsOrdered config introduces fresh fresh_IsOrdered

fresh_IsWithin : IsWithin config fresh.output
unfolding init total_size
fresh_IsWithin = record {
  counted = record { frames = refl; bytes = refl };
  few = omega arith;
  small = omega arith;
}

emit-IsWithin_example : IsWithin config (emit config (speech_started "t") fresh).0.output
emit-IsWithin_example = emit-IsWithin config (speech_started "t") fresh fresh_IsWithin

one_queued_IsWithin : IsWithin config (emit config (speech_started "t") fresh).0.output
one_queued_IsWithin = emit-IsWithin config (speech_started "t") fresh fresh_IsWithin

next_event-IsWithin_example :
    IsWithin config (next_event config (emit config (speech_started "t") fresh).0).0.output
next_event-IsWithin_example =
    next_event-IsWithin config (emit config (speech_started "t") fresh).0 one_queued_IsWithin

abbrev no_input : InputQueue
no_input = record {
  input_pending_frames = 0;
  input_pending_bytes = 0;
  input_frame_count = 0;
  input_byte_count = 0;
}

abbrev one_input : InputQueue
one_input = record no_input { input_pending_frames = 1; input_pending_bytes = 2 }

admitted : admit_audio config (1 ∷ 2 ∷ []) ready_session no_input ≡ ok one_input
unfolding admit_audio require_active init
admitted = refl

admit-settle_example :
    (1 ≤ 2)
    × (2 ≤ 100)
    × ((settle_audio true (1 ∷ 2 ∷ []) one_input).input_pending_frames ≡ 0)
    × ((settle_audio true (1 ∷ 2 ∷ []) one_input).input_pending_bytes ≡ 0)
admit-settle_example =
    admit-settle config (1 ∷ 2 ∷ []) ready_session no_input one_input true admitted

-- The session that `introduces` leaves, with the response still open.
abbrev responding : Session
responding = (apply config introduces fresh).0

abbrev after_cancel : Session
after_cancel = record responding {
  conversation = record responding.conversation { cancelled_responses = "r" ∷ [] };
}

response_cancelled : cancel_response config responding ≡ ok (after_cancel, some "r")
unfolding cancel_response require_active init apply check_current apply_rejection apply_context_ack
    or_id apply_ready stop_acknowledged apply_introductions apply_response apply_item apply_content
    apply_tool_ack acknowledge all_in apply_completed check_completed holds_failure live_responses
    may_introduce start_followup deliver deliver_all ◌>>◌ emit_or_fail reject require resume emit
    event_size has_room enqueue current_response last_open contains get put add
response_cancelled = refl

cancel_response-IsOrdered_example :
    IsOrdered after_cancel.conversation × Cancels responding after_cancel (some "r")
cancel_response-IsOrdered_example =
    cancel_response-IsOrdered config responding after_cancel (some "r") responding_IsOrdered
      response_cancelled

abbrev tool_config : Config
tool_config = record config { supports_tools = true }

abbrev requested_call : ToolRecord
requested_call = record {
  state = ToolCallState.requested;
  output = none;
  ack = none;
  attempt = none;
}

abbrev calling : Session
calling = record fresh {
  tool_book = record {
    tools = ("call", requested_call) ∷ [];
    followup_waiting = [];
    seen_tool_calls = "call" ∷ [];
    dispatched = [];
  };
}

-- A first submission, whose attempt has not run yet, and a second one, with another output
abbrev submitted_call : ToolRecord
submitted_call = record requested_call {
  attempt = some (record { output = "42"; is_done = false });
}

abbrev calling_again : Session
calling_again = record calling {
  tool_book = record calling.tool_book { tools = ("call", submitted_call) ∷ [] };
}
