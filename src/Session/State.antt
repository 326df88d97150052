-- ===== src/Session/State.antt =====
-- The state of `ManagedRealtimeSession` (realtime/session.py). Its attributes are grouped by what
-- they are about; what a session is built with and never changes is `Config`.
use simple_harness_service_s.Events.{
  RealtimeEvent, CloseInitiator, CloseDisposition, ToolCallState, RealtimeAudioFormat, ItemId,
  CallItemId, ContentId, ToolCallRequested, SessionClosed,
}
use simple_harness_service_s.Identity.{RealtimeIdentityTable}
use simple_harness_service_s.Common.{
  ℕ, Bool, false, ◌&&◌, not, Option, none, List, [], String, Dict, RealtimeErrorCode, ◌==◌, nat_eq,
}

-- The parts of `capability.limits` that the session reads.
pub record RealtimeLimits : Type 0 where
  pub input_audio_event_bytes : ℕ
  pub input_queue_frames : ℕ
  pub input_queue_bytes : ℕ
  pub output_queue_frames : ℕ
  pub output_queue_bytes : ℕ
  pub tool_payload_bytes : ℕ

-- `json_size` is the length of the JSON text of an event that is no audio, and
-- `invalid_tool_arguments` the check of a tool call against the tool's schema.
pub record Config : Type 0 where
  pub generation : ℕ
  pub correlation : String
  pub input_audio : RealtimeAudioFormat
  pub output_audio : RealtimeAudioFormat
  pub limits : RealtimeLimits
  pub supports_cancel : Bool
  pub supports_tools : Bool
  pub has_dispatcher : Bool
  pub json_size : RealtimeEvent → ℕ
  pub invalid_tool_arguments : ToolCallRequested → Bool

-- `_events` and what is counted of it
pub record Output : Type 0 where
  pub events : List RealtimeEvent
  pub queued_output_frames : ℕ
  pub queued_output_bytes : ℕ
  pub output_frame_count : ℕ
  pub output_byte_count : ℕ

pub record Terminal : Type 0 where
  pub terminal_owner : Option (CloseInitiator × CloseDisposition)
  pub terminal_sequence_started : Bool
  pub terminal_published : Bool
  pub shutdown_complete : Bool
  pub terminal_error_code : Option RealtimeErrorCode
  pub closing : Bool

pub record Conversation : Type 0 where
  pub responses : List String
  pub response_order : List String
  pub terminal_responses : List String
  pub cancelled_responses : List String
  pub items : List ItemId
  pub function_call_items : List CallItemId
  pub completed_items : List ItemId
  pub contents : List ContentId
  pub completed_contents : List ContentId

-- The task of `_submit_tool_result_attempt`, by the output that it was made for
pub record ToolAttempt : Type 0 where
  pub output : String
  pub is_done : Bool

-- `_ToolRecord`; `ack` is whether its event is set
pub record ToolRecord : Type 0 where
  pub state : ToolCallState
  pub output : Option String
  pub ack : Option Bool
  pub attempt : Option ToolAttempt

-- `dispatched` lists the calls for which a task of `_dispatch_tool` was made, with `invalid`
pub record ToolBook : Type 0 where
  pub tools : Dict String ToolRecord
  pub followup_waiting : List String
  pub seen_tool_calls : List String
  pub dispatched : List (ToolCallRequested × Bool)

-- A future of `_context_pending`.
pub data Pending : Type 0 where
  waiting : Pending
  resolved : Pending
  rejected : RealtimeErrorCode → Pending

-- `superseded` is the negation of the callback `is_current_generation`
pub record Session : Type 0 where
  pub output : Output
  pub terminal : Terminal
  pub conversation : Conversation
  pub tool_book : ToolBook
  pub ready : Bool
  pub superseded : Bool
  pub identity_table : RealtimeIdentityTable
  pub seen_event_ids : List String
  pub completed_inputs : List String
  pub first_user_transcript : Bool
  pub context_pending : Dict String Pending
  pub context_ack_id : Option String
  pub late_event_count : ℕ
  pub duplicate_event_count : ℕ
  pub close_ack : Option SessionClosed
  pub pending_close_event_id : Option String
  pub close_ack_mismatch_count : ℕ

-- `_is_current_generation`
abbrev pub is_current_generation : Config → Session → Bool
is_current_generation c s = not s.superseded && s.identity_table.generation == c.generation

abbrev pub no_output : Output
no_output = record {
  events = [];
  queued_output_frames = 0;
  queued_output_bytes = 0;
  output_frame_count = 0;
  output_byte_count = 0;
}

abbrev pub no_terminal : Terminal
no_terminal = record {
  terminal_owner = none;
  terminal_sequence_started = false;
  terminal_published = false;
  shutdown_complete = false;
  terminal_error_code = none;
  closing = false;
}

abbrev pub no_conversation : Conversation
no_conversation = record {
  responses = [];
  response_order = [];
  terminal_responses = [];
  cancelled_responses = [];
  items = [];
  function_call_items = [];
  completed_items = [];
  contents = [];
  completed_contents = [];
}

-- A session as its constructor leaves it, given what the recovery state holds for it.
unfoldable pub init : RealtimeIdentityTable → List String → List String → Session
init table seen_tool_calls completed_inputs = record {
  output = no_output;
  terminal = no_terminal;
  conversation = no_conversation;
  tool_book = record {
    tools = [];
    followup_waiting = [];
    seen_tool_calls = seen_tool_calls;
    dispatched = [];
  };
  ready = false;
  superseded = false;
  identity_table = table;
  seen_event_ids = [];
  completed_inputs = completed_inputs;
  first_user_transcript = false;
  context_pending = [];
  context_ack_id = none;
  late_event_count = 0;
  duplicate_event_count = 0;
  close_ack = none;
  pending_close_event_id = none;
  close_ack_mismatch_count = 0;
}
