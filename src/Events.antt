-- ===== src/Events.antt =====
-- The provider-neutral values of realtime/contracts.py that sessions and channels exchange, and the
-- decoded provider event of realtime/ports.py. Fields that only carry diagnostics
-- (`compare=False` in the source) are left out.
use simple_harness_service_s.Bytes.{Bytes}
use simple_harness_service_s.Common.{ℕ, Bool, Option, List, String, RealtimeErrorCode}

pub data ResponseStatus : Type 0 where
  completed cancelled incomplete failed : ResponseStatus

pub data CloseInitiator : Type 0 where
  client provider relay network timed_out shutdown : CloseInitiator

pub data CloseDisposition : Type 0 where
  clean retryable fatal clean_expired : CloseDisposition

pub data ToolCallState : Type 0 where
  requested result_sent result_acked followup_requested followup_started : ToolCallState

pub record RealtimeAudioFormat : Type 0 where
  pub codec : String
  pub sample_rate : ℕ
  pub channels : ℕ

pub record ResponseUsage : Type 0 where
  pub input_text_tokens : ℕ
  pub input_audio_tokens : ℕ
  pub output_text_tokens : ℕ
  pub output_audio_tokens : ℕ

pub record SessionReady : Type 0 where
  pub generation : ℕ
  pub correlation : String
  pub input_audio : RealtimeAudioFormat
  pub output_audio : RealtimeAudioFormat
  pub tools_acknowledged : Bool

-- (response_id, item_id)
abbrev pub ItemId : Type 0
ItemId = String × String

-- (response_id, item_id, output_index)
abbrev pub CallItemId : Type 0
CallItemId = String × (String × ℕ)

-- (response_id, item_id, output_index, content_index)
abbrev pub ContentId : Type 0
ContentId = String × (String × (ℕ × ℕ))

pub record ToolCallRequested : Type 0 where
  pub response_id : String
  pub call_id : String
  pub name : String
  pub arguments_json : String
  pub generation : ℕ

pub record ResponseFinished : Type 0 where
  pub response_id : String
  pub status : ResponseStatus
  pub usage : Option ResponseUsage
  pub local : Bool

pub record SessionClosed : Type 0 where
  pub reason : String
  pub initiator : CloseInitiator
  pub disposition : CloseDisposition
  pub active_response : String
  pub settlement : String
  pub related_event_id : Option String

pub record SessionFailed : Type 0 where
  pub code : RealtimeErrorCode
  pub is_retryable : Bool

pub data RealtimeEvent : Type 0 where
  session_ready : SessionReady → RealtimeEvent
  speech_started : String → RealtimeEvent
  speech_stopped : String → RealtimeEvent
  transcript_delta : String → String → RealtimeEvent
  transcript_completed : String → String → RealtimeEvent
  response_started : String → String → RealtimeEvent
  output_text : ContentId → String → Bool → RealtimeEvent
  output_audio_started : ContentId → RealtimeEvent
  output_audio : ContentId → Bytes → RealtimeEvent
  output_audio_completed : ContentId → RealtimeEvent
  tool_call_requested : ToolCallRequested → RealtimeEvent
  response_finished : ResponseFinished → RealtimeEvent
  session_expiring : ℕ → RealtimeEvent
  session_closed : SessionClosed → RealtimeEvent
  session_failed : SessionFailed → RealtimeEvent

-- `introduced_item_detail`: (response_id, item_id, output_index, item_type)
pub record ItemDetail : Type 0 where
  pub response_id : String
  pub item_id : String
  pub output_index : ℕ
  pub item_type : String

-- `tool_ack_identity`: (item_id, item_type, status, call_id, output)
pub record ToolAck : Type 0 where
  pub item_id : String
  pub item_type : String
  pub status : String
  pub call_id : String
  pub output : String

-- `tool_call_identity`: (response_id, item_id, output_index, call_id)
pub record ToolCallIdentity : Type 0 where
  pub response_id : String
  pub item_id : String
  pub output_index : ℕ
  pub call_id : String

pub record DecodedProviderEvent : Type 0 where
  pub event_id : String
  pub events : List RealtimeEvent
  pub provider_ready : Bool
  pub session_acknowledged : Bool
  pub introduced_response_id : Option String
  pub introduced_item : Option ItemId
  pub introduced_item_detail : Option ItemDetail
  pub introduced_content : Option ContentId
  pub completed_item : Option ItemId
  pub completed_content : Option ContentId
  pub tool_ack_identity : Option ToolAck
  pub tool_call_identity : Option ToolCallIdentity
  pub tools_acknowledged : Bool
  pub context_ack_id : Option String
  pub rejected_event_id : Option String
  pub context_request_id : Option String
