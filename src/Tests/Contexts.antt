-- ===== src/Tests/Contexts.antt =====
-- Messages put into the context of a session, on small inputs.
use simple_harness_service_s.Text.{is_space, is_blank, check_identity}
use simple_harness_service_s.Events.{RealtimeAudioFormat}
use simple_harness_service_s.Identity.{empty}
use simple_harness_service_s.Session.State.{Config, RealtimeLimits, Session, init}
use simple_harness_service_s.Session.Requests.{require_active}
use simple_harness_service_s.Session.Tools.{delivered, utf8_size, send_runtime_event}
use simple_harness_service_s.Session.Context.{
  AppendRequest, awaits, Both, validate_context, begin_context, after_send, append_claimed,
  append_valid, append_message,
}
use simple_harness_service_s.Session.Context.Once.{
  here, confirm, begin, append_message-once, AllSettled,
}
use simple_harness_service_s.Recovery.{
  RecoveryState, confirm_message, begin_session, claim_message, claim_in, with_session, session_of,
}
use simple_harness_service_s.Common.{
  ◌≡◌, ◌≢◌, refl, true, false, some, [], contains, get, put, arith,
}

abbrev limits : RealtimeLimits
limits = record {
  input_audio_event_bytes = 64;
  input_queue_frames = 2;
  input_queue_bytes = 100;
  output_queue_frames = 2;
  output_queue_bytes = 100;
  tool_payload_bytes = 64;
}

abbrev format : RealtimeAudioFormat
format = record { codec = "pcm_s16le"; sample_rate = 16000; channels = 1 }

abbrev config : Config
config = record {
  generation = 0;
  correlation = "c";
  input_audio = format;
  output_audio = format;
  limits = limits;
  supports_cancel = true;
  supports_tools = false;
  has_dispatcher = false;
  json_size = λ e. 10;
  invalid_tool_arguments = λ c. false;
}

abbrev ready_session : Session
ready_session = record (init empty [] []) { ready = true }

abbrev request : AppendRequest
request = record {
  text = "hello";
  idempotency_key = some "k";
  digest = "d";
  event = record { event_id = "e"; is_response_create = false };
}

abbrev other_request : AppendRequest
other_request = record request { text = "bye"; digest = "f" }

abbrev start : Both
start = (ready_session, [])

abbrev sent : RecoveryState
sent = (append_message config delivered "s" request start).0.1

-- The message is confirmed, and the session begins anew.
abbrev later : RecoveryState
later = (begin_session "s" 1 (confirm_message "s" "k" "item" sent).0).0

nothing_held : AllSettled "s" []
unfolding session_of get
nothing_held key message h = ground arith

sent_awaits : (append_message config delivered "s" request start).1 ≡ awaits "e"
unfolding append_message append_valid append_claimed begin_context after_send send_runtime_event
    validate_context require_active utf8_size claim_message claim_in with_session session_of
    check_identity is_blank is_space get put contains init
sent_awaits = refl

append_message-once_example :
    (append_message config delivered "s" other_request (ready_session, later)).1 ≢ awaits "e"
append_message-once_example =
    append_message-once config config delivered delivered "s" "k" request other_request start
      ready_session later "e" "e" nothing_held refl refl sent_awaits
      (begin 1 (confirm "k" "item" here))
