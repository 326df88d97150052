-- ===== src/Call/Control.antt =====
-- The messages of the client in realtime/local_channel.py: `_receive_hello`, `_handle_product_message`,
-- `_start_call` and `_stop_call`, and the events of the session that change the call.

use simple_harness_service_s.Events.{SessionReady}
use simple_harness_service_s.Window.{init as new_window}
use simple_harness_service_s.Call.{
  Call, call_state, call_ready, Problem, raised, Attempt, returns, times_out, raises, Ending,
  goes_on, stopped, raising, ◌▸◌,
}
use simple_harness_service_s.Call.Channel.{send_json, fail, close_session}
use simple_harness_service_s.Call.Input.{flush_input_batch, unless_terminal}
use simple_harness_service_s.Common.{
  ℕ, ◌+◌, Bool, true, false, not, ◌&&◌, ◌||◌, Option, none, some, List, [], ◌∷◌, String, string_eq,
  if◌then◌else◌, length, ◌==◌, nat_eq, contains, realtime_error, protocol_error, timeout,
}

-- `RealtimeFeature` of realtime/contracts.py
pub data RealtimeFeature : Type 0 where
  server_turn_detection automatic_response interruption input_transcription text_output :
      RealtimeFeature
  audio_output cancel_response truncate_output tool_calling resume : RealtimeFeature

-- The members of a decoded message that the handlers read; `none` stands for one that is left out or
-- has another type, and for a list item that is no feature.
pub record LocalValue : Type 0 where
  pub message_type : Option String
  pub generation : Option ℕ
  pub correlation : Option String
  pub instructions : Option String
  pub required_features : Option (List (Option RealtimeFeature))
  pub reason : Option String

-- What comes of `_open_with_correlation`, and of the constructor of its request
pub data Opened : Type 0 where
  opened : Opened
  refused : Problem → Opened

abbrev pub protocol_problem : Problem
protocol_problem = raised (realtime_error protocol_error false)

abbrev pub is_hello : LocalValue → Bool
is_hello v = elim v.message_type [ none ↦ false | some t ↦ t == "local.hello" ]

-- `_receive_hello`; `none` stands for bytes, and the second argument is the match of `_CORRELATION`.
unfoldable pub receive_hello : Option LocalValue → (String → Bool) → Call → Call × Ending
receive_hello none is_correlation s = (s, raising protocol_problem)
receive_hello (some v) is_correlation s =
    if not (is_hello v) then (s, raising protocol_problem) else elim v.generation [
      | none ↦ (s, raising protocol_problem)
      | some generation ↦ elim v.correlation [
        | none ↦ (s, raising protocol_problem)
        | some correlation ↦
            if not (generation == 1) || not (is_correlation correlation)
            then (s, raising protocol_problem)
            else (
              record s {
                generation = generation;
                correlation = correlation;
                input_window = some (new_window generation);
              },
              goes_on,
            )
      ]
    ]

abbrev pub feature_number : RealtimeFeature → ℕ
feature_number server_turn_detection = 0
feature_number automatic_response = 1
feature_number interruption = 2
feature_number input_transcription = 3
feature_number text_output = 4
feature_number audio_output = 5
feature_number cancel_response = 6
feature_number truncate_output = 7
feature_number tool_calling = 8
feature_number resume = 9

-- The features of the list are features, and none stands twice; `seen` holds those before.
unfoldable pub are_features : List ℕ → List (Option RealtimeFeature) → Bool
are_features seen [] = true
are_features seen (none ∷ items) = false
are_features seen (some feature ∷ items) =
    not (contains seen (feature_number feature))
    && are_features (feature_number feature ∷ seen) items

abbrev pub is_start : LocalValue → Bool
is_start v = elim v.instructions [
  | none ↦ false
  | some text ↦
      not (text == "")
      && (elim v.required_features [ none ↦ false | some items ↦ are_features [] items ])
]

-- The session is opened, or the call fails. An exception that is no RealtimeError is raised on.
unfoldable pub after_open : Opened → Call → Call × Ending
unfolding fail
after_open opened s = (record s { has_session = true }, goes_on)
after_open (refused (raised (realtime_error code retryable))) s = (fail code retryable s, goes_on)
after_open (refused p) s = (s, raising p)

unfoldable pub start_call : Attempt → Opened → LocalValue → Call → Call × Ending
unfolding are_features after_open send_json
start_call sending opening v s =
    if s.started || not (is_start v)
    then (s, raising protocol_problem)
    else send_json sending (call_state "connecting") (record s { started = true })
      ▸ after_open opening

unfoldable pub is_stop_reason : String → Bool
is_stop_reason reason = contains ("client_hangup" ∷ "app_shutdown" ∷ []) reason

-- The session is closed; the task of `_forward_events` ends in time, or the call fails.
unfoldable pub after_closing : Bool → Call → Call × Ending
unfolding fail
after_closing in_time s =
    (if in_time then close_session s else fail timeout true (close_session s), goes_on)

unfoldable pub stop_with :
    (audio sending : Attempt) (in_time : Bool) → String → Call → Call × Ending
unfolding flush_input_batch send_json after_closing
stop_with audio sending in_time reason s =
    flush_input_batch audio (record s { requested_stop_reason = some reason })
    ▸ unless_terminal
    ▸ send_json sending (call_state "closing")
    ▸ after_closing in_time

unfoldable pub stop_call :
    (audio sending : Attempt) (in_time : Bool) → LocalValue → Call → Call × Ending
unfolding stop_with is_stop_reason
stop_call audio sending in_time v s = elim v.reason [
  | none ↦ (s, raising protocol_problem)
  | some reason ↦
      if not s.started || not (is_stop_reason reason)
      then (s, raising protocol_problem)
      else stop_with audio sending in_time reason s
]

abbrev pub after_cancel : Attempt → Call → Call × Ending
after_cancel returns s = (s, goes_on)
after_cancel times_out s = (s, goes_on)
after_cancel (raises p) s = (s, raising p)

-- call.barge_in; `cancelling` is what comes of `cancel_response` of the session.
unfoldable pub barge_in : (audio cancelling : Attempt) → Call → Call × Ending
unfolding flush_input_batch
barge_in audio cancelling s =
    if not s.ready || not s.has_session
    then (s, raising protocol_problem)
    else flush_input_batch audio s ▸ unless_terminal ▸ after_cancel cancelling

-- What the outside gives a handler
pub record World : Type 0 where
  pub audio : ℕ → Attempt
  pub sending : Attempt
  pub opening : Opened
  pub cancelling : Attempt
  pub in_time : Bool

-- Which handler a type of message has
pub data MessageKind : Type 0 where
  starting stopping interrupting acknowledging other : MessageKind

unfoldable pub kind_of : String → MessageKind
kind_of t =
    if t == "call.start"
    then starting
    else if t == "call.stop"
    then stopping
    else if t == "call.barge_in"
    then interrupting
    else if t == "call.audio_ack"
    then acknowledging
    else other

abbrev pub ending_of : Option Problem → Ending
ending_of none = goes_on
ending_of (some p) = raising p

-- An acknowledgement of output audio goes to `_handle_output_ack`, whose state is not part of this one:
-- `acknowledged` is its exception, if any.
unfoldable pub handle_kind :
    World → Option Problem → LocalValue → MessageKind → Call → Call × Ending
unfolding start_call stop_call barge_in
handle_kind o acknowledged v starting s = start_call o.sending o.opening v s
handle_kind o acknowledged v stopping s =
    stop_call (o.audio (length s.heard)) o.sending o.in_time v s
handle_kind o acknowledged v interrupting s = barge_in (o.audio (length s.heard)) o.cancelling s
handle_kind o acknowledged v acknowledging s = (s, ending_of acknowledged)
handle_kind o acknowledged v other s = (s, raising protocol_problem)

abbrev pub has_generation : ℕ → LocalValue → Bool
has_generation generation v = elim v.generation [ none ↦ false | some g ↦ g == generation ]

abbrev pub type_of : LocalValue → String
type_of v = elim v.message_type [ none ↦ "" | some t ↦ t ]

-- `_handle_product_message` on a message of text
unfoldable pub handle_message : World → Option Problem → LocalValue → Call → Call × Ending
unfolding kind_of handle_kind
handle_message o acknowledged v s =
    if not (has_generation s.generation v)
    then (record s { late_frame_count = s.late_frame_count + 1 }, stopped)
    else handle_kind o acknowledged v (kind_of (type_of v)) s

-- The branch of `_forward_events` on `SessionReady`, for an event of the current generation
unfoldable pub session_ready : (first second : Attempt) → SessionReady → Call → Call × Ending
unfolding fail send_json
session_ready first second event s =
    if s.ready || not (event.correlation == s.correlation)
    then (fail protocol_error false s, stopped)
    else send_json first (call_ready event.correlation event.input_audio event.output_audio)
        (record s { ready = true; output_audio = event.output_audio })
      ▸ send_json second (call_state "active")
