-- ===== src/Call.antt =====
-- The lifecycle of a call: `LocalRealtimeChannelController` of realtime/local_channel.py, without the
-- parts that Window, OutputFlow and Outputs model.
pub mod Reasons
pub mod Channel
pub mod Input
pub mod Control
pub mod Closing
pub mod Runs
pub mod Stream
use simple_harness_service_s.Bytes.{Bytes}
use simple_harness_service_s.Events.{RealtimeAudioFormat}
use simple_harness_service_s.Window.{InputWindow}
use simple_harness_service_s.Common.{
  ℕ, Bool, true, false, Option, none, some, List, [], ◌∷◌, String, RealtimeErrorCode, Exception,
}

-- The messages that the controller sends by `_send_json` and `_try_send_json`; each carries the
-- generation of the controller, too.
pub data LocalMessage : Type 0 where
  call_state : String → LocalMessage
  call_ready : String → RealtimeAudioFormat → RealtimeAudioFormat → LocalMessage
  audio_ack : ℕ → LocalMessage
  call_error : RealtimeErrorCode → Bool → LocalMessage
  call_closed : String → LocalMessage

-- The exceptions that `run` tells apart: those of the program, the loss of the connection, and all
-- others.
pub data Problem : Type 0 where
  raised : Exception → Problem
  connection_lost unexpected : Problem

-- What comes of a call of the channel or the session under `asyncio.wait_for`
pub data Attempt : Type 0 where
  returns times_out : Attempt
  raises : Problem → Attempt

-- How a part of a handler ends: the handler goes on, returns, or raises.
pub data Ending : Type 0 where
  goes_on stopped : Ending
  raising : Problem → Ending

-- `ending` is what the owner of the terminal has still to send, `written` what the client was sent by
-- these parts, in order, and `heard` what the session was given as audio.
pub record Call : Type 0 where
  pub generation : ℕ
  pub correlation : String
  pub ready : Bool
  pub started : Bool
  pub has_session : Bool
  pub requested_stop_reason : Option String
  pub terminal : Bool
  pub input_window : Option InputWindow
  pub input_batch : List Bytes
  pub input_since_ack : ℕ
  pub has_ack_timer : Bool
  pub output_audio : RealtimeAudioFormat
  pub late_frame_count : ℕ
  pub duplicate_frame_count : ℕ
  pub ending : List LocalMessage
  pub written : List LocalMessage
  pub heard : List Bytes

-- The numbers that a controller is built with
pub record Bounds : Type 0 where
  pub ack_every_frames : ℕ
  pub input_batch_frames : ℕ

unfoldable pub init : Call
init = record {
  generation = 0;
  correlation = "";
  ready = false;
  started = false;
  has_session = false;
  requested_stop_reason = none;
  terminal = false;
  input_window = none;
  input_batch = [];
  input_since_ack = 0;
  has_ack_timer = false;
  output_audio = record { codec = "pcm_s16le"; sample_rate = 24000; channels = 1 };
  late_frame_count = 0;
  duplicate_frame_count = 0;
  ending = [];
  written = [];
  heard = [];
}

-- A part of a handler, and what follows it if the handler goes on
infixl 5 ◌▸◌
abbrev pub ◌▸◌ : Call × Ending → (Call → Call × Ending) → Call × Ending
(s, goes_on) ▸ next = next s
(s, stopped) ▸ next = (s, stopped)
(s, raising p) ▸ next = (s, raising p)
