-- ===== src/Session/Requests.antt =====
-- What a client asks of a session: `send_audio` and `cancel_response` of realtime/session.py, and the
-- test for an active session. What `_send_runtime_event` does with an event is left to the caller:
-- an operation is split at that call.
pub mod Bounds
use simple_harness_service_s.Bytes.{Bytes}
use simple_harness_service_s.Session.State.{Config, Session, is_current_generation}
use simple_harness_service_s.Session.Terminal.{current_response}
use simple_harness_service_s.Common.{
  ℕ, ◌+◌, ◌-◌, ◌%◌, Bool, true, false, not, ◌&&◌, ◌||◌, Option, none, some, String, string_eq,
  nat_eq, ◌==◌, ltb, length, is_some, if◌then◌else◌, add, Result, ok, raise, raise_if, ◌>>=◌, ◌>>◌,
  realtime_error, cancelled, busy, invalid_request, unsupported,
}

-- The counters of the input side of a session
pub record InputQueue : Type 0 where
  pub input_pending_frames : ℕ
  pub input_pending_bytes : ℕ
  pub input_frame_count : ℕ
  pub input_byte_count : ℕ

unfoldable pub require_active : Config → Session → Result (Unit {0})
require_active c s =
    raise_if
      (is_some s.terminal.terminal_owner || s.terminal.closing || not (is_current_generation c s))
      (realtime_error cancelled false)

-- `send_audio` up to the sending of the event: the audio is counted as pending.
unfoldable pub admit_audio : Config → Bytes → Session → InputQueue → Result InputQueue
unfolding require_active
admit_audio c pcm s q = do
  require_active c s
  raise_if (not s.ready) (realtime_error busy false)
  raise_if (length pcm == 0 || not (length pcm % 2 == 0)) (realtime_error invalid_request false)
  raise_if (ltb c.limits.input_audio_event_bytes (length pcm))
      (realtime_error invalid_request false)
  raise_if (ltb c.limits.input_queue_frames (q.input_pending_frames + 1))
      (realtime_error busy false)
  raise_if (ltb c.limits.input_queue_bytes (q.input_pending_bytes + length pcm))
      (realtime_error busy false)
  ok (record q {
    input_pending_frames = q.input_pending_frames + 1;
    input_pending_bytes = q.input_pending_bytes + length pcm;
  })

-- The rest of it, after the sending: the counts of a sent event, and the `finally` clause
unfoldable pub settle_audio : Bool → Bytes → InputQueue → InputQueue
settle_audio was_sent pcm q =
    let counted =
      if was_sent
      then record q {
        input_frame_count = q.input_frame_count + 1;
        input_byte_count = q.input_byte_count + length pcm;
      }
      else q in
    record counted {
      input_pending_frames = counted.input_pending_frames - 1;
      input_pending_bytes = counted.input_pending_bytes - length pcm;
    }

-- `cancel_response` up to the sending of the event: the response that is to be cancelled, if any
unfoldable pub cancel_response : Config → Session → Result (Session × Option String)
unfolding require_active current_response
cancel_response c s = do
  require_active c s
  raise_if (not c.supports_cancel) (realtime_error unsupported false)
  ok (elim (current_response s) [
    | none ↦ (s, none)
    | some response_id ↦ (
      record s {
        conversation = record s.conversation {
          cancelled_responses = add response_id s.conversation.cancelled_responses;
        };
      },
      some response_id,
    )
  ])
