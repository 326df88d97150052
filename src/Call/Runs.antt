-- ===== src/Call/Runs.antt =====
-- A call as its parts drive it, in any order: `run` on the messages of the client, `_forward_events` on the
-- events of the session, the timer of the acknowledgements, and the owner of the terminal, of
-- realtime/local_channel.py. A handler is one step, with what the session and the channel answer.
use simple_harness_service_s.Bytes.{Bytes}
use simple_harness_service_s.Events.{SessionReady, SessionClosed}
use simple_harness_service_s.Call.{
  Call, Bounds, Problem, Attempt, Ending, goes_on, stopped, raising, init,
}
use simple_harness_service_s.Call.Channel.{
  fail, session_ended, try_next, handle_problem, handle_stream_problem, leave_run,
}
use simple_harness_service_s.Call.Input.{handle_input_audio, delayed_input_ack}
use simple_harness_service_s.Call.Control.{
  LocalValue, World, receive_hello, handle_message, session_ready,
}
use simple_harness_service_s.Call.Closing.{
  IsClosedOnce, fail-IsClosedOnce, session_ended-IsClosedOnce, try_next-IsClosedOnce,
  handle_problem-IsClosedOnce, handle_stream_problem-IsClosedOnce, closings, is_proper,
}
use simple_harness_service_s.Call.Closing.Handlers.{
  Leaves, handle_input_audio-Leaves, delayed_input_ack-IsClosedOnce,
}
use simple_harness_service_s.Call.Closing.Messages.{
  handle_message-Leaves, receive_hello-Leaves, session_ready-Leaves,
}
use simple_harness_service_s.Common.{ℕ, refl, Bool, Option, String, RealtimeErrorCode}

-- What a handler of `run` leaves, or what `run` makes of its exception
unfoldable pub in_run : Call × Ending → Call
unfolding handle_problem
in_run (s, raising p) = handle_problem p s
in_run (s, goes_on) = s
in_run (s, stopped) = s

-- The same for `_forward_events`
unfoldable pub in_stream : Call × Ending → Call
unfolding handle_stream_problem
in_stream (s, raising p) = handle_stream_problem p s
in_stream (s, goes_on) = s
in_stream (s, stopped) = s

pub data Step (b : Bounds) : Call → Call → Type 0 where
  hello :
      (s : Call) (v : Option LocalValue) (is_correlation : String → Bool)
      → Step b s (in_run (receive_hello v is_correlation s))
  message :
      (s : Call) (o : World) (acknowledged : Option Problem) (v : LocalValue)
      → Step b s (in_run (handle_message o acknowledged v s))
  audio :
      (s : Call) (answers : ℕ → Attempt) (ack : Attempt) (payload : Bytes)
      → Step b s (in_run (handle_input_audio b answers ack payload s))
  break_off : (s : Call) (p : Problem) → Step b s (handle_problem p s)
  acknowledge : (s : Call) (ack : Attempt) → Step b s (delayed_input_ack ack s)
  become_ready :
      (s : Call) (first second : Attempt) (event : SessionReady)
      → Step b s (in_stream (session_ready first second event s))
  break_stream : (s : Call) (p : Problem) → Step b s (handle_stream_problem p s)
  give_up :
      (s : Call) (code : RealtimeErrorCode) (retryable : Bool) → Step b s (fail code retryable s)
  end_session : (s : Call) (event : SessionClosed) → Step b s (session_ended event s)
  try_one : (s : Call) (is_sent : Bool) → Step b s (try_next is_sent s)
  leave : (s : Call) → Step b s (leave_run s)

pub data Run (b : Bounds) : Call → Type 0 where
  here : Run b init
  next : {s s' : Call} → Run b s → Step b s s' → Run b s'

in_run-IsClosedOnce : (r : Call × Ending) → Leaves r → IsClosedOnce (in_run r)
unfolding in_run
in_run-IsClosedOnce (s, raising p) c = handle_problem-IsClosedOnce p s c
in_run-IsClosedOnce (s, goes_on) c = c
in_run-IsClosedOnce (s, stopped) c = c

in_stream-IsClosedOnce : (r : Call × Ending) → Leaves r → IsClosedOnce (in_stream r)
unfolding in_stream
in_stream-IsClosedOnce (s, raising p) c = handle_stream_problem-IsClosedOnce p s c
in_stream-IsClosedOnce (s, goes_on) c = c
in_stream-IsClosedOnce (s, stopped) c = c

Step-IsClosedOnce : {b : Bounds} {s s' : Call} → Step b s s' → IsClosedOnce s → IsClosedOnce s'
unfolding leave_run
Step-IsClosedOnce (hello s v is_correlation) c =
    in_run-IsClosedOnce (receive_hello v is_correlation s)
      (receive_hello-Leaves v is_correlation s c)
Step-IsClosedOnce (message s o acknowledged v) c =
    in_run-IsClosedOnce (handle_message o acknowledged v s)
      (handle_message-Leaves o acknowledged v s c)
Step-IsClosedOnce {b} (audio s answers ack payload) c =
    in_run-IsClosedOnce (handle_input_audio b answers ack payload s)
      (handle_input_audio-Leaves b answers ack payload s c)
Step-IsClosedOnce (break_off s p) c = handle_problem-IsClosedOnce p s c
Step-IsClosedOnce (acknowledge s ack) c = delayed_input_ack-IsClosedOnce ack s c
Step-IsClosedOnce (become_ready s first second event) c =
    in_stream-IsClosedOnce (session_ready first second event s)
      (session_ready-Leaves first second event s c)
Step-IsClosedOnce (break_stream s p) c = handle_stream_problem-IsClosedOnce p s c
Step-IsClosedOnce (give_up s code retryable) c = fail-IsClosedOnce code retryable s c
Step-IsClosedOnce (end_session s event) c = session_ended-IsClosedOnce event s c
Step-IsClosedOnce (try_one s is_sent) c = try_next-IsClosedOnce is_sent s c
Step-IsClosedOnce (leave s) c = record { proper = c.proper; stop = c.stop }

-- In every run of a new call, whatever its parts do in which order: of the messages that were sent and
-- those that the owner of the terminal has still to send, at most one is a `call.closed`, its
-- reason is one of the nine of the protocol, and there is none before the terminal is claimed. A
-- reason that the client gave for a stop is one of the nine, too.
pub Run-IsClosedOnce : (b : Bounds) (s : Call) → Run b s → IsClosedOnce s
unfolding init closings is_proper
Run-IsClosedOnce b s here = record { proper = refl; stop = refl }
Run-IsClosedOnce b s (next {s = m} run step) = Step-IsClosedOnce step (Run-IsClosedOnce b m run)
