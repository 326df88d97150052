-- ===== src/Session/Queue.antt =====
-- The event queue of a session: `_event_size`, `_emit`, `_emit_terminal_safe`, and the head of
-- `events()`, which takes one event out.
use simple_harness_service_s.Events.{RealtimeEvent, output_audio, session_closed, session_failed}
use simple_harness_service_s.Session.State.{Config, Session, Output, is_current_generation}
use simple_harness_service_s.Common.{
  ℕ, ◌+◌, ◌-◌, Bool, true, false, ◌&&◌, ◌||◌, not, List, [], ◌∷◌, ◌++◌, ltb, if◌then◌else◌, length,
}

unfoldable pub event_size : Config → RealtimeEvent → ℕ
event_size c (output_audio id pcm) = length pcm
event_size c event = c.json_size event

-- put_nowait, and the two counters
unfoldable pub enqueue : Config → RealtimeEvent → Output → Output
enqueue c event o = record o {
  events = o.events ++ event ∷ [];
  queued_output_frames = o.queued_output_frames + 1;
  queued_output_bytes = o.queued_output_bytes + event_size c event;
}

-- The two tests of `_emit`.
unfoldable pub has_room : Config → RealtimeEvent → Output → Bool
has_room c event o =
    not (ltb c.limits.output_queue_frames (o.queued_output_frames + 1))
    && not (ltb c.limits.output_queue_bytes (o.queued_output_bytes + event_size c event))

unfoldable pub emit : Config → RealtimeEvent → Session → Session × Bool
emit c event s =
    if has_room c event s.output
    then (record s { output = enqueue c event s.output }, true)
    else (s, false)

-- while not empty: get_nowait(), and the counters set to 0
abbrev pub emptied : Output → Output
emptied o = record o { events = []; queued_output_frames = 0; queued_output_bytes = 0 }

-- The queue after `_emit_terminal_safe`. The first of the terminal events drops what is queued if it
-- does not fit.
unfoldable pub terminal_output : Config → Bool → RealtimeEvent → Output → Output
unfolding has_room
terminal_output c started event o =
    enqueue c event (if started || has_room c event o then o else emptied o)

unfoldable pub emit_terminal_safe : Config → RealtimeEvent → Session → Session
unfolding terminal_output
emit_terminal_safe c event s = record s {
  output = terminal_output c s.terminal.terminal_sequence_started event s.output;
  terminal = record s.terminal { terminal_sequence_started = true };
}

abbrev pub is_session_terminal : RealtimeEvent → Bool
is_session_terminal (session_closed e) = true
is_session_terminal (session_failed e) = true
is_session_terminal e = false

-- One round of `events()`: the event taken, if it is yielded, and whether the iterator goes on.
pub data Round : Type 0 where
  ended : Round
  blocked : Round
  skipped : RealtimeEvent → Round
  yielded : RealtimeEvent → Round

unfoldable pub take_event : Config → RealtimeEvent → List RealtimeEvent → Session → Session
take_event c event rest s = record s {
  output = record s.output {
    events = rest;
    queued_output_frames = s.output.queued_output_frames - 1;
    queued_output_bytes = s.output.queued_output_bytes - event_size c event;
  };
}

unfoldable pub next_event_of : Config → List RealtimeEvent → Session → Session × Round
unfolding take_event
next_event_of c [] s = if s.terminal.terminal_published then (s, ended) else (s, blocked)
next_event_of c (event ∷ rest) s =
    let s' = take_event c event rest s in
    if not (is_current_generation c s) && not (is_session_terminal event)
    then (record s' { late_event_count = s.late_event_count + 1 }, skipped event)
    else (s', yielded event)

unfoldable pub next_event : Config → Session → Session × Round
unfolding next_event_of
next_event c s = next_event_of c s.output.events s
