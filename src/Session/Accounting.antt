-- ===== src/Session/Accounting.antt =====
-- The queue's counters: they are the number and the bytes of the queued events, and `_emit` never
-- takes them past the limits.
use simple_harness_service_s.Events.{RealtimeEvent}
use simple_harness_service_s.Session.State.{Config, Session, Output, is_current_generation}
use simple_harness_service_s.Session.Queue.{
  event_size, enqueue, has_room, emit, next_event, next_event_of, take_event, Round, skipped,
  yielded, ended, blocked, is_session_terminal,
}
use simple_harness_service_s.Common.{
  ℕ, ◌+◌, ◌≤◌, ◌≡◌, refl, Bool, true, false, ◌&&◌, not, List, [], ◌∷◌, ◌++◌, length, length-append,
  arith, if-split, ltb, ltb→ge, sym, ap, ◌∙◌,
}

unfoldable pub total_size : Config → List RealtimeEvent → ℕ
total_size c [] = 0
total_size c (e ∷ rest) = event_size c e + total_size c rest

total_size-append :
    (c : Config) (xs ys : List RealtimeEvent)
    → total_size c (xs ++ ys) ≡ total_size c xs + total_size c ys
unfolding total_size
total_size-append c [] ys = omega arith
total_size-append c (e ∷ xs) ys = omega (arith, total_size-append c xs ys)

pub record IsCounted (c : Config) (o : Output) : Type 0 where
  pub frames : o.queued_output_frames ≡ length o.events
  pub bytes : o.queued_output_bytes ≡ total_size c o.events

pub record IsWithin (c : Config) (o : Output) : Type 0 where
  pub counted : IsCounted c o
  pub few : length o.events ≤ c.limits.output_queue_frames
  pub small : total_size c o.events ≤ c.limits.output_queue_bytes

enqueue-IsCounted :
    (c : Config) (e : RealtimeEvent) (o : Output) → IsCounted c o → IsCounted c (enqueue c e o)
unfolding enqueue total_size
enqueue-IsCounted c e o k = record {
  frames = omega (arith, k.frames, length-append o.events (e ∷ []));
  bytes = omega (arith, k.bytes, total_size-append c o.events (e ∷ []));
}

room-frames : (a b : Bool) → not a && not b ≡ true → a ≡ false
room-frames false b h = refl
room-frames true b h = sym h

room-bytes : (a b : Bool) → not a && not b ≡ true → b ≡ false
room-bytes a false h = refl
room-bytes false true h = sym h
room-bytes true true h = sym h

enqueue-IsWithin :
    (c : Config) (e : RealtimeEvent) (o : Output)
    → IsWithin c o
    → has_room c e o ≡ true
    → IsWithin c (enqueue c e o)
unfolding enqueue has_room total_size
enqueue-IsWithin c e o w h = record {
  counted = enqueue-IsCounted c e o w.counted;
  few = omega (
    arith,
    w.few,
    w.counted.frames,
    length-append o.events (e ∷ []),
    ltb→ge c.limits.output_queue_frames (o.queued_output_frames + 1) (room-frames _ _ h),
  );
  small = omega (
    arith,
    w.small,
    w.counted.bytes,
    total_size-append c o.events (e ∷ []),
    ltb→ge c.limits.output_queue_bytes (o.queued_output_bytes + event_size c e)
        (room-bytes (ltb c.limits.output_queue_frames (o.queued_output_frames + 1)) _ h),
  );
}

-- Queuing an event by `_emit` keeps the two counters equal to the number and the summed size of the
-- queued events, and keeps both within the limits of the capability.
pub emit-IsWithin :
    (c : Config) (e : RealtimeEvent) (s : Session)
    → IsWithin c s.output
    → IsWithin c (emit c e s).0.output
unfolding emit
emit-IsWithin c e s w =
    if-split (λ (r : Session × Bool). IsWithin c r.0.output) (has_room c e s.output)
      (record s { output = enqueue c e s.output }, true) (s, false)
      (λ h. enqueue-IsWithin c e s.output w h) (λ h. w)

take-IsWithin :
    (c : Config) (e : RealtimeEvent) (rest : List RealtimeEvent) (s : Session)
    → s.output.events ≡ e ∷ rest
    → IsWithin c s.output
    → IsWithin c (take_event c e rest s).output
unfolding take_event total_size
take-IsWithin c e rest s h w =
    let frames = w.counted.frames ∙ ap length h in
    let bytes = w.counted.bytes ∙ ap (total_size c) h in
    record {
      counted = record { frames = omega (arith, frames); bytes = omega (arith, bytes) };
      few = omega (arith, w.few, ap length h);
      small = omega (arith, w.small, ap (total_size c) h);
    }

next_event_of-IsWithin :
    (c : Config) (events : List RealtimeEvent) (s : Session)
    → s.output.events ≡ events
    → IsWithin c s.output
    → IsWithin c (next_event_of c events s).0.output
unfolding next_event_of take_event total_size
next_event_of-IsWithin c [] s h w =
    if-split (λ (r : Session × Round). IsWithin c r.0.output) s.terminal.terminal_published
      (s, ended) (s, blocked) (λ k. w) (λ k. w)
next_event_of-IsWithin c (e ∷ rest) s h w =
    let s' = take_event c e rest s in
    if-split (λ (r : Session × Round). IsWithin c r.0.output)
      (not (is_current_generation c s) && not (is_session_terminal e))
      (record s' { late_event_count = s.late_event_count + 1 }, skipped e) (s', yielded e)
      (λ k. take-IsWithin c e rest s h w) (λ k. take-IsWithin c e rest s h w)

-- Taking an event out of the queue by one round of `events()` keeps the two counters equal to the
-- number and the summed size of the queued events, and within the limits, also when the event
-- is dropped as one of a superseded generation.
pub next_event-IsWithin :
    (c : Config) (s : Session) → IsWithin c s.output → IsWithin c (next_event c s).0.output
unfolding next_event
next_event-IsWithin c s w = next_event_of-IsWithin c s.output.events s refl w
