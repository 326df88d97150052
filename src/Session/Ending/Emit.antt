-- ===== src/Session/Ending/Emit.antt =====
-- The ways to put an event into the queue.
use simple_harness_service_s.Events.{RealtimeEvent, CloseInitiator, CloseDisposition}
use simple_harness_service_s.Session.State.{Config, Session, Output}
use simple_harness_service_s.Session.Queue.{
  enqueue, has_room, emit, terminal_output, emit_terminal_safe, is_session_terminal,
}
use simple_harness_service_s.Session.Terminal.{finish_terminal, fail}
use simple_harness_service_s.Session.Flow.{reject, emit_or_fail}
use simple_harness_service_s.Session.Rules.{Triple}
use simple_harness_service_s.Session.Ending.{terminals, terminals-append, count_of, IsEnding}
use simple_harness_service_s.Common.{
  ◌+◌, ◌≡◌, refl, ◌∙◌, ap, sym, subst, Bool, true, false, ◌||◌, List, [], ◌∷◌, ◌++◌, arith,
  append_assoc, append-nil, RealtimeErrorCode, busy, protocol_error, inl, inr, Bool-cases,
  Option-cases,
}

module _ (taken : List RealtimeEvent) where
  terminals-enqueue :
      (c : Config) (event : RealtimeEvent) (o : Output)
      → terminals (taken ++ (enqueue c event o).events)
        ≡ terminals (taken ++ o.events) + count_of (is_session_terminal event)
  unfolding enqueue terminals
  terminals-enqueue c event o =
      ap terminals (sym (append_assoc taken o.events (event ∷ [])))
      ∙ terminals-append (taken ++ o.events) (event ∷ [])
      ∙ ground arith

  terminals-emptied :
      (queue : List RealtimeEvent) → terminals (taken ++ queue) ≡ 0 → terminals (taken ++ []) ≡ 0
  terminals-emptied queue h =
      let split = terminals-append taken queue in ap terminals (append-nil taken) ∙ omega arith

  -- The queue is dropped only while it holds no terminal event.
  pub terminals-terminal_output :
      (c : Config) (started : Bool) (event : RealtimeEvent) (o : Output)
      → (started ≡ false → terminals (taken ++ o.events) ≡ 0)
      → terminals (taken ++ (terminal_output c started event o).events)
        ≡ terminals (taken ++ o.events) + count_of (is_session_terminal event)
  unfolding terminal_output
  terminals-terminal_output c started event o h =
      elim (Bool-cases (started || has_room c event o)) [
        | inl keep ↦ rw keep (terminals-enqueue c event o)
        | inr drop ↦ rw drop (
            let none_there = h (ground arith) in
            let emptied_queue = terminals-emptied o.events none_there in
            terminals-enqueue c event
              (record o { events = []; queued_output_frames = 0; queued_output_bytes = 0 })
            ∙ omega arith)
      ]

  pub unstarted :
      (s : Session)
      → IsEnding taken s
      → s.terminal.terminal_sequence_started ≡ false
      → terminals (taken ++ s.output.events) ≡ 0
  unstarted s e h = ground (arith, e.log, e.started)

  -- A terminal event that is not that of the session leaves its end as it was.
  pub emit_terminal_safe-IsEnding :
      (c : Config) (event : RealtimeEvent) (s : Session)
      → is_session_terminal event ≡ false
      → IsEnding taken s
      → IsEnding taken (emit_terminal_safe c event s)
  unfolding emit_terminal_safe
  emit_terminal_safe-IsEnding c event s plain e =
      let counted =
        terminals-terminal_output c s.terminal.terminal_sequence_started event s.output
          (unstarted s e) in
      record { log = ground (arith, e.log); owned = e.owned; started = refl }

  -- A claim that comes too late changes nothing.
  pub finish_terminal-IsEnding :
      (c : Config) (event : RealtimeEvent) (i : CloseInitiator) (d : CloseDisposition) (s : Session)
      → is_session_terminal event ≡ true
      → IsEnding taken s
      → IsEnding taken (finish_terminal c event i d s)
  unfolding finish_terminal emit_terminal_safe
  finish_terminal-IsEnding c event i d s last e = elim (Option-cases s.terminal.terminal_owner) [
    | inr (owner, owned) ↦
        let late : finish_terminal c event i d s ≡ s = ground arith in
        subst (IsEnding taken) (sym late) e
    | inl free ↦
        let unpublished : s.terminal.terminal_published ≡ false = ground (arith, e.owned) in
        let counted =
          terminals-terminal_output c s.terminal.terminal_sequence_started event s.output
            (unstarted s e) in
        record { log = ground (arith, e.log); owned = ground arith; started = ground arith }
  ]

  pub fail-IsEnding :
      (c : Config) (code : RealtimeErrorCode) (b : Bool) (s : Session)
      → IsEnding taken s
      → IsEnding taken (fail c code b s)
  unfolding fail
  fail-IsEnding c code b s e = finish_terminal-IsEnding c _ _ _ s refl e

  pub reject-IsEnding :
      (c : Config) (s : Session) → IsEnding taken s → IsEnding taken (reject c s).0
  unfolding reject
  reject-IsEnding c s e = fail-IsEnding c protocol_error false s e

  pub emit-IsEnding :
      (c : Config) (event : RealtimeEvent) (s : Session)
      → is_session_terminal event ≡ false
      → IsEnding taken s
      → IsEnding taken (emit c event s).0
  unfolding emit
  emit-IsEnding c event s plain e = elim (Bool-cases (has_room c event s.output)) [
    | inl room ↦ rw room (
        let counted = terminals-enqueue c event s.output in
        record { log = ground (arith, e.log); owned = e.owned; started = e.started })
    | inr full ↦ rw full e
  ]

  pub emit_or_fail-Triple :
      (c : Config) (event : RealtimeEvent)
      → is_session_terminal event ≡ false
      → Triple (IsEnding taken) (IsEnding taken) (IsEnding taken) (emit_or_fail c event)
  unfolding emit_or_fail
  emit_or_fail-Triple c event plain = record {
    always = λ s r. elim (Bool-cases (emit c event s).1) [
      | inl queued ↦ rw queued (emit-IsEnding c event s plain r)
      | inr full ↦ rw full (fail-IsEnding c busy false _ (emit-IsEnding c event s plain r))
    ];
    onward = λ s r h. elim (Bool-cases (emit c event s).1) [
      | inl queued ↦ rw queued (emit-IsEnding c event s plain r)
      | inr full ↦ absurd (ground arith)
    ];
  }
