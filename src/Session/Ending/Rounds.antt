-- ===== src/Session/Ending/Rounds.antt =====
-- The rounds of the receive loop, before and after the publication of the terminal, and the number of
-- terminal events queued.
use simple_harness_service_s.Events.{
  RealtimeEvent, session_failed, session_closed, session_ready, speech_started, speech_stopped,
  transcript_delta, transcript_completed, response_started, response_finished, output_text,
  output_audio_started, output_audio, output_audio_completed, tool_call_requested, session_expiring,
  DecodedProviderEvent,
}
use simple_harness_service_s.Session.State.{Config, Session}
use simple_harness_service_s.Session.Queue.{emit, is_session_terminal}
use simple_harness_service_s.Session.Terminal.{fail}
use simple_harness_service_s.Session.Flow.{Flow, go, halt, thrown}
use simple_harness_service_s.Session.Batch.{count_late, count_duplicate}
use simple_harness_service_s.Session.Apply.{apply}
use simple_harness_service_s.Session.Receive.{
  Received, receive_failed, receive_crashed, end_of_stream, control_invalid, control_event,
  provider_invalid, provider_crashed, provider_event, caught, on_closing_control, relay_event,
  on_control, after_apply, on_provider_event, dispatch, receive_round,
}
use simple_harness_service_s.Session.Ending.{IsEnding}
use simple_harness_service_s.Session.Ending.Emit.{
  fail-IsEnding, emit-IsEnding, finish_terminal-IsEnding,
}
use simple_harness_service_s.Session.Ending.Batches.{Same-IsEnding}
use simple_harness_service_s.Session.Ending.Deliver.{NoneClosed}
use simple_harness_service_s.Session.Ending.Whole.{apply-Ending}
use simple_harness_service_s.Common.{
  ◌≡◌, refl, Bool, true, false, List, string_eq, contains, add, if◌then◌else◌, arith, if-split,
  RealtimeErrorCode, internal, unavailable, busy,
}

-- What a round is given holds no SessionClosed among the domain events of a provider event.
abbrev pub IsDecoded : Received → Type 0
IsDecoded (provider_event d) = NoneClosed d.events
IsDecoded _ = Unit

module _ (taken : List RealtimeEvent) (c : Config) where
  late-IsEnding : (s : Session) → IsEnding taken s → IsEnding taken (count_late s)
  late-IsEnding s e = record { log = e.log; owned = e.owned; started = e.started }

  caught-keeps :
      (code : RealtimeErrorCode) (b : Bool) (s : Session)
      → IsEnding taken s
      → IsEnding taken (caught c code b s).0
  unfolding caught
  caught-keeps code b s e =
      if-split (λ (m : Session × Bool). IsEnding taken m.0) s.terminal.closing (count_late s, true)
        (fail c code b s, false) (λ h. late-IsEnding s e) (λ h. fail-IsEnding taken c code b s e)

  closing_control-keeps :
      (event : RealtimeEvent) (s : Session)
      → IsEnding taken s
      → IsEnding taken (on_closing_control event s)
  closing_control-keeps event s e =
      Same-IsEnding taken s _
        (record { output = same_output event s; terminal = same_terminal event s }) e
    where
      same_output : (v : RealtimeEvent) (t : Session) → (on_closing_control v t).output ≡ t.output
      same_output v t = unfold on_closing_control in ground arith

      same_terminal :
          (v : RealtimeEvent) (t : Session) → (on_closing_control v t).terminal ≡ t.terminal
      same_terminal v t = unfold on_closing_control in ground arith

  -- An event that is emitted from the relay, or the failure if it does not fit.
  relayed :
      (event : RealtimeEvent) (s : Session)
      → is_session_terminal event ≡ false
      → IsEnding taken s
      → IsEnding taken (relay_event c event s).0
  unfolding relay_event
  relayed event s plain r =
      let sent = emit-IsEnding taken c event s plain r in
      if-split (λ (m : Session × Bool). IsEnding taken m.0) (emit c event s).1
        ((emit c event s).0, true) (fail c busy false (emit c event s).0, false) (λ h. sent)
        (λ h. fail-IsEnding taken c busy false _ sent)

  control-keeps :
      (event : RealtimeEvent) (s : Session)
      → IsEnding taken s
      → IsEnding taken (on_control c event s).0
  unfolding on_control
  control-keeps (session_failed e) s r = finish_terminal-IsEnding taken c _ _ _ s refl r
  control-keeps (session_closed e) s r = finish_terminal-IsEnding taken c _ _ _ s refl r
  control-keeps (session_ready e) s r = relayed (session_ready e) s refl r
  control-keeps (speech_started t) s r = relayed (speech_started t) s refl r
  control-keeps (speech_stopped t) s r = relayed (speech_stopped t) s refl r
  control-keeps (transcript_delta t x) s r = relayed (transcript_delta t x) s refl r
  control-keeps (transcript_completed t x) s r = relayed (transcript_completed t x) s refl r
  control-keeps (response_started t x) s r = relayed (response_started t x) s refl r
  control-keeps (response_finished e) s r = relayed (response_finished e) s refl r
  control-keeps (output_text k t b) s r = relayed (output_text k t b) s refl r
  control-keeps (output_audio_started k) s r = relayed (output_audio_started k) s refl r
  control-keeps (output_audio k p) s r = relayed (output_audio k p) s refl r
  control-keeps (output_audio_completed k) s r = relayed (output_audio_completed k) s refl r
  control-keeps (tool_call_requested k) s r = relayed (tool_call_requested k) s refl r
  control-keeps (session_expiring ms) s r = relayed (session_expiring ms) s refl r

  after_apply-keeps :
      (flow : Flow) (s : Session) → IsEnding taken s → IsEnding taken (after_apply c flow s).0
  unfolding after_apply
  after_apply-keeps go s e = e
  after_apply-keeps (halt true) s e = e
  after_apply-keeps (halt false) s e = e
  after_apply-keeps thrown s e = caught-keeps internal false s e

  provider-keeps :
      (d : DecodedProviderEvent) (s : Session)
      → NoneClosed d.events
      → IsEnding taken s
      → IsEnding taken (on_provider_event c d s).0
  unfolding on_provider_event
  provider-keeps d s h r =
      let noted = record s { seen_event_ids = add d.event_id s.seen_event_ids } in
      let noted_r : IsEnding taken noted = record {
        log = r.log;
        owned = r.owned;
        started = r.started;
      } in
      if-split (λ (m : Session × Bool). IsEnding taken m.0) (contains s.seen_event_ids d.event_id)
        (count_duplicate s, true) (after_apply c (apply c d noted).1 (apply c d noted).0)
        (λ seen.
          Same-IsEnding taken s (count_duplicate s) (record { output = refl; terminal = refl }) r)
        (λ new.
          after_apply-keeps (apply c d noted).1 (apply c d noted).0
            ((apply-Ending taken c d h).always noted noted_r))

  module _ (s : Session) (e : IsEnding taken s) where
    -- Past a test of `_closing`.
    while_open :
        (m : Session × Bool)
        → IsEnding taken m.0
        → (closed : Session) → IsEnding taken closed
        → IsEnding taken (if s.terminal.closing then (closed, true) else m).0
    while_open m opened closed k =
        if-split (λ (n : Session × Bool). IsEnding taken n.0) s.terminal.closing (closed, true) m
          (λ h. k) (λ h. opened)

    dispatch-keeps :
        (received : Received) → IsDecoded received → IsEnding taken (dispatch c received s).0
    unfolding dispatch
    dispatch-keeps (receive_failed code b) h = caught-keeps code b s e
    dispatch-keeps receive_crashed h = caught-keeps internal false s e
    dispatch-keeps end_of_stream h = e
    dispatch-keeps (control_invalid code b) h = caught-keeps code b s e
    dispatch-keeps (control_event event) h =
        while_open (on_control c event s) (control-keeps event s e) (on_closing_control event s)
          (closing_control-keeps event s e)
    dispatch-keeps (provider_invalid code b) h =
        while_open (caught c code b s) (caught-keeps code b s e) (count_late s) (late-IsEnding s e)
    dispatch-keeps provider_crashed h =
        while_open (caught c internal false s) (caught-keeps internal false s e) (count_late s)
          (late-IsEnding s e)
    dispatch-keeps (provider_event d) h =
        while_open (on_provider_event c d s) (provider-keeps d s h e) (count_late s)
          (late-IsEnding s e)

    past_generation :
        (received : Received) (b : Bool)
        → IsDecoded received
        → IsEnding taken (if b then (count_late s, true) else dispatch c received s).0
    past_generation received true h = late-IsEnding s e
    past_generation received false h = dispatch-keeps received h

    pub round-keeps :
        (received : Received) → IsDecoded received → IsEnding taken (receive_round c received s).0
    unfolding receive_round
    round-keeps end_of_stream h =
        if-split (λ (m : Session × Bool). IsEnding taken m.0) s.terminal.closing (s, false)
          (fail c unavailable true s, false) (λ h. e)
          (λ h. fail-IsEnding taken c unavailable true s e)
    round-keeps (receive_failed code b) h = dispatch-keeps (receive_failed code b) h
    round-keeps receive_crashed h = dispatch-keeps receive_crashed h
    round-keeps (control_invalid code b) h = past_generation (control_invalid code b) _ h
    round-keeps (control_event v) h = past_generation (control_event v) _ h
    round-keeps (provider_invalid code b) h = past_generation (provider_invalid code b) _ h
    round-keeps provider_crashed h = past_generation provider_crashed _ h
    round-keeps (provider_event d) h = past_generation (provider_event d) _ h
