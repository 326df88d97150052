-- ===== src/Session/Conversation/Unchanged.antt =====
-- The steps that leave the conversation alone.
use simple_harness_service_s.Events.{
  RealtimeEvent, CloseInitiator, CloseDisposition, ContentId, ToolCallIdentity, ToolCallRequested,
  DecodedProviderEvent, ToolAck,
}
use simple_harness_service_s.Identity.{RealtimeItemIdentity, lookup}
use simple_harness_service_s.Session.State.{Config, Session}
use simple_harness_service_s.Session.Queue.{emit, emit_terminal_safe}
use simple_harness_service_s.Session.Terminal.{finish_terminal, fail}
use simple_harness_service_s.Session.Flow.{◌>>◌, reject, emit_or_fail}
use simple_harness_service_s.Session.Batch.{
  deliver_transcript, deliver_call, deliver_output, mark_first_transcript, remember_input,
  admit_call,
}
use simple_harness_service_s.Session.Apply.{
  check_current, apply_rejection, apply_context_ack, apply_ready, stop_acknowledged, apply_tool_ack,
  check_completed, start_followup, acknowledge,
}
use simple_harness_service_s.Common.{
  ◌≡◌, refl, Bool, true, false, Option, none, some, List, [], ◌∷◌, String, arith, RealtimeErrorCode,
  busy,
}

pub conversation-finish_terminal :
    (c : Config) (event : RealtimeEvent) (i : CloseInitiator) (d : CloseDisposition) (s : Session)
    → (finish_terminal c event i d s).conversation ≡ s.conversation
unfolding finish_terminal emit_terminal_safe
conversation-finish_terminal c event i d s = ground arith

pub conversation-fail :
    (c : Config) (code : RealtimeErrorCode) (b : Bool) (s : Session)
    → (fail c code b s).conversation ≡ s.conversation
unfolding fail
conversation-fail c code b s = conversation-finish_terminal c _ _ _ s

pub conversation-emit_or_fail :
    (c : Config) (event : RealtimeEvent) (s : Session)
    → (emit_or_fail c event s).0.conversation ≡ s.conversation
unfolding emit_or_fail emit
conversation-emit_or_fail c event s = ground (arith, conversation-fail c busy false s)

pub conversation-reject : (c : Config) (s : Session) → (reject c s).0.conversation ≡ s.conversation
unfolding reject
conversation-reject c s = conversation-fail c _ false s

pub conversation-check_current :
    (c : Config) (s : Session) → (check_current c s).0.conversation ≡ s.conversation
unfolding check_current
conversation-check_current c s = ground arith

pub conversation-apply_rejection :
    (id : Option String) (s : Session) → (apply_rejection id s).0.conversation ≡ s.conversation
unfolding apply_rejection
conversation-apply_rejection id s = ground arith

pub conversation-apply_context_ack :
    (d : DecodedProviderEvent) (id : Option String) (s : Session)
    → (apply_context_ack d id s).0.conversation ≡ s.conversation
unfolding apply_context_ack
conversation-apply_context_ack d id s = ground arith

pub conversation-apply_ready :
    (c : Config) (d : DecodedProviderEvent) (s : Session)
    → (apply_ready c d s).0.conversation ≡ s.conversation
unfolding apply_ready emit_or_fail emit
conversation-apply_ready c d s =
    ground
      (arith, conversation-fail c busy false (record s { ready = true }), conversation-reject c s)

pub conversation-stop_acknowledged :
    (d : DecodedProviderEvent) (s : Session)
    → (stop_acknowledged d s).0.conversation ≡ s.conversation
unfolding stop_acknowledged
conversation-stop_acknowledged d s = ground arith

pub conversation-apply_tool_ack :
    (c : Config) (ack : Option ToolAck) (s : Session)
    → (apply_tool_ack c ack s).0.conversation ≡ s.conversation
unfolding apply_tool_ack acknowledge
conversation-apply_tool_ack c ack s = ground (arith, conversation-reject c s)

pub conversation-check_completed :
    (c : Config) (d : DecodedProviderEvent) (s : Session)
    → (check_completed c d s).0.conversation ≡ s.conversation
unfolding check_completed
conversation-check_completed c d s = ground (arith, conversation-reject c s)

pub conversation-start_followup :
    (calls : List String) (s : Session) → (start_followup calls s).0.conversation ≡ s.conversation
unfolding start_followup
conversation-start_followup [] s = refl
conversation-start_followup (call ∷ calls) s = ground arith

conversation-remember :
    (c : Config) (identity : Option RealtimeItemIdentity) (turn : String) (s : Session)
    → (mark_first_transcript c identity (remember_input identity turn s)).conversation
      ≡ s.conversation
unfolding mark_first_transcript remember_input
conversation-remember c none turn s = refl
conversation-remember c (some item) turn s = ground arith

pub conversation-deliver_transcript :
    (c : Config) (turn text : String) (s : Session)
    → (deliver_transcript c turn text s).0.conversation ≡ s.conversation
unfolding deliver_transcript
conversation-deliver_transcript c turn text s = ground (
  arith,
  conversation-emit_or_fail c (RealtimeEvent.transcript_completed turn text) (
      mark_first_transcript c (lookup s.identity_table turn)
        (remember_input (lookup s.identity_table turn) turn s)),
  conversation-remember c (lookup s.identity_table turn) turn s,
)

pub conversation-deliver_call :
    (c : Config) (identity : Option ToolCallIdentity) (call : ToolCallRequested) (s : Session)
    → (deliver_call c identity call s).0.conversation ≡ s.conversation
unfolding deliver_call admit_call
conversation-deliver_call c none call s = conversation-reject c s
conversation-deliver_call c (some identity) call s =
    let stamped = record call { generation = c.generation } in
    ground (
      arith,
      conversation-reject c s,
      conversation-emit_or_fail c (RealtimeEvent.tool_call_requested stamped)
          (admit_call c stamped s),
    )

pub conversation-deliver_output :
    (c : Config) (id : ContentId) (event : RealtimeEvent) (s : Session)
    → (deliver_output c id event s).0.conversation ≡ s.conversation
unfolding deliver_output ◌>>◌
conversation-deliver_output c id event s =
    ground (arith, conversation-reject c s, conversation-emit_or_fail c event s)
