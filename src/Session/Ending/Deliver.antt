-- ===== src/Session/Ending/Deliver.antt =====
-- The loop of `_apply` over the domain events of a batch, and the number of terminal events queued.
use simple_harness_service_s.Identity.{lookup, RealtimeItemIdentity}
use simple_harness_service_s.Events.{
  RealtimeEvent, transcript_completed, output_text, output_audio_started, output_audio,
  output_audio_completed, tool_call_requested, response_finished, session_failed, session_closed,
  session_ready, speech_started, speech_stopped, transcript_delta, response_started,
  session_expiring, ContentId, ToolCallIdentity, ToolCallRequested, ResponseFinished, provider,
}
use simple_harness_service_s.Session.State.{Config, Session}
use simple_harness_service_s.Session.Queue.{is_session_terminal}
use simple_harness_service_s.Session.Terminal.{disposition_of}
use simple_harness_service_s.Session.Flow.{Flow, go, Step, modify, reject, emit_or_fail}
use simple_harness_service_s.Session.Rules.{Triple, Triple->>}
use simple_harness_service_s.Session.Batch.{
  deliver_transcript, deliver_call, deliver_output, deliver_judged, deliver_finish, deliver,
  deliver_all, mark_first_transcript, remember_input, admit_call, judge_output, Verdict, passed,
  late, refused, valid_call, is_completed_input, settled_status, end_response, count_audio,
  count_duplicate, count_late,
}
use simple_harness_service_s.Session.Ending.{IsEnding}
use simple_harness_service_s.Session.Ending.Emit.{
  emit_terminal_safe-IsEnding, finish_terminal-IsEnding, reject-IsEnding, emit_or_fail-Triple,
}
use simple_harness_service_s.Session.Ending.Batches.{Same, Same-IsEnding}
use simple_harness_service_s.Common.{
  ◌≡◌, refl, Bool, true, false, Option, none, some, List, [], ◌∷◌, String, string_eq, nat_eq,
  pair_eq, get, contains, is_some, arith, inl, inr, Bool-cases, All,
}

-- What a step leaves, whether it goes on or not
pub record Leaves (taken : List RealtimeEvent) (r : Session × Flow) : Type 0 where
  pub ending : IsEnding taken r.0
  pub onward : r.1 ≡ go → IsEnding taken r.0

module _ (taken : List RealtimeEvent) where
  pub Triple-of_Leaves :
      (m : Step)
      → ((s : Session) → IsEnding taken s → Leaves taken (m s))
      → Triple (IsEnding taken) (IsEnding taken) (IsEnding taken) m
  Triple-of_Leaves m leaves = record {
    always = λ s r. (leaves s r).ending;
    onward = λ s r. (leaves s r).onward;
  }

  Leaves-of_Triple :
      (m : Step)
      → Triple (IsEnding taken) (IsEnding taken) (IsEnding taken) m
      → (s : Session) → IsEnding taken s
      → Leaves taken (m s)
  Leaves-of_Triple m t s r = record { ending = t.always s r; onward = t.onward s r }

  pub still : (s : Session) (flow : Flow) → IsEnding taken s → Leaves taken (s, flow)
  still s flow r = record { ending = r; onward = λ h. r }

  pub rejected : (c : Config) (s : Session) → IsEnding taken s → Leaves taken (reject c s)
  unfolding reject
  rejected c s r = record { ending = reject-IsEnding taken c s r; onward = λ h. absurd (cc) }

  pub emitted :
      (c : Config) (e : RealtimeEvent) (s : Session)
      → is_session_terminal e ≡ false
      → IsEnding taken s
      → Leaves taken (emit_or_fail c e s)
  emitted c e s plain r = Leaves-of_Triple _ (emit_or_fail-Triple taken c e plain) s r

  pub after : (s s' : Session) → Same s s' → IsEnding taken s → IsEnding taken s'
  after s s' e r = Same-IsEnding taken s s' e r

Same-remember_input :
    (i : Option RealtimeItemIdentity) (turn : String) (s : Session)
    → Same s (remember_input i turn s)
unfolding remember_input
Same-remember_input none turn s = record { output = refl; terminal = refl }
Same-remember_input (some i) turn s = record { output = ground arith; terminal = ground arith }

Same-mark :
    (c : Config) (i : Option RealtimeItemIdentity) (s : Session)
    → Same s (mark_first_transcript c i s)
unfolding mark_first_transcript
Same-mark c none s = record { output = refl; terminal = refl }
Same-mark c (some i) s = record { output = ground arith; terminal = ground arith }

Same-admit_call :
    (c : Config) (call : ToolCallRequested) (s : Session) → Same s (admit_call c call s)
unfolding admit_call
Same-admit_call c call s = record { output = refl; terminal = refl }

counted-IsEnding :
    (taken : List RealtimeEvent) (e : RealtimeEvent) (s : Session)
    → IsEnding taken s
    → IsEnding taken (count_audio e s)
counted-IsEnding taken (output_audio id pcm) s r = record {
  log = r.log;
  owned = r.owned;
  started = r.started;
}
counted-IsEnding taken e s r = r

Leaves-judged :
    (taken : List RealtimeEvent) (c : Config) (e : RealtimeEvent)
    → is_session_terminal e ≡ false
    → (v : Verdict) (s : Session) → IsEnding taken s
    → Leaves taken (deliver_judged c e v s)
unfolding deliver_judged
Leaves-judged taken c e plain late s r =
    still taken (count_late s) go
      (after taken s (count_late s) (record { output = refl; terminal = refl }) r)
Leaves-judged taken c e plain refused s r = rejected taken c s r
Leaves-judged taken c e plain passed s r =
    Leaves-of_Triple taken _
      (Triple->> _ _ (emit_or_fail-Triple taken c e plain) (
        Triple-of_Leaves taken (modify (count_audio e))
          (λ t q. still taken (count_audio e t) go (counted-IsEnding taken e t q))))
      s r

module _ (taken : List RealtimeEvent) (c : Config) (s : Session) (r : IsEnding taken s) where
  Leaves-transcript : (turn text : String) → Leaves taken (deliver_transcript c turn text s)
  unfolding deliver_transcript
  Leaves-transcript turn text =
      let i = lookup s.identity_table turn in
      let known = after taken s _ (Same-remember_input i turn s) r in
      let marked = after taken _ _ (Same-mark c i (remember_input i turn s)) known in
      elim (Bool-cases (is_completed_input i turn s)) [
        | inl old ↦ rw old (
            still taken (count_duplicate s) go
              (after taken s (count_duplicate s) (record { output = refl; terminal = refl }) r))
        | inr new ↦ rw new (emitted taken c (transcript_completed turn text) _ refl marked)
      ]

  Leaves-call :
      (identity : Option ToolCallIdentity) (call : ToolCallRequested)
      → Leaves taken (deliver_call c identity call s)
  unfolding deliver_call
  Leaves-call none call = rejected taken c s r
  Leaves-call (some identity) call =
      let stamped = record call { generation = c.generation } in
      let admitted = after taken s (admit_call c stamped s) (Same-admit_call c stamped s) r in
      elim (Bool-cases (valid_call c identity call s.conversation)) [
        | inr invalid ↦ rw invalid (rejected taken c s r)
        | inl valid ↦ rw valid (elim (Bool-cases (is_some (get s.tool_book.tools call.call_id))) [
          | inl again ↦ rw again (rejected taken c s r)
          | inr fresh ↦
              rw fresh (elim (Bool-cases (contains s.tool_book.seen_tool_calls call.call_id)) [
                | inl seen ↦ rw seen (
                    still taken (count_duplicate s) go (
                      after taken s (count_duplicate s) (record { output = refl; terminal = refl })
                        r))
                | inr unseen ↦ rw unseen (elim (Bool-cases (c.invalid_tool_arguments stamped)) [
                  | inl bad ↦ rw bad (still taken (admit_call c stamped s) go admitted)
                  | inr good ↦ rw good (
                      emitted taken c (tool_call_requested stamped) (admit_call c stamped s) refl
                        admitted)
                ])
              ])
        ])
      ]

  Leaves-output :
      (id : ContentId) (e : RealtimeEvent)
      → is_session_terminal e ≡ false
      → Leaves taken (deliver_output c id e s)
  unfolding deliver_output
  Leaves-output id e plain = Leaves-judged taken c e plain (judge_output id s.conversation) s r

  Leaves-finish : (batch : Bool) (e : ResponseFinished) → Leaves taken (deliver_finish c batch e s)
  unfolding deliver_finish
  Leaves-finish batch e =
      let event = response_finished (settled_status e s.conversation) in
      let ended =
        after taken s (end_response e.response_id s) (record { output = refl; terminal = refl })
          r in
      elim (Bool-cases (contains s.conversation.responses e.response_id)) [
        | inr unknown ↦ rw unknown (rejected taken c s r)
        | inl known ↦
            rw known (elim (Bool-cases (contains s.conversation.terminal_responses e.response_id)) [
              | inl old ↦ rw old (
                  still taken (count_duplicate s) go (
                    after taken s (count_duplicate s) (record { output = refl; terminal = refl })
                      r))
              | inr new ↦ rw new (elim (Bool-cases batch) [
                | inl b ↦
                    rw b (still taken _ go (emit_terminal_safe-IsEnding taken c event _ refl ended))
                | inr b ↦ rw b (emitted taken c event (end_response e.response_id s) refl ended)
              ])
            ])
      ]

-- A decoded batch holds no SessionClosed: the adapters make none.
abbrev pub is_closed : RealtimeEvent → Bool
is_closed (session_closed e) = true
is_closed e = false

abbrev pub NoneClosed : List RealtimeEvent → Type 0
NoneClosed = All (λ e. is_closed e ≡ false)

Leaves-deliver :
    (taken : List RealtimeEvent) (c : Config) (batch : Bool) (identity : Option ToolCallIdentity)
    (e : RealtimeEvent)
    → is_closed e ≡ false
    → (s : Session) → IsEnding taken s
    → Leaves taken (deliver c batch identity e s)
unfolding deliver
Leaves-deliver taken c batch identity (transcript_completed turn text) h s r =
    Leaves-transcript taken c s r turn text
Leaves-deliver taken c batch identity (tool_call_requested call) h s r =
    Leaves-call taken c s r identity call
Leaves-deliver taken c batch identity (output_text id text delta) h s r =
    Leaves-output taken c s r id (output_text id text delta) refl
Leaves-deliver taken c batch identity (output_audio_started id) h s r =
    Leaves-output taken c s r id (output_audio_started id) refl
Leaves-deliver taken c batch identity (output_audio id pcm) h s r =
    Leaves-output taken c s r id (output_audio id pcm) refl
Leaves-deliver taken c batch identity (output_audio_completed id) h s r =
    Leaves-output taken c s r id (output_audio_completed id) refl
Leaves-deliver taken c batch identity (response_finished e) h s r =
    Leaves-finish taken c s r batch e
Leaves-deliver taken c batch identity (session_failed e) h s r = record {
  ending =
      finish_terminal-IsEnding taken c (session_failed e) provider (disposition_of e.is_retryable) s
        refl r;
  onward = λ g. absurd (cc);
}
Leaves-deliver taken c batch identity (session_closed e) h s r = absurd (cc)
Leaves-deliver taken c batch identity (session_ready e) h s r =
    emitted taken c (session_ready e) s refl r
Leaves-deliver taken c batch identity (speech_started t) h s r =
    emitted taken c (speech_started t) s refl r
Leaves-deliver taken c batch identity (speech_stopped t) h s r =
    emitted taken c (speech_stopped t) s refl r
Leaves-deliver taken c batch identity (transcript_delta t x) h s r =
    emitted taken c (transcript_delta t x) s refl r
Leaves-deliver taken c batch identity (response_started t x) h s r =
    emitted taken c (response_started t x) s refl r
Leaves-deliver taken c batch identity (session_expiring ms) h s r =
    emitted taken c (session_expiring ms) s refl r

pub deliver_all-Ending :
    (taken : List RealtimeEvent) (c : Config) (batch : Bool) (identity : Option ToolCallIdentity)
    (events : List RealtimeEvent)
    → NoneClosed events
    → Triple
        (IsEnding taken)
        (IsEnding taken)
        (IsEnding taken)
        (deliver_all c batch identity events)
unfolding deliver_all
deliver_all-Ending taken c batch identity [] h =
    Triple-of_Leaves taken _ (λ s r. still taken s go r)
deliver_all-Ending taken c batch identity (e ∷ rest) h =
    Triple->> _ _ (Triple-of_Leaves taken _ (Leaves-deliver taken c batch identity e h.0))
      (deliver_all-Ending taken c batch identity rest h.1)
