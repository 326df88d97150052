-- ===== src/Call/Closing.antt =====
-- What a call says of its end: at most one `call.closed`, and none before the terminal is claimed
-- (realtime/local_channel.py).
pub mod Handlers
pub mod Messages
use simple_harness_service_s.Bytes.{Bytes}
use simple_harness_service_s.Events.{SessionReady, SessionClosed}
use simple_harness_service_s.Call.{
  Call, Bounds, LocalMessage, call_state, call_ready, audio_ack, call_error, call_closed, Problem,
  raised, connection_lost, unexpected, Attempt, returns, times_out, raises, Ending, goes_on,
  stopped, raising, ◌▸◌, init,
}
use simple_harness_service_s.Call.Reasons.{
  allowed, closed_reason, closed_reason_for_error, error-allowed, closed-allowed,
}
use simple_harness_service_s.Call.Channel.{
  write, send_json, close_session, fail, session_ended, try_next, handle_problem,
  handle_stream_problem, leave_run,
}
use simple_harness_service_s.Common.{
  ℕ, ◌≡◌, refl, sym, ap, ◌∙◌, subst, Bool, true, false, ◌&&◌, Option, none, some, List, [], ◌∷◌,
  ◌++◌, String, string_eq, contains, arith, RealtimeErrorCode, Exception, realtime_error,
  value_error, struct_error, key_error, internal, protocol_error, if◌then◌else◌, if-split,
  Bool-cases, Option-cases, inl, inr, append_assoc,
}

-- The reason of a `call.closed`
abbrev pub reason_of : LocalMessage → List String
reason_of (call_closed reason) = reason ∷ []
reason_of _ = []

-- The reasons of the `call.closed` among some messages
unfoldable pub closings : List LocalMessage → List String
closings [] = []
closings (message ∷ messages) = reason_of message ++ closings messages

-- None, or one with an allowed reason, and then the terminal is claimed
unfoldable pub is_proper : Bool → List String → Bool
is_proper terminal [] = true
is_proper terminal (reason ∷ []) = terminal && contains allowed reason
is_proper terminal (reason ∷ other ∷ reasons) = false

abbrev pub is_allowed_reason : Option String → Bool
is_allowed_reason none = true
is_allowed_reason (some reason) = contains allowed reason

-- What was written, with what the owner of the terminal still writes, closes the call at most once.
pub record IsClosedOnce (s : Call) : Type 0 where
  pub proper : is_proper s.terminal (closings (s.written ++ s.ending)) ≡ true
  pub stop : is_allowed_reason s.requested_stop_reason ≡ true

closings-append : (a b : List LocalMessage) → closings (a ++ b) ≡ closings a ++ closings b
unfolding closings
closings-append [] b = refl
closings-append (m ∷ a) b =
    ap (λ l. reason_of m ++ l) (closings-append a b)
    ∙ sym (append_assoc (reason_of m) (closings a) (closings b))

-- A message in between two parts
closings-between :
    (a : List LocalMessage) (m : LocalMessage) (b : List LocalMessage)
    → closings (a ++ m ∷ b) ≡ closings a ++ (reason_of m ++ closings b)
unfolding closings
closings-between a m b = closings-append a (m ∷ b)

closings-written :
    (a : List LocalMessage) (m : LocalMessage) (b : List LocalMessage)
    → closings ((a ++ m ∷ []) ++ b) ≡ closings (a ++ m ∷ b)
closings-written a m b = ap closings (append_assoc a (m ∷ []) b)

-- A message that is not written after all takes no closing but its own away.
is_proper-shorter :
    (t : Bool) (a : List String) (r : String) (b : List String)
    → is_proper t (a ++ r ∷ b) ≡ true
    → is_proper t (a ++ b) ≡ true
unfolding is_proper
is_proper-shorter t [] r [] h = refl
is_proper-shorter t [] r (x ∷ b) h = absurd (ground arith)
is_proper-shorter t (x ∷ []) r b h = absurd (ground arith)
is_proper-shorter t (x ∷ y ∷ a) r b h = absurd (ground arith)

is_proper-without :
    (t : Bool) (a b : List String) (m : LocalMessage)
    → is_proper t (a ++ (reason_of m ++ b)) ≡ true
    → is_proper t (a ++ b) ≡ true
is_proper-without t a b (call_closed reason) h = is_proper-shorter t a reason b h
is_proper-without t a b (call_state x) h = h
is_proper-without t a b (call_ready x y z) h = h
is_proper-without t a b (audio_ack x) h = h
is_proper-without t a b (call_error x y) h = h

-- The claim of a terminal that is unclaimed
is_proper-open : (l m : List String) → is_proper false (l ++ m) ≡ true → l ≡ []
unfolding is_proper
is_proper-open [] m h = refl
is_proper-open (r ∷ []) [] h = absurd (ground arith)
is_proper-open (r ∷ []) (x ∷ m) h = absurd (ground arith)
is_proper-open (r ∷ x ∷ l) m h = absurd (ground arith)

pub write-IsClosedOnce :
    (m : LocalMessage) (s : Call) → reason_of m ≡ [] → IsClosedOnce s → IsClosedOnce (write m s)
write-IsClosedOnce m s h c = record {
  proper =
      ap (is_proper s.terminal) (
        closings-written s.written m s.ending
        ∙ (closings-between s.written m s.ending
            ∙ (ap (λ l. closings s.written ++ (l ++ closings s.ending)) h
                ∙ sym (closings-append s.written s.ending))))
      ∙ c.proper;
  stop = c.stop;
}

pub send_json-IsClosedOnce :
    (a : Attempt) (m : LocalMessage) (s : Call)
    → reason_of m ≡ []
    → IsClosedOnce s
    → IsClosedOnce (send_json a m s).0
unfolding send_json
send_json-IsClosedOnce returns m s h c = write-IsClosedOnce m s h c
send_json-IsClosedOnce times_out m s h c = c
send_json-IsClosedOnce (raises p) m s h c = c

-- Nothing that closes was written before the terminal is claimed.
none_written : (s : Call) → IsClosedOnce s → s.terminal ≡ false → closings s.written ≡ []
none_written s c unclaimed = is_proper-open (closings s.written) (closings s.ending) (
    subst (λ t. is_proper t (closings s.written ++ closings s.ending) ≡ true) unclaimed
      (ap (is_proper s.terminal) (sym (closings-append s.written s.ending)) ∙ c.proper))

-- A claim, with the messages that its owner is to send
claimed-proper :
    (s : Call) (messages : List LocalMessage) (reason : String)
    → IsClosedOnce s
    → s.terminal ≡ false
    → closings messages ≡ reason ∷ []
    → contains allowed reason ≡ true
    → is_proper true (closings (s.written ++ messages)) ≡ true
unfolding is_proper
claimed-proper s messages reason c unclaimed only good =
    ap (is_proper true) (
      closings-append s.written messages
      ∙ (ap (λ l. l ++ closings messages) (none_written s c unclaimed) ∙ only))
    ∙ good

pub fail-IsClosedOnce :
    (code : RealtimeErrorCode) (retryable : Bool) (s : Call)
    → IsClosedOnce s
    → IsClosedOnce (fail code retryable s)
unfolding fail closings
fail-IsClosedOnce code retryable s c =
    let messages =
      call_state "error"
      ∷ call_error code retryable
      ∷ call_closed (closed_reason_for_error code)
      ∷ [] in
    if-split IsClosedOnce s.terminal s
      (record s { terminal = true; has_session = false; ending = messages }) (λ over. c)
      (λ unclaimed. record {
        proper =
            claimed-proper s messages (closed_reason_for_error code) c unclaimed refl
              (error-allowed code);
        stop = c.stop;
      })

-- The reason that a closed session is told with
told-allowed :
    (requested : Option String) (event : SessionClosed)
    → is_allowed_reason requested ≡ true
    → contains allowed (elim requested [ none ↦ closed_reason event | some r ↦ r ]) ≡ true
told-allowed none event h = closed-allowed event
told-allowed (some r) event h = h

pub session_ended-IsClosedOnce :
    (event : SessionClosed) (s : Call) → IsClosedOnce s → IsClosedOnce (session_ended event s)
unfolding session_ended closings
session_ended-IsClosedOnce event s c =
    let reason : String = elim s.requested_stop_reason [
      | none ↦ closed_reason event
      | some r ↦ r
    ] in
    if-split IsClosedOnce s.terminal s
      (record s { terminal = true; ending = call_closed reason ∷ [] }) (λ over. c)
      (λ unclaimed. record {
        proper =
            claimed-proper s (call_closed reason ∷ []) reason c unclaimed refl
              (told-allowed s.requested_stop_reason event c.stop);
        stop = c.stop;
      })

try-proper :
    (is_sent t : Bool) (w : List LocalMessage) (m : LocalMessage) (rest : List LocalMessage)
    → is_proper t (closings (w ++ m ∷ rest)) ≡ true
    → is_proper t (closings ((if is_sent then w ++ m ∷ [] else w) ++ rest)) ≡ true
try-proper true t w m rest h = ap (is_proper t) (closings-written w m rest) ∙ h
try-proper false t w m rest h =
    ap (is_proper t) (closings-append w rest)
    ∙ is_proper-without t (closings w) (closings rest) m
        (ap (is_proper t) (sym (closings-between w m rest)) ∙ h)

try-IsClosedOnce :
    (is_sent : Bool) (l : List LocalMessage) (s : Call)
    → s.ending ≡ l
    → IsClosedOnce s
    → IsClosedOnce (try_next is_sent s)
unfolding try_next
try-IsClosedOnce is_sent [] s e c = rw (e, try_next) c
try-IsClosedOnce true (m ∷ rest) s e c =
    rw (e, try_next)
      (record {
        proper =
            try-proper true s.terminal s.written m rest
              (subst (λ l. is_proper s.terminal (closings (s.written ++ l)) ≡ true) e c.proper);
        stop = c.stop;
      })
try-IsClosedOnce false (m ∷ rest) s e c =
    rw (e, try_next)
      (record {
        proper =
            try-proper false s.terminal s.written m rest
              (subst (λ l. is_proper s.terminal (closings (s.written ++ l)) ≡ true) e c.proper);
        stop = c.stop;
      })

pub try_next-IsClosedOnce :
    (is_sent : Bool) (s : Call) → IsClosedOnce s → IsClosedOnce (try_next is_sent s)
try_next-IsClosedOnce is_sent s c = try-IsClosedOnce is_sent s.ending s refl c

pub handle_problem-IsClosedOnce :
    (p : Problem) (s : Call) → IsClosedOnce s → IsClosedOnce (handle_problem p s)
unfolding handle_problem
handle_problem-IsClosedOnce connection_lost s c = record { proper = c.proper; stop = c.stop }
handle_problem-IsClosedOnce unexpected s c = fail-IsClosedOnce internal false s c
handle_problem-IsClosedOnce (raised (realtime_error code retryable)) s c =
    fail-IsClosedOnce code retryable s c
handle_problem-IsClosedOnce (raised value_error) s c = fail-IsClosedOnce protocol_error false s c
handle_problem-IsClosedOnce (raised struct_error) s c = fail-IsClosedOnce internal false s c
handle_problem-IsClosedOnce (raised key_error) s c = fail-IsClosedOnce internal false s c

pub handle_stream_problem-IsClosedOnce :
    (p : Problem) (s : Call) → IsClosedOnce s → IsClosedOnce (handle_stream_problem p s)
unfolding handle_stream_problem
handle_stream_problem-IsClosedOnce connection_lost s c = fail-IsClosedOnce internal false s c
handle_stream_problem-IsClosedOnce unexpected s c = fail-IsClosedOnce internal false s c
handle_stream_problem-IsClosedOnce (raised (realtime_error code retryable)) s c =
    fail-IsClosedOnce code retryable s c
handle_stream_problem-IsClosedOnce (raised value_error) s c = fail-IsClosedOnce internal false s c
handle_stream_problem-IsClosedOnce (raised struct_error) s c = fail-IsClosedOnce internal false s c
handle_stream_problem-IsClosedOnce (raised key_error) s c = fail-IsClosedOnce internal false s c
