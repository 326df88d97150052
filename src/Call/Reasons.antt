-- ===== src/Call/Reasons.antt =====
-- The reasons of `call.closed`: `_closed_reason` and `_closed_reason_for_error` of
-- realtime/local_channel.py.
use simple_harness_service_s.Events.{CloseInitiator, CloseDisposition, clean_expired, SessionClosed}
use simple_harness_service_s.Common.{
  ◌≡◌, refl, Bool, true, false, List, [], ◌∷◌, String, string_eq, contains, if◌then◌else◌,
  RealtimeErrorCode, if-split,
}

abbrev pub allowed : List String
allowed =
    "client_hangup" ∷ "app_shutdown" ∷ "session_expired" ∷ "provider_error" ∷ "network_error"
    ∷ "timeout" ∷ "protocol_error" ∷ "busy" ∷ "internal" ∷ []

unfoldable pub closed_reason_for_error : RealtimeErrorCode → String
closed_reason_for_error RealtimeErrorCode.busy = "busy"
closed_reason_for_error RealtimeErrorCode.internal = "internal"
closed_reason_for_error RealtimeErrorCode.protocol_error = "protocol_error"
closed_reason_for_error RealtimeErrorCode.session_expired = "session_expired"
closed_reason_for_error RealtimeErrorCode.timeout = "timeout"
closed_reason_for_error RealtimeErrorCode.forbidden = "provider_error"
closed_reason_for_error RealtimeErrorCode.rate_limited = "provider_error"
closed_reason_for_error RealtimeErrorCode.unauthenticated = "provider_error"
closed_reason_for_error RealtimeErrorCode.unavailable = "provider_error"
closed_reason_for_error RealtimeErrorCode.billing_rejected = "provider_error"
closed_reason_for_error RealtimeErrorCode.invalid_request = "protocol_error"
closed_reason_for_error RealtimeErrorCode.unsupported = "protocol_error"
closed_reason_for_error RealtimeErrorCode.cancelled = "internal"

-- mapping[event.initiator]
unfoldable pub reason_of_initiator : CloseInitiator → String
reason_of_initiator CloseInitiator.client = "client_hangup"
reason_of_initiator CloseInitiator.network = "network_error"
reason_of_initiator CloseInitiator.provider = "provider_error"
reason_of_initiator CloseInitiator.relay = "provider_error"
reason_of_initiator CloseInitiator.shutdown = "app_shutdown"
reason_of_initiator CloseInitiator.timed_out = "timeout"

abbrev pub is_clean_expired : CloseDisposition → Bool
is_clean_expired clean_expired = true
is_clean_expired _ = false

unfoldable pub closed_reason : SessionClosed → String
unfolding reason_of_initiator
closed_reason event =
    if contains allowed event.reason
    then event.reason
    else if is_clean_expired event.disposition
    then "session_expired"
    else reason_of_initiator event.initiator

pub error-allowed :
    (code : RealtimeErrorCode) → contains allowed (closed_reason_for_error code) ≡ true
unfolding closed_reason_for_error contains
error-allowed RealtimeErrorCode.busy = refl
error-allowed RealtimeErrorCode.internal = refl
error-allowed RealtimeErrorCode.protocol_error = refl
error-allowed RealtimeErrorCode.session_expired = refl
error-allowed RealtimeErrorCode.timeout = refl
error-allowed RealtimeErrorCode.forbidden = refl
error-allowed RealtimeErrorCode.rate_limited = refl
error-allowed RealtimeErrorCode.unauthenticated = refl
error-allowed RealtimeErrorCode.unavailable = refl
error-allowed RealtimeErrorCode.billing_rejected = refl
error-allowed RealtimeErrorCode.invalid_request = refl
error-allowed RealtimeErrorCode.unsupported = refl
error-allowed RealtimeErrorCode.cancelled = refl

initiator-allowed : (i : CloseInitiator) → contains allowed (reason_of_initiator i) ≡ true
unfolding reason_of_initiator contains
initiator-allowed CloseInitiator.client = refl
initiator-allowed CloseInitiator.network = refl
initiator-allowed CloseInitiator.provider = refl
initiator-allowed CloseInitiator.relay = refl
initiator-allowed CloseInitiator.shutdown = refl
initiator-allowed CloseInitiator.timed_out = refl

expired-allowed : contains allowed "session_expired" ≡ true
unfolding contains
expired-allowed = refl

pub closed-allowed : (event : SessionClosed) → contains allowed (closed_reason event) ≡ true
unfolding closed_reason
closed-allowed event =
    if-split (λ reason. contains allowed reason ≡ true) (contains allowed event.reason) event.reason
      (if is_clean_expired event.disposition
        then "session_expired"
        else reason_of_initiator event.initiator)
      (λ h. h)
      (λ h.
        if-split (λ reason. contains allowed reason ≡ true) (is_clean_expired event.disposition)
          "session_expired" (reason_of_initiator event.initiator) (λ e. expired-allowed)
          (λ e. initiator-allowed event.initiator))
