-- ===== src/Session/Flow.antt =====
-- Steps of `_apply`: each changes the session and goes on, returns from the method, or raises an
-- exception that the method does not catch.
use simple_harness_service_s.Events.{RealtimeEvent}
use simple_harness_service_s.Session.State.{Config, Session}
use simple_harness_service_s.Session.Queue.{emit}
use simple_harness_service_s.Session.Terminal.{fail}
use simple_harness_service_s.Common.{Bool, false, if◌then◌else◌, protocol_error, busy}

pub data Flow : Type 0 where
  go : Flow
  halt : Bool → Flow
  thrown : Flow

abbrev pub Step : Type 0
Step = Session → Session × Flow

-- The rest of the method, if it is reached.
unfoldable pub resume : Flow → Step → Step
resume go next s = next s
resume (halt b) next s = (s, halt b)
resume thrown next s = (s, thrown)

infixr 5 ◌>>◌
unfoldable pub ◌>>◌ : Step → Step → Step
unfolding resume
◌>>◌ m next s = let (s', flow) = m s in resume flow next s'

abbrev pub skip : Step
skip s = (s, go)

abbrev pub return : Bool → Step
return b s = (s, halt b)

abbrev pub modify : (Session → Session) → Step
modify f s = (f s, go)

-- if test: await self._fail(PROTOCOL_ERROR, retryable=False); return False
unfoldable pub reject : Config → Step
reject c s = (fail c protocol_error false s, halt false)

unfoldable pub require : Config → Bool → Step
unfolding reject
require c test s = if test then (s, go) else reject c s

-- if not await self._emit(event): await self._fail(BUSY, retryable=False); return False
unfoldable pub emit_or_fail : Config → RealtimeEvent → Step
emit_or_fail c event s =
    let (s', queued) = emit c event s in
    if queued then (s', go) else (fail c busy false s', halt false)
