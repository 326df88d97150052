-- ===== src/Chat/Observe/Once.antt =====
-- How often `observe_until` of chat_controller.py reports that a cancel is pending.
use simple_harness_service_s.Commands.{CommandSnapshot}
use simple_harness_service_s.Chat.State.{
  ChatController, Text, ChatEvent, cancel_pending, timeout, settle, active_identity,
}
use simple_harness_service_s.Chat.Reconcile.{reconcile, completed_run, reconcile_open}
use simple_harness_service_s.Chat.Actions.{Reply, answered, runtime_error}
use simple_harness_service_s.Chat.Observe.{
  Round, Observation, replies, reads, begin_observe, conclude, end_observe, finish_observe,
  keep_read, observe_once, observe_loop, observe_until, is_pending,
}
use simple_harness_service_s.Common.{
  ℕ, zero, suc, ◌+◌, ◌*◌, min, ◌≡◌, refl, Bool, true, false, not, Option, none, some, [], ◌∷◌, ltb,
  if◌then◌else◌, arith, Option-cases, inl, inr, subst,
}
use mathlib.Core.Option.{some-injective}

abbrev pub is_report : ChatEvent → Bool
is_report (cancel_pending run start id) = true
is_report event = false

-- A reply that begins with `CancelPending`
abbrev pub reports_cancel : Reply → Bool
reports_cancel (answered (event ∷ events)) = is_report event
reports_cancel _ = false

-- What other parts do during a round leaves no deadline for the report of a cancel that has none.
abbrev pub IsQuiet : Round → Type 0
IsQuiet r = (s : ChatController) → s.cancel_deadline ≡ none → (r.meanwhile s).cancel_deadline ≡ none

-- There is no deadline for a report any more, and no report was made.
abbrev pub IsSilent : ChatController × Reply → Type 0
IsSilent out = (out.0.cancel_deadline ≡ none) × (reports_cancel out.1 ≡ false)

completed_run-unlike : (start : CommandSnapshot) → is_report (completed_run start) ≡ false
unfolding completed_run
completed_run-unlike start = ground arith

open-unlike :
    (start : CommandSnapshot) (cancel : Option CommandSnapshot) (event : ChatEvent)
    → reconcile_open start cancel ≡ some event
    → is_report event ≡ false
unfolding reconcile_open
open-unlike start cancel event h = ground arith

reconcile-unlike :
    (start : CommandSnapshot) (cancel : Option CommandSnapshot) (event : ChatEvent)
    → reconcile start cancel ≡ some event
    → is_report event ≡ false
unfolding reconcile
reconcile-unlike start cancel event h =
    ground (arith, completed_run-unlike start, open-unlike start cancel event)

conclude-IsSilent :
    (run start : Text) (terminal : Option ChatEvent) (s : ChatController)
    → ((event : ChatEvent) → terminal ≡ some event → is_report event ≡ false)
    → s.cancel_deadline ≡ none
    → IsSilent (conclude run start terminal s)
unfolding conclude settle
conclude-IsSilent run start none s unlike h = (h, refl)
conclude-IsSilent run start (some event) s unlike h = (refl, ground (arith, unlike event refl))

finish-IsSilent :
    (r : Round) (o : Observation) (s : ChatController)
    → IsQuiet r
    → s.cancel_deadline ≡ none
    → ((reply : Reply) → o ≡ replies reply → reports_cancel reply ≡ false)
    → IsSilent (finish_observe r o s)
unfolding finish_observe end_observe
finish-IsSilent r (replies reply) s quiet h told = (h, told reply refl)
finish-IsSilent r (reads run start cancel) s quiet h told = elim (Option-cases r.start_read) [
  | inl lost ↦ rw (lost, finish_observe) (quiet s h, refl)
  | inr (read, found) ↦
      rw (found, finish_observe)
        (conclude-IsSilent run start _ (keep_read read _ (r.meanwhile s))
          (λ event e. reconcile-unlike read _ event e) (quiet s h))
]

begin-silent :
    (now : ℕ) (s : ChatController)
    → s.cancel_deadline ≡ none
    → ((begin_observe now s).0.cancel_deadline ≡ none)
      × ((reply : Reply) → (begin_observe now s).1 ≡ replies reply → reports_cancel reply ≡ false)
unfolding begin_observe
begin-silent now s h = ground arith

observe_once-IsSilent :
    (now : ℕ) (r : Round) (s : ChatController)
    → IsQuiet r
    → s.cancel_deadline ≡ none
    → IsSilent (observe_once now r s)
unfolding observe_once
observe_once-IsSilent now r s quiet h =
    let (deadline, told) = begin-silent now s h in
    finish-IsSilent r (begin_observe now s).1 (begin_observe now s).0 quiet deadline told

-- A round that reports a cancel takes its deadline away.
begin-reports :
    (now : ℕ) (s : ChatController) (reply : Reply)
    → (begin_observe now s).1 ≡ replies reply
    → reports_cancel reply ≡ true
    → (begin_observe now s).0.cancel_deadline ≡ none
unfolding begin_observe
begin-reports now s reply h told = ground arith

conclude-unlike :
    (run start : Text) (terminal : Option ChatEvent) (s : ChatController)
    → ((event : ChatEvent) → terminal ≡ some event → is_report event ≡ false)
    → reports_cancel (conclude run start terminal s).1 ≡ false
unfolding conclude
conclude-unlike run start none s unlike = refl
conclude-unlike run start (some event) s unlike = ground (arith, unlike event refl)

finish-reports :
    (r : Round) (o : Observation) (s : ChatController)
    → reports_cancel (finish_observe r o s).1 ≡ true
    → ((reply : Reply) → o ≡ replies reply → reports_cancel reply ≡ true → s.cancel_deadline ≡ none)
    → (finish_observe r o s).0.cancel_deadline ≡ none
unfolding finish_observe end_observe
finish-reports r (replies reply) s h gone = gone reply refl h
finish-reports r (reads run start cancel) s h gone = elim (Option-cases r.start_read) [
  | inl lost ↦ absurd (ground arith)
  | inr (read, found) ↦
      let silent : reports_cancel (finish_observe r (reads run start cancel) s).1 ≡ false =
        rw (found, finish_observe)
          (conclude-unlike run start _ (keep_read read _ (r.meanwhile s))
            (λ event e. reconcile-unlike read _ event e)) in
      absurd (ground arith)
]

reports-deadline :
    (now : ℕ) (r : Round) (s : ChatController)
    → reports_cancel (observe_once now r s).1 ≡ true
    → (observe_once now r s).0.cancel_deadline ≡ none
unfolding observe_once
reports-deadline now r s h =
    finish-reports r (begin_observe now s).1 (begin_observe now s).0 h (begin-reports now s)

-- The result of the loop, by the result of its first round
loop-cases :
    (late pending : Bool) (s s' : ChatController) (run command : Text) (reply : Reply)
    (rest : Option (ChatController × Reply)) (P : ChatController × Reply → Type 0)
    (out : ChatController × Reply)
    → P (s, answered (timeout run command ∷ []))
    → (pending ≡ false → P (s', reply))
    → (pending ≡ true → rest ≡ some out → P out)
    → (if late
        then some (s, answered (timeout run command ∷ []))
        else if not pending
        then some (s', reply)
        else rest)
      ≡ some out
    → P out
loop-cases true pending s s' run command reply rest P out a b c h = subst P (some-injective _ _ h) a
loop-cases false false s s' run command reply rest P out a b c h =
    subst P (some-injective _ _ h) (b refl)
loop-cases false true s s' run command reply rest P out a b c h = c refl h

observe_loop-IsSilent :
    (fuel : ℕ) (rounds : ℕ → Round) (k now deadline delay m : ℕ) (run command : Text)
    (s : ChatController) (out : ChatController × Reply)
    → ((j : ℕ) → IsQuiet (rounds j))
    → s.cancel_deadline ≡ none
    → observe_loop fuel rounds k now deadline delay m run command s ≡ some out
    → IsSilent out
unfolding observe_loop
observe_loop-IsSilent zero rounds k now deadline delay m run command s out quiet h ended =
    absurd (ground arith)
observe_loop-IsSilent (suc fuel) rounds k now deadline delay m run command s out quiet h ended =
    let silent = observe_once-IsSilent (now + (rounds k).before) (rounds k) s (quiet k) h in
    let o = observe_once (now + (rounds k).before) (rounds k) s in
    loop-cases (not (ltb now deadline)) (is_pending o.1) s o.0 run command o.1
      (observe_loop fuel rounds (suc k) (now + (rounds k).before + (rounds k).spent + delay)
        deadline (min m (delay * 2)) m run command o.0)
      IsSilent out (h, refl) (λ p. silent)
      (λ p.
        observe_loop-IsSilent fuel rounds (suc k)
          (now + (rounds k).before + (rounds k).spent + delay) deadline (min m (delay * 2)) m run
          command o.0 out quiet silent.0)
      ended

-- A report takes the deadline away.
abbrev pub IsSpent : ChatController × Reply → Type 0
IsSpent out = reports_cancel out.1 ≡ true → out.0.cancel_deadline ≡ none

observe_loop-IsSpent :
    (fuel : ℕ) (rounds : ℕ → Round) (k now deadline delay m : ℕ) (run command : Text)
    (s : ChatController) (out : ChatController × Reply)
    → observe_loop fuel rounds k now deadline delay m run command s ≡ some out
    → IsSpent out
unfolding observe_loop
observe_loop-IsSpent zero rounds k now deadline delay m run command s out ended =
    absurd (ground arith)
observe_loop-IsSpent (suc fuel) rounds k now deadline delay m run command s out ended =
    let o = observe_once (now + (rounds k).before) (rounds k) s in
    loop-cases (not (ltb now deadline)) (is_pending o.1) s o.0 run command o.1
      (observe_loop fuel rounds (suc k) (now + (rounds k).before + (rounds k).spent + delay)
        deadline (min m (delay * 2)) m run command o.0)
      IsSpent out (λ told. absurd (ground arith))
      (λ p. reports-deadline (now + (rounds k).before) (rounds k) s)
      (λ p.
        observe_loop-IsSpent fuel rounds (suc k)
          (now + (rounds k).before + (rounds k).spent + delay) deadline (min m (delay * 2)) m run
          command o.0 out)
      ended

until-cases :
    (identity : Option (Text × Text)) (loop : Text → Text → Option (ChatController × Reply))
    (s : ChatController) (P : ChatController × Reply → Type 0) (out : ChatController × Reply)
    → P (s, runtime_error)
    → ((run command : Text) → loop run command ≡ some out → P out)
    → (elim identity [ none ↦ some (s, runtime_error) | some (run, command) ↦ loop run command ])
      ≡ some out
    → P out
until-cases none loop s P out a b h = subst P (some-injective _ _ h) a
until-cases (some (run, command)) loop s P out a b h = b run command h

observe_until-IsSpent :
    (fuel : ℕ) (rounds : ℕ → Round) (now deadline i m : ℕ) (s : ChatController)
    (out : ChatController × Reply)
    → observe_until fuel rounds now deadline i m s ≡ some out
    → IsSpent out
unfolding observe_until
observe_until-IsSpent fuel rounds now deadline i m s out ended =
    until-cases (active_identity s)
      (λ run command. observe_loop fuel rounds 0 now (now + deadline) i m run command s) s IsSpent
      out (λ told. absurd (ground arith))
      (λ run command. observe_loop-IsSpent fuel rounds 0 now (now + deadline) i m run command s out)
      ended

observe_until-IsSilent :
    (fuel : ℕ) (rounds : ℕ → Round) (now deadline i m : ℕ) (s : ChatController)
    (out : ChatController × Reply)
    → ((j : ℕ) → IsQuiet (rounds j))
    → s.cancel_deadline ≡ none
    → observe_until fuel rounds now deadline i m s ≡ some out
    → IsSilent out
unfolding observe_until
observe_until-IsSilent fuel rounds now deadline i m s out quiet h ended =
    until-cases (active_identity s)
      (λ run command. observe_loop fuel rounds 0 now (now + deadline) i m run command s) s IsSilent
      out (h, refl)
      (λ run command.
        observe_loop-IsSilent fuel rounds 0 now (now + deadline) i m run command s out quiet h)
      ended

-- After an `observe_until` that ended with the report that a cancel is pending, the next one does not
-- end with such a report, provided that no other part sets a new deadline for one meanwhile. So two
-- phases are enough to see the end of a run or a timeout.
pub observe_until-reports_once :
    (fuel fuel' : ℕ) (rounds rounds' : ℕ → Round)
    (now now' deadline initial_delay maximum_delay : ℕ) (s s' s'' : ChatController)
    (reply reply' : Reply)
    → observe_until fuel rounds now deadline initial_delay maximum_delay s ≡ some (s', reply)
    → reports_cancel reply ≡ true
    → ((j : ℕ) → IsQuiet (rounds' j))
    → observe_until fuel' rounds' now' deadline initial_delay maximum_delay s' ≡ some (s'', reply')
    → reports_cancel reply' ≡ false
observe_until-reports_once fuel fuel' rounds rounds' now now' deadline i m s s' s'' reply reply' a
      told quiet b =
    let spent = observe_until-IsSpent fuel rounds now deadline i m s (s', reply) a told in
    (observe_until-IsSilent fuel' rounds' now' deadline i m s' (s'', reply') quiet spent b).1
