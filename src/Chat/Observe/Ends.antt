-- ===== src/Chat/Observe/Ends.antt =====
-- How many rounds the loop of `observe_until` of chat_controller.py takes.
use simple_harness_service_s.Chat.State.{ChatController, Text, timeout, active_identity}
use simple_harness_service_s.Chat.Actions.{Reply, answered, runtime_error}
use simple_harness_service_s.Chat.Observe.{
  Round, observe_once, observe_loop, observe_until, is_pending,
}
use simple_harness_service_s.Common.{
  ℕ, zero, suc, ◌+◌, ◌*◌, ◌≤◌, ◌<◌, min, ◌≡◌, refl, Bool, true, false, not, Option, none, some, [],
  ◌∷◌, ltb, if◌then◌else◌, arith, Option-cases, inl, inr,
}

-- The loop returned, with something else than a pending reply.
abbrev pub Returns : Option (ChatController × Reply) → Type 0
Returns result = (out : ChatController × Reply) × (result ≡ some out) × (is_pending out.1 ≡ false)

Returns-round :
    (late pending : Bool) (s s' : ChatController) (run command : Text) (reply : Reply)
    (rest : Option (ChatController × Reply))
    → is_pending reply ≡ pending
    → (late ≡ false → Returns rest)
    → Returns (
        if late
        then some (s, answered (timeout run command ∷ []))
        else if not pending
        then some (s', reply)
        else rest)
Returns-round true pending s s' run command reply rest p h = (_, refl, refl)
Returns-round false true s s' run command reply rest p h = h refl
Returns-round false false s s' run command reply rest p h = (_, refl, p)

-- When the round that begins at `now` has slept
abbrev woken : Round → (now delay : ℕ) → ℕ
woken r now delay = now + r.before + r.spent + delay

observe_loop-Returns :
    (fuel : ℕ) (rounds : ℕ → Round) (k now deadline delay m : ℕ) (run command : Text)
    (s : ChatController)
    → 0 < delay
    → 0 < m
    → deadline ≤ fuel + now
    → Returns (observe_loop (suc fuel) rounds k now deadline delay m run command s)
unfolding observe_loop
observe_loop-Returns zero rounds k now deadline delay m run command s first bound enough =
    let o = observe_once (now + (rounds k).before) (rounds k) s in
    Returns-round (not (ltb now deadline)) (is_pending o.1) s o.0 run command o.1 none refl
      (λ early. absurd (ground arith))
observe_loop-Returns (suc fuel) rounds k now deadline delay m run command s first bound enough =
    let o = observe_once (now + (rounds k).before) (rounds k) s in
    let later = woken (rounds k) now delay in
    Returns-round (not (ltb now deadline)) (is_pending o.1) s o.0 run command o.1
      (observe_loop (suc fuel) rounds (suc k) later deadline (min m (delay * 2)) m run command o.0)
      refl
      (λ early.
        observe_loop-Returns fuel rounds (suc k) later deadline (min m (delay * 2)) m run command
          o.0 (omega arith) bound (omega arith))

-- `observe_until` ends, whatever the client answers, however long it takes and whatever other actions
-- do meanwhile: if the first and the maximum delay are not zero, then as many rounds as the deadline
-- has ticks, and one more, are enough, and the reply is not a pending one.
pub observe_until-ends :
    (rounds : ℕ → Round) (now deadline_seconds initial_delay maximum_delay : ℕ) (s : ChatController)
    → 0 < initial_delay
    → 0 < maximum_delay
    → Returns (
        observe_until
          (suc deadline_seconds)
          rounds
          now
          deadline_seconds
          initial_delay
          maximum_delay
          s)
unfolding observe_until
observe_until-ends rounds now deadline_seconds i m s first bound =
    elim (Option-cases (active_identity s)) [
      | inl idle ↦ rw (idle, observe_until) ((s, runtime_error), refl, refl)
      | inr ((run, command), active) ↦
          rw (active, observe_until)
            (observe_loop-Returns deadline_seconds rounds 0 now (now + deadline_seconds) i m run
              command s first bound (omega arith))
    ]
