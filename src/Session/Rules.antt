-- ===== src/Session/Rules.antt =====
-- Conditions of the steps of `_apply`, and the rule for what follows a step.
use simple_harness_service_s.Session.State.{Session}
use simple_harness_service_s.Session.Flow.{Flow, go, halt, thrown, Step, resume, ◌>>◌}
use simple_harness_service_s.Common.{◌≡◌, refl}

-- From a state with `P`: `R` holds whichever way the step ends, and `Q` where it goes on.
pub record Triple (P Q R : Session → Type 0) (m : Step) : Type 0 where
  pub always : (s : Session) → P s → R (m s).0
  pub onward : (s : Session) → P s → (m s).1 ≡ go → Q (m s).0

module _ {Q Q' R : Session → Type 0} where
  resume-always :
      (flow : Flow) (next : Step) (s : Session)
      → R s
      → (flow ≡ go → Q s)
      → Triple Q Q' R next
      → R (resume flow next s).0
  unfolding resume
  resume-always go next s r q t = t.always s (q refl)
  resume-always (halt b) next s r q t = r
  resume-always thrown next s r q t = r

  resume-onward :
      (flow : Flow) (next : Step) (s : Session)
      → (flow ≡ go → Q s)
      → Triple Q Q' R next
      → (resume flow next s).1 ≡ go
      → Q' (resume flow next s).0
  unfolding resume
  resume-onward go next s q t h = t.onward s (q refl) h
  resume-onward (halt b) next s q t h = cc
  resume-onward thrown next s q t h = cc

module _ {P Q Q' R : Session → Type 0} where
  pub Triple->> : (m next : Step) → Triple P Q R m → Triple Q Q' R next → Triple P Q' R (m >> next)
  unfolding ◌>>◌
  Triple->> m next a b = record {
    always = λ s p. resume-always (m s).1 next (m s).0 (a.always s p) (a.onward s p) b;
    onward = λ s p h. resume-onward (m s).1 next (m s).0 (a.onward s p) b h;
  }

-- A step that keeps `P`, however it ends.
pub Triple-of_keeps :
    {P : Session → Type 0} (m : Step) → ((s : Session) → P s → P (m s).0) → Triple P P P m
Triple-of_keeps m keep = record { always = keep; onward = λ s p h. keep s p }
