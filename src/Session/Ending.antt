-- ===== src/Session/Ending.antt =====
-- The terminal of a session: what its consumer has seen and will see holds no terminal event before
-- the terminal is published, and exactly one after.
pub mod Emit
pub mod Batches
pub mod Deliver
pub mod Whole
pub mod Rounds
pub mod Runs
use simple_harness_service_s.Events.{RealtimeEvent}
use simple_harness_service_s.Session.State.{Session}
use simple_harness_service_s.Session.Queue.{is_session_terminal}
use simple_harness_service_s.Common.{
  ℕ, suc, ◌+◌, ◌≡◌, refl, Bool, true, false, ◌||◌, not, List, [], ◌∷◌, ◌++◌, if◌then◌else◌, is_some,
  arith,
}

-- How many terminal events there are
unfoldable pub terminals : List RealtimeEvent → ℕ
terminals [] = 0
terminals (e ∷ rest) =
    let later = terminals rest in if is_session_terminal e then suc later else later

abbrev pub count_of : Bool → ℕ
count_of true = 1
count_of false = 0

pub terminals-append :
    (log rest : List RealtimeEvent) → terminals (log ++ rest) ≡ terminals log + terminals rest
unfolding terminals
terminals-append [] rest = omega arith
terminals-append (e ∷ log) rest = ground (arith, terminals-append log rest)

-- `taken` are the events that the consumer took from the queue so far.
pub record IsEnding (taken : List RealtimeEvent) (s : Session) : Type 0 where
  pub log : terminals (taken ++ s.output.events) ≡ count_of s.terminal.terminal_published
  pub owned :
      is_some s.terminal.terminal_owner ≡ (s.terminal.terminal_published || s.terminal.closing)
  pub started : (s.terminal.terminal_sequence_started || not s.terminal.terminal_published) ≡ true
