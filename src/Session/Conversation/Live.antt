-- ===== src/Session/Conversation/Live.antt =====
-- Live responses: those that have not ended.
use simple_harness_service_s.Session.State.{Conversation}
use simple_harness_service_s.Session.Apply.{live_responses, all_in, may_introduce}
use simple_harness_service_s.Common.{
  ◌≡◌, ◌≤◌, suc, refl, true, false, ◌&&◌, not, List, [], ◌∷◌, String, string_eq, contains, add,
  contains-add, length, arith,
}

pub contains-live :
    (ended rs : List String) (r : String)
    → contains (live_responses ended rs) r ≡ (contains rs r && not (contains ended r))
unfolding live_responses contains
contains-live ended [] r = refl
contains-live ended (q ∷ rs) r = ground (arith, contains-live ended rs r, string_eq.beq_iff q r)

-- Ending one more response leaves no more of them live.
pub length-live-add-le :
    (e : String) (ended rs : List String)
    → length (live_responses (add e ended) rs) ≤ length (live_responses ended rs)
unfolding live_responses
length-live-add-le e ended [] = omega arith
length-live-add-le e ended (q ∷ rs) =
    ground (arith, length-live-add-le e ended rs, contains-add e ended q)

pub length-live-introduce :
    (r : String) (ended rs : List String)
    → contains rs r ≡ false
    → length (live_responses ended (add r rs)) ≤ suc (length (live_responses ended rs))
unfolding live_responses add
length-live-introduce r ended rs new = ground arith

all_in-contains :
    (set rs : List String) (r : String)
    → all_in set rs ≡ true
    → contains rs r ≡ true
    → contains set r ≡ true
unfolding all_in contains
all_in-contains set [] r h m = ground arith
all_in-contains set (q ∷ rs) r h m = ground (arith, all_in-contains set rs r, string_eq.beq_iff q r)

-- What the test on a new response guarantees.
pub record MayStart (r : String) (v : Conversation) : Type 0 where
  pub new : contains v.responses r ≡ false
  pub not_ended : contains v.terminal_responses r ≡ false
  pub room : length (live_responses v.terminal_responses v.responses) ≤ 1
  pub others_cancelled :
      (q : String)
      → contains v.responses q ≡ true
      → contains v.terminal_responses q ≡ false
      → contains v.cancelled_responses q ≡ true

pub may_introduce-MayStart :
    (r : String) (v : Conversation) → may_introduce r v ≡ true → MayStart r v
unfolding may_introduce
may_introduce-MayStart r v h =
    let live = live_responses v.terminal_responses v.responses in
    record {
      new = ground arith;
      not_ended = ground arith;
      room = ground arith;
      others_cancelled = λ q k u.
          all_in-contains v.cancelled_responses live q (ground arith)
            (ground (arith, contains-live v.terminal_responses v.responses q));
    }
