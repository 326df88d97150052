-- ===== src/Session/Requests/Bounds.antt =====
-- What the requests of a client keep: the bounds of the input queue, and the order of a conversation.
use simple_harness_service_s.Bytes.{Bytes}
use simple_harness_service_s.Session.State.{Config, Session}
use simple_harness_service_s.Session.Terminal.{last_open, current_response}
use simple_harness_service_s.Session.Conversation.{IsOrdered}
use simple_harness_service_s.Session.Conversation.Preserve.{
  with_cancelled, with_cancelled-IsOrdered,
}
use simple_harness_service_s.Session.Requests.{
  InputQueue, admit_audio, settle_audio, cancel_response,
}
use simple_harness_service_s.Common.{
  none, ◌++◌, ◌==◌, ◌||◌, All, sym, ap, ◌∙◌, subst, contains-add, ◌+◌, ◌≤◌, ◌≡◌, Bool, true, false,
  Option, some, List, [], ◌∷◌, String, string_eq, contains, length, ok, arith, Option-cases, inl,
  inr, beq_refl,
}

-- Audio that is admitted keeps the pending frames and bytes within the limits of the capability, and
-- settling it afterwards, sent or not, gives back exactly the pending counts from before.
pub admit-settle :
    (c : Config) (pcm : Bytes) (s : Session) (q q' : InputQueue) (was_sent : Bool)
    → admit_audio c pcm s q ≡ ok q'
    → (q'.input_pending_frames ≤ c.limits.input_queue_frames)
      × (q'.input_pending_bytes ≤ c.limits.input_queue_bytes)
      × ((settle_audio was_sent pcm q').input_pending_frames ≡ q.input_pending_frames)
      × ((settle_audio was_sent pcm q').input_pending_bytes ≡ q.input_pending_bytes)
unfolding admit_audio settle_audio
admit-settle c pcm s q q' true h =
    let frames : q'.input_pending_frames ≡ q.input_pending_frames + 1 = ground arith in
    let bytes : q'.input_pending_bytes ≡ q.input_pending_bytes + length pcm = ground arith in
    (ground arith, ground arith, omega (arith, frames), omega (arith, bytes))
admit-settle c pcm s q q' false h =
    let frames : q'.input_pending_frames ≡ q.input_pending_frames + 1 = ground arith in
    let bytes : q'.input_pending_bytes ≡ q.input_pending_bytes + length pcm = ground arith in
    (ground arith, ground arith, omega (arith, frames), omega (arith, bytes))

last_open-contains :
    (ended order : List String) (r : String)
    → last_open ended order ≡ some r
    → contains order r ≡ true
unfolding last_open contains
last_open-contains ended [] r h = absurd (ground arith)
last_open-contains ended (x ∷ order) r h =
    ground (arith, last_open-contains ended order r, beq_refl r)

-- The response is open, and all that came after it have ended.
pub record IsLatestOpen (ended order : List String) (r : String) : Type 0 where
  pub earlier : List String
  pub later : List String
  pub split : order ≡ earlier ++ r ∷ later
  pub open_yet : contains ended r ≡ false
  pub later_ended : All (λ x. contains ended x ≡ true) later

last_open-none :
    (ended order : List String)
    → last_open ended order ≡ none
    → All (λ x. contains ended x ≡ true) order
unfolding last_open
last_open-none ended [] h = tt
last_open-none ended (x ∷ order) h = elim (Option-cases (last_open ended order)) [
  | inl quiet ↦ (ground (arith, h, quiet), last_open-none ended order quiet)
  | inr (r, found) ↦ absurd (ground (arith, h, found))
]

last_open-latest :
    (ended order : List String) (r : String)
    → last_open ended order ≡ some r
    → IsLatestOpen ended order r
unfolding last_open
last_open-latest ended [] r h = absurd (ground arith)
last_open-latest ended (x ∷ order) r h = elim (Option-cases (last_open ended order)) [
  | inr (k, found) ↦
      let same : some k ≡ some r = ground (arith, h, found) in
      let i = last_open-latest ended order r (found ∙ same) in
      record {
        earlier = x ∷ i.earlier;
        later = i.later;
        split = ap (λ l. x ∷ l) i.split;
        open_yet = i.open_yet;
        later_ended = i.later_ended;
      }
  | inl quiet ↦
      let (same, fresh) : (x ≡ r) × (contains ended x ≡ false) = ground (arith, h, quiet) in
      record {
        earlier = [];
        later = order;
        split = ap (λ y. y ∷ order) same;
        open_yet = subst (λ y. contains ended y ≡ false) same fresh;
        later_ended = last_open-none ended order quiet;
      }
]

-- What `cancel_response` does: it cancels the latest open response and no other, or there is none.
abbrev pub Cancels : Session → Session → Option String → Type 0
Cancels s s' none =
    (s' ≡ s)
    × All (λ x. contains s.conversation.terminal_responses x ≡ true) s.conversation.response_order
Cancels s s' (some r) =
    IsLatestOpen s.conversation.terminal_responses s.conversation.response_order r
    × ((id : String)
        → contains s'.conversation.cancelled_responses id
          ≡ (r == id || contains s.conversation.cancelled_responses id))

-- An accepted cancel keeps a conversation in order. If it names a response to the provider, then this is
-- the latest open one: all responses that came after it have ended; and the response is recorded
-- as cancelled, and no other one is. If it names none, all responses have ended, and nothing changes.
pub cancel_response-IsOrdered :
    (c : Config) (s s' : Session) (r : Option String)
    → IsOrdered s.conversation
    → cancel_response c s ≡ ok (s', r)
    → IsOrdered s'.conversation × Cancels s s' r
unfolding cancel_response current_response
cancel_response-IsOrdered c s s' r o h = elim (Option-cases (current_response s)) [
  | inl nothing ↦
      let same : s ≡ s' = ground (arith, h, nothing) in
      let unnamed : none ≡ r = ground (arith, h, nothing) in
      (
        subst (λ t. IsOrdered t.conversation) same o,
        subst (Cancels s s') unnamed (
          sym same,
          last_open-none s.conversation.terminal_responses s.conversation.response_order nothing,
        ),
      )
  | inr (id, found) ↦
      let changed : with_cancelled id s.conversation ≡ s'.conversation = ground (arith, h, found) in
      let named : some id ≡ r = ground (arith, h, found) in
      let known = o.order_known id (
        last_open-contains s.conversation.terminal_responses s.conversation.response_order id
          found) in
      (
        subst IsOrdered changed (with_cancelled-IsOrdered id s.conversation known o),
        subst (Cancels s s') named (
          last_open-latest s.conversation.terminal_responses s.conversation.response_order id found,
          λ x.
              ap (λ v. contains v.cancelled_responses x) (sym changed)
              ∙ contains-add id s.conversation.cancelled_responses x,
        ),
      )
]
