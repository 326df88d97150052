-- ===== src/Recovery/Messages.antt =====
-- The idempotency of messages: what a claim returns before and after the message is confirmed.
use simple_harness_service_s.Text.{check_identity}
use simple_harness_service_s.Recovery.{
  Message, pending, confirmed, SessionState, RecoveryState, session_of, with_session, begin_session,
  claim_existing, claim_in, confirm_in, claim_message, confirm_message, begin_in,
}
use simple_harness_service_s.Identity.{begin_generation}
use simple_harness_service_s.Common.{
  ℕ, ◌+◌, ◌≤◌, ◌<◌, max, ◌≡◌, refl, none, some, String, string_eq, beq_refl, eq_of_beq, get, put,
  get-put, Result, ok, Option-cases, inl, inr, arith,
}

pub session_of-put :
    (id : String) (s : SessionState) (st : RecoveryState) → session_of id (put id s st) ≡ s
unfolding session_of
session_of-put id s st = rw (session_of, get-put id s st id, beq_refl id)

ok_injective : {A : Type 0} {a b : A} → ok a ≡ ok b → a ≡ b
ok_injective h = cc

pub with_session-ok :
    {A : Type 0} (id : String) (st : RecoveryState) (k : SessionState → SessionState × Result A)
    → check_identity id ≡ ok tt
    → with_session id st k ≡ (put id (k (session_of id st)).0 st, (k (session_of id st)).1)
unfolding with_session
with_session-ok id st k h = rw (with_session, h)

-- An operation that gave a result found its session's id well formed.
pub with_session-id :
    {A : Type 0} (id : String) (st : RecoveryState) (k : SessionState → SessionState × Result A)
    (a : A)
    → (with_session id st k).1 ≡ ok a
    → check_identity id ≡ ok tt
unfolding with_session
with_session-id id st k a h = ground arith

-- A session that was begun has a generation that is later than the one before it and at least the
-- minimum that was asked for, and its table is in that generation.
pub begin_session-later :
    (id : String) (minimum_generation : ℕ) (st : RecoveryState) (g : ℕ)
    → (begin_session id minimum_generation st).1 ≡ ok g
    → ((session_of id st).table.generation < g)
      × (minimum_generation ≤ g)
      × ((session_of id (begin_session id minimum_generation st).0).table.generation ≡ g)
unfolding begin_session begin_generation begin_in
begin_session-later id m st g h =
    let named = with_session-id id st (begin_in m) g h in
    let e = with_session-ok id st (begin_in m) named in
    let generation : max ((session_of id st).table.generation + 1) m ≡ g =
      ok_injective (rw e at h) in
    (
      omega (arith, generation),
      omega (arith, generation),
      rw (e, session_of-put id (begin_in m (session_of id st)).0 st) generation,
    )

confirm_in-claim :
    (key item_id : String) (s : SessionState) (e : Message)
    → check_identity key ≡ ok tt
    → get s.messages key ≡ some e
    → (claim_in key e.digest (confirm_in key item_id s).0).1 ≡ ok (some item_id)
unfolding claim_in confirm_in claim_existing
confirm_in-claim key item_id s e named found =
    let entry : Message = record e { status = confirmed; item_id = some item_id } in
    let after : SessionState = record s { messages = put key entry s.messages } in
    let confirmed_state : (confirm_in key item_id s).0 ≡ after = rw (confirm_in, found) in
    let claimed : (claim_in key e.digest after).1 ≡ ok (some item_id) = rw (
      claim_in,
      named,
      get-put key entry s.messages key,
      beq_refl key,
      claim_existing,
      beq_refl e.digest,
    ) in
    rw confirmed_state claimed

claim_in-granted :
    (key digest : String) (s : SessionState)
    → (claim_in key digest s).1 ≡ ok none
    → (check_identity key ≡ ok tt)
      × (e : Message) × (get (claim_in key digest s).0.messages key ≡ some e)
      × (e.digest ≡ digest)
unfolding claim_in claim_existing
claim_in-granted key digest s h =
    let named : check_identity key ≡ ok tt = ground arith in
    let entry : Message = record { digest = digest; status = pending; item_id = none } in
    elim (Option-cases (get s.messages key)) [
      | inl new ↦ (
        named,
        entry,
        rw (claim_in, named, new, get-put key entry s.messages key, beq_refl key),
        refl,
      )
      | inr (e, old) ↦ (
        named,
        e,
        rw (claim_in, named, old) old,
        ground (arith, h, named, old, eq_of_beq e.digest digest),
      )
    ]

claim_in-confirm :
    (key digest item_id : String) (s : SessionState)
    → (claim_in key digest s).1 ≡ ok none
    → (claim_in key digest (confirm_in key item_id (claim_in key digest s).0).0).1
      ≡ ok (some item_id)
claim_in-confirm key digest item_id s h =
    let (named, e, found, same) = claim_in-granted key digest s h in
    rw same at (confirm_in-claim key item_id (claim_in key digest s).0 e named found)

-- When a claim of a message is granted, and the message is then confirmed with an item, claiming it
-- again with the same digest returns that item.
pub claim-confirm :
    (id key digest item_id : String) (st : RecoveryState)
    → (claim_message id key digest st).1 ≡ ok none
    → (claim_message id key digest
        (confirm_message id key item_id (claim_message id key digest st).0).0).1
      ≡ ok (some item_id)
unfolding claim_message confirm_message
claim-confirm id key digest item_id st h =
    let named = with_session-id id st (claim_in key digest) none h in
    let claimed = with_session-ok id st (claim_in key digest) named in
    let s1 = (claim_in key digest (session_of id st)).0 in
    let confirm = with_session-ok id (put id s1 st) (confirm_in key item_id) named in
    let s2 = (confirm_in key item_id s1).0 in
    let again = with_session-ok id (put id s2 (put id s1 st)) (claim_in key digest) named in
    rw (claimed, confirm, session_of-put id s1 st, again, session_of-put id s2 (put id s1 st))
      (claim_in-confirm key digest item_id (session_of id st) (rw claimed at h))
