-- ===== src/Session/Context/Once.antt =====
-- A message with an idempotency key is sent once: `append_message` of realtime/session.py with
-- `claim_message` of realtime/recovery.py.
use simple_harness_service_s.Text.{check_identity}
use simple_harness_service_s.Session.State.{Config, Session}
use simple_harness_service_s.Session.Tools.{Write}
use simple_harness_service_s.Session.Context.{
  awaits, Both, AppendRequest, append_claimed, append_valid, claim_of, append_message,
  validate_context,
}
use simple_harness_service_s.Recovery.{
  Message, pending, confirmed, SessionState, RecoveryState, session_of, with_session,
  claim_existing, claim_in, claim_message, confirm_in, confirm_message, begin_in, begin_session,
}
use simple_harness_service_s.Recovery.Messages.{session_of-put, with_session-ok, with_session-id}
use simple_harness_service_s.Common.{
  ◌≡◌, ◌≢◌, refl, sym, subst, Bool, true, Option, none, some, is_some, String, string_eq, ◌==◌, get,
  get-put, beq_refl, Result, ok, raise, Option-cases, inl, inr, arith, ℕ, Exception, ◌⊎◌,
  Bool-cases, eq_of_beq,
}

-- A confirmed message has its item.
abbrev pub is_settled : Message → Bool
is_settled message = elim message.status [ pending ↦ true | confirmed ↦ is_some message.item_id ]

-- All messages of a session are settled.
abbrev pub AllSettled : String → RecoveryState → Type 0
AllSettled id st =
    (key : String) (message : Message)
    → get (session_of id st).messages key ≡ some message
    → is_settled message ≡ true

-- The key was claimed before.
abbrev pub IsClaimed : String → String → RecoveryState → Type 0
IsClaimed id key st =
    (message : Message) × (get (session_of id st).messages key ≡ some message)
    × (is_settled message ≡ true)

refused_existing :
    (digest : String) (message : Message)
    → is_settled message ≡ true
    → claim_existing digest message ≢ ok none
unfolding claim_existing
refused_existing digest message settled h = ground arith

refused_in :
    (key digest : String) (s : SessionState) (message : Message)
    → get s.messages key ≡ some message
    → is_settled message ≡ true
    → (claim_in key digest s).1 ≢ ok none
unfolding claim_in
refused_in key digest s message found settled h =
    ground (arith, refused_existing digest message settled, found, h)

granted_in :
    (key digest : String) (s : SessionState)
    → ((message : Message) → get s.messages key ≡ some message → is_settled message ≡ true)
    → (claim_in key digest s).1 ≡ ok none
    → (message : Message) × (get (claim_in key digest s).0.messages key ≡ some message)
      × (is_settled message ≡ true)
unfolding claim_in
granted_in key digest s all h =
    let named : check_identity key ≡ ok tt = ground arith in
    let entry : Message = record { digest = digest; status = pending; item_id = none } in
    elim (Option-cases (get s.messages key)) [
      | inl new ↦
          (entry, rw (claim_in, named, new, get-put key entry s.messages key, beq_refl key), refl)
      | inr (e, old) ↦ absurd (refused_in key digest s e old (all e old) h)
    ]

-- A key that was claimed is not granted again.
claim_refused :
    (id key digest : String) (st : RecoveryState)
    → IsClaimed id key st
    → (claim_message id key digest st).1 ≢ ok none
unfolding claim_message
claim_refused id key digest st (message, found, settled) h =
    let named = with_session-id id st (claim_in key digest) none h in
    let claim = with_session-ok id st (claim_in key digest) named in
    refused_in key digest (session_of id st) message found settled (rw claim at h)

granted-IsClaimed :
    (id key digest : String) (st : RecoveryState)
    → AllSettled id st
    → (claim_message id key digest st).1 ≡ ok none
    → IsClaimed id key (claim_message id key digest st).0
unfolding claim_message
granted-IsClaimed id key digest st all h =
    let named = with_session-id id st (claim_in key digest) none h in
    let claim = with_session-ok id st (claim_in key digest) named in
    let s = (claim_in key digest (session_of id st)).0 in
    rw (claim, session_of-put id s st)
      (granted_in key digest (session_of id st) (all key) (rw claim at h))

-- An append that waits for its acknowledgement was granted its claim.
awaits_claimed :
    (c : Config) (written : Write) (r : AppendRequest) (s : Session)
    (claim : RecoveryState × Result (Option String)) (e : String)
    → (append_claimed c written r.event s claim).1 ≡ awaits e
    → (claim.1 ≡ ok none) × ((append_claimed c written r.event s claim).0.1 ≡ claim.0)
unfolding append_claimed
awaits_claimed c written r s (st, raise x) e h = absurd (ground arith)
awaits_claimed c written r s (st, ok (some prior)) e h = absurd (ground arith)
awaits_claimed c written r s (st, ok none) e h = (refl, refl)

valid_granted :
    (c : Config) (written : Write) (id : String) (r : AppendRequest) (valid : Result (Unit {0}))
    (both : Both) (e : String)
    → (append_valid c written id r valid both).1 ≡ awaits e
    → ((claim_of id r.idempotency_key r.digest both.1).1 ≡ ok none)
      × ((append_valid c written id r valid both).0.1
          ≡ (claim_of id r.idempotency_key r.digest both.1).0)
unfolding append_valid
valid_granted c written id r (raise x) both e h = absurd (ground arith)
valid_granted c written id r (ok valid) (s, st) e h =
    awaits_claimed c written r s (claim_of id r.idempotency_key r.digest st) e h

-- With a key, the claim of this key was granted.
awaits_granted :
    (c : Config) (written : Write) (id key : String) (r : AppendRequest) (both : Both) (e : String)
    → r.idempotency_key ≡ some key
    → (append_message c written id r both).1 ≡ awaits e
    → ((claim_message id key r.digest both.1).1 ≡ ok none)
      × ((append_message c written id r both).0.1 ≡ (claim_message id key r.digest both.1).0)
unfolding append_message
awaits_granted c written id key r both e keyed h =
    subst
      (λ k.
        ((claim_of id k r.digest both.1).1 ≡ ok none)
        × ((append_valid c written id r (validate_context c r.text both.0) both).0.1
            ≡ (claim_of id k r.digest both.1).0))
      keyed (valid_granted c written id r (validate_context c r.text both.0) both e h)

-- What may come between two messages of a logical session, over any number of connections
pub data History (id : String) (st : RecoveryState) : RecoveryState → Type 0 where
  here : History id st st
  claim :
      {m : RecoveryState} (key digest : String)
      → History id st m
      → History id st (claim_message id key digest m).0
  confirm :
      {m : RecoveryState} (key item_id : String)
      → History id st m
      → History id st (confirm_message id key item_id m).0
  begin :
      {m : RecoveryState} (minimum_generation : ℕ)
      → History id st m
      → History id st (begin_session id minimum_generation m).0

-- The state of a session has a key claimed.
abbrev pub Claimed : String → SessionState → Type 0
Claimed key s =
    (message : Message) × (get s.messages key ≡ some message) × (is_settled message ≡ true)

named-cases : (r : Result (Unit {0})) → (r ≡ ok tt) ⊎ ((x : Exception) × (r ≡ raise x))
named-cases (ok named) = inl refl
named-cases (raise x) = inr (x, refl)

with_session-IsClaimed :
    {A : Type 0} (id key : String) (st : RecoveryState) (k : SessionState → SessionState × Result A)
    → ((s : SessionState) → Claimed key s → Claimed key (k s).0)
    → IsClaimed id key st
    → IsClaimed id key (with_session id st k).0
unfolding with_session
with_session-IsClaimed id key st k keeps claimed = elim (named-cases (check_identity id)) [
  | inl named ↦
      rw (with_session-ok id st k named, session_of-put id (k (session_of id st)).0 st)
        (keeps (session_of id st) claimed)
  | inr (x, bad) ↦ rw (bad, with_session) claimed
]

claim_in-Claimed :
    (key k digest : String) (s : SessionState) → Claimed key s → Claimed key (claim_in k digest s).0
unfolding claim_in
claim_in-Claimed key k digest s (message, found, settled) =
    let entry : Message = record { digest = digest; status = pending; item_id = none } in
    elim (Bool-cases (k == key)) [
      | inl same ↦ (message, ground (arith, eq_of_beq k key same, found), settled)
      | inr other ↦ (message, ground (arith, get-put k entry s.messages key, other, found), settled)
    ]

confirm_in-Claimed :
    (key k item_id : String) (s : SessionState)
    → Claimed key s
    → Claimed key (confirm_in k item_id s).0
unfolding confirm_in
confirm_in-Claimed key k item_id s (message, found, settled) =
    elim (Option-cases (get s.messages k)) [
      | inl missing ↦ rw (missing, confirm_in) (message, found, settled)
      | inr (e, held) ↦
          let entry : Message = record e { status = confirmed; item_id = some item_id } in
          rw (held, confirm_in)
            (elim (Bool-cases (k == key)) [
              | inl same ↦ (entry, rw (get-put k entry s.messages key, same) refl, refl)
              | inr other ↦ (message, rw (get-put k entry s.messages key, other) found, settled)
            ])
    ]

History-IsClaimed :
    (id key : String) (st st' : RecoveryState)
    → History id st st'
    → IsClaimed id key st
    → IsClaimed id key st'
unfolding claim_message confirm_message begin_session begin_in
History-IsClaimed id key st st' here claimed = claimed
History-IsClaimed id key st st' (claim {m = m} k digest past) claimed =
    with_session-IsClaimed id key m (claim_in k digest) (claim_in-Claimed key k digest)
      (History-IsClaimed id key st m past claimed)
History-IsClaimed id key st st' (confirm {m = m} k item_id past) claimed =
    with_session-IsClaimed id key m (confirm_in k item_id) (confirm_in-Claimed key k item_id)
      (History-IsClaimed id key st m past claimed)
History-IsClaimed id key st st' (begin {m = m} minimum_generation past) claimed =
    with_session-IsClaimed id key m (begin_in minimum_generation) (λ s c. c)
      (History-IsClaimed id key st m past claimed)

-- Once a message with an idempotency key was sent and waits for its acknowledgement, no message with this
-- key is sent to this logical session again: not with another text, not over another connection,
-- and whatever claims, confirmations and beginnings of the session come in between. All messages that
-- the session had confirmed before have their items.
pub append_message-once :
    (c c' : Config) (written written' : Write) (id key : String) (r r' : AppendRequest)
    (both : Both) (s' : Session) (st' : RecoveryState) (e e' : String)
    → AllSettled id both.1
    → r.idempotency_key ≡ some key
    → r'.idempotency_key ≡ some key
    → (append_message c written id r both).1 ≡ awaits e
    → History id (append_message c written id r both).0.1 st'
    → (append_message c' written' id r' (s', st')).1 ≢ awaits e'
append_message-once c c' written written' id key r r' both s' st' e e' all keyed keyed' sent past
      again =
    let (granted, state) = awaits_granted c written id key r both e keyed sent in
    let claimed =
      subst (IsClaimed id key) (sym state) (granted-IsClaimed id key r.digest both.1 all granted) in
    let (again_granted, _) = awaits_granted c' written' id key r' (s', st') e' keyed' again in
    claim_refused id key r'.digest st'
      (History-IsClaimed id key (append_message c written id r both).0.1 st' past claimed)
      again_granted
