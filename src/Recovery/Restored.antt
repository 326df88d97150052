-- ===== src/Recovery/Restored.antt =====
-- What `from_snapshot` of realtime/recovery.py makes of any value that it accepts.
use simple_harness_service_s.Text.{codes, check_identity}
use simple_harness_service_s.Identity.{RealtimeIdentityTable, register, lookup}
use simple_harness_service_s.Identity.Invariant.{IsConsistent, empty-IsConsistent}
use simple_harness_service_s.Identity.Register.{register-IsConsistent}
use simple_harness_service_s.Recovery.{
  SessionState, RecoveryState, Message, MessageStatus, pending, confirmed, fresh, session_of,
}
use simple_harness_service_s.Recovery.Snapshot.{
  ItemValue, MessageValue, SessionValue, SnapshotValue, typed, identities, check_item, restore_item,
  restore_items, status_of, check_registered, check_message, restore_messages, Collections,
  collections, session_generation, fill_session, restore_session, restore_sessions, from_snapshot,
  all_hex,
}
use mathlib.Core.Option.{some-injective}
use simple_harness_service_s.Common.{
  ℕ, ◌≡◌, refl, sym, ap, subst, Bool, true, false, not, ◌||◌, Option, none, some, is_some, List, [],
  ◌∷◌, String, string_eq, nat_eq, ◌==◌, Dict, get, put, get-put, Distinct, length, ltb, Result, ok,
  raise, raise_if, value_error, >>=-eq-ok, arith, Option-cases, ◌⊎◌, ◌∙◌, inl, inr, if◌then◌else◌,
}

-- The item of a confirmed message is registered.
abbrev pub is_registered : RealtimeIdentityTable → Message → Bool
is_registered t message = elim message.status [
  | pending ↦ true
  | confirmed ↦ elim message.item_id [ none ↦ false | some id ↦ is_some (lookup t id) ]
]

-- All ids of an item name one item, and every confirmed message names a registered item.
pub record IsRestored (s : SessionState) : Type 0 where
  pub table : IsConsistent s.table
  pub messages :
      (key : String) (message : Message)
      → get s.messages key ≡ some message
      → is_registered s.table message ≡ true

abbrev value_of {ℓ} : {A : Type ℓ} → A → Result A → A
value_of default (raise x) = default
value_of default (ok a) = a

pub ok-injective {ℓ} : {A : Type ℓ} {a b : A} → Path (Result A) (ok a) (ok b) → a ≡ b
ok-injective {a = a} h = ap (value_of a) h

restore_item-IsConsistent :
    (generation : ℕ) (item : ItemValue) (t t' : RealtimeIdentityTable)
    → IsConsistent t
    → restore_item generation item t ≡ ok t'
    → IsConsistent t'
unfolding restore_item
restore_item-IsConsistent generation item t t' c h =
    let ((of_item, r), checked, rest) = >>=-eq-ok (check_item generation item) _ h in
    let ((registered, u), linked, last) =
      >>=-eq-ok (register (record t { generation = of_item }) r) _ rest in
    let c' : IsConsistent u =
      register-IsConsistent (record t { generation = of_item }) r registered u
        (record { distinct = c.distinct; own = c.own; canonical = c.canonical; shared = c.shared })
        linked in
    subst IsConsistent (ok-injective last) (record {
      distinct = c'.distinct;
      own = c'.own;
      canonical = c'.canonical;
      shared = c'.shared;
    })

restore_items-IsConsistent :
    (generation : ℕ) (items : List ItemValue) (t t' : RealtimeIdentityTable)
    → IsConsistent t
    → restore_items generation items t ≡ ok t'
    → IsConsistent t'
unfolding restore_items
restore_items-IsConsistent generation [] t t' c h = subst IsConsistent (ok-injective h) c
restore_items-IsConsistent generation (item ∷ items) t t' c h =
    let (u, first, rest) = >>=-eq-ok (restore_item generation item t) _ h in
    restore_items-IsConsistent generation items u t'
      (restore_item-IsConsistent generation item t u c first) rest

-- A message that is accepted is registered, where it is confirmed.
status-registered :
    (t : RealtimeIdentityTable) (status : MessageStatus) (digest : String) (item_id : Option String)
    → check_registered t status item_id ≡ ok tt
    → is_registered t (record { digest = digest; status = status; item_id = item_id }) ≡ true
unfolding check_registered
status-registered t pending digest item_id h = refl
status-registered t confirmed digest none h = absurd (ground arith)
status-registered t confirmed digest (some id) h = ground arith

check_message-registered :
    (t : RealtimeIdentityTable) (value : MessageValue) (message : Message)
    → check_message t value ≡ ok message
    → is_registered t message ≡ true
unfolding check_message
check_message-registered t value message h =
    let (a, keys, h₁) = >>=-eq-ok (raise_if (not value.has_keys) value_error) _ h in
    let (digest, typed_digest, h₂) = >>=-eq-ok (typed value.digest) _ h₁ in
    let (b, hex, h₃) =
      >>=-eq-ok
        (raise_if (not (length (codes digest) == 64) || not (all_hex (codes digest))) value_error) _
        h₂ in
    let (status, known, h₄) = >>=-eq-ok (status_of value.status) _ h₃ in
    let (u, registered, h₅) = >>=-eq-ok (check_registered t status value.item_id) _ h₄ in
    subst (λ m. is_registered t m ≡ true) (ok-injective h₅)
      (status-registered t status digest value.item_id registered)

-- A table of messages whose confirmed ones are registered
abbrev AllRegistered : RealtimeIdentityTable → Dict String Message → Type 0
AllRegistered t messages =
    (key : String) (message : Message)
    → get messages key ≡ some message
    → is_registered t message ≡ true

put-cases {ℓ} :
    {A : Type ℓ} (b : Bool) (new a : A) (old : Option A)
    → (if b then some new else old) ≡ some a
    → (new ≡ a) ⊎ (old ≡ some a)
put-cases true new a old h = inl (some-injective new a h)
put-cases false new a old h = inr h

put-AllRegistered :
    (t : RealtimeIdentityTable) (key : String) (message : Message) (messages : Dict String Message)
    → is_registered t message ≡ true
    → AllRegistered t messages
    → AllRegistered t (put key message messages)
put-AllRegistered t key message messages good all k m found =
    elim (put-cases (key == k) message m (get messages k)
      (sym (get-put key message messages k) ∙ found)) [
        | inl same ↦ subst (λ x. is_registered t x ≡ true) same good
        | inr kept ↦ all k m kept
      ]

restore_messages-AllRegistered :
    (t : RealtimeIdentityTable) (values : Dict String MessageValue)
    (messages out : Dict String Message)
    → AllRegistered t messages
    → restore_messages t values messages ≡ ok out
    → AllRegistered t out
unfolding restore_messages
restore_messages-AllRegistered t [] messages out all h =
    subst (AllRegistered t) (ok-injective h) all
restore_messages-AllRegistered t ((key, value) ∷ values) messages out all h =
    let (message, checked, h₁) = >>=-eq-ok (check_message t value) _ h in
    let (u, identified, h₂) = >>=-eq-ok (check_identity key) _ h₁ in
    restore_messages-AllRegistered t values (put key message messages) out
      (put-AllRegistered t key message messages (check_message-registered t value message checked)
        all)
      h₂

-- A recovery state whose sessions are all restored
abbrev pub AreRestored : RecoveryState → Type 0
AreRestored st = (key : String) (s : SessionState) → get st key ≡ some s → IsRestored s

fresh-IsRestored : IsRestored fresh
unfolding get
fresh-IsRestored = record {
  table = empty-IsConsistent;
  messages = λ key message h. absurd (ground arith);
}

session_of-IsRestored :
    (key : String) (st : RecoveryState) → AreRestored st → IsRestored (session_of key st)
unfolding session_of
session_of-IsRestored key st all = elim (Option-cases (get st key)) [
  | inl new ↦ rw (new, session_of) fresh-IsRestored
  | inr (s, found) ↦ rw (found, session_of) (all key s found)
]

put-AreRestored :
    (key : String) (new : SessionState) (st : RecoveryState)
    → IsRestored new
    → AreRestored st
    → AreRestored (put key new st)
put-AreRestored key new st good all k s found =
    elim (put-cases (key == k) new s (get st k) (sym (get-put key new st k) ∙ found)) [
      | inl same ↦ subst IsRestored same good
      | inr kept ↦ all k s kept
    ]

-- In a session that starts with no messages, all that is restored is registered.
fill_session-IsRestored :
    (generation : ℕ) (c : Collections) (s s' : SessionState)
    → IsConsistent s.table
    → s.messages ≡ []
    → fill_session generation c s ≡ ok s'
    → IsRestored s'
unfolding fill_session get
fill_session-IsRestored generation c s s' start new h =
    let t : RealtimeIdentityTable = record s.table { generation = generation } in
    let (table, filled, h₁) = >>=-eq-ok (restore_items generation c.items t) _ h in
    let (calls, called, h₂) = >>=-eq-ok (identities c.calls) _ h₁ in
    let (inputs, put_in, h₃) = >>=-eq-ok (identities c.inputs) _ h₂ in
    let (messages, sent, h₄) = >>=-eq-ok (restore_messages table c.messages s.messages) _ h₃ in
    subst IsRestored (ok-injective h₄) (record {
      table =
          restore_items-IsConsistent generation c.items t table
            (record {
              distinct = start.distinct;
              own = start.own;
              canonical = start.canonical;
              shared = start.shared;
            })
            filled;
      messages =
          restore_messages-AllRegistered table c.messages s.messages messages
            (subst (AllRegistered table) (sym new) (λ key message e. absurd (ground arith))) sent;
    })

-- No key stands both among the sessions restored and among those to come.
abbrev pub Apart : {V W : Type 0} → Dict String V → Dict String W → Type 0
Apart st values = (k : String) → (get st k ≡ none) ⊎ (get values k ≡ none)

pub Apart-first :
    {V W : Type 0} (st : Dict String V) (key : String) (value : W) (values : Dict String W)
    → Apart st ((key, value) ∷ values)
    → get st key ≡ none
unfolding get
Apart-first st key value values apart = ground (arith, apart key, string_eq.beq_iff key key)

pub Apart-later :
    {V W : Type 0} (st : Dict String V) (key : String) (value : W) (values : Dict String W) (s : V)
    → get values key ≡ none
    → Apart st ((key, value) ∷ values)
    → Apart (put key s st) values
unfolding get
Apart-later st key value values s alone apart k =
    ground (arith, get-put key s st k, apart k, string_eq.beq_iff key k)

fresh-session : (st : RecoveryState) (key : String) → get st key ≡ none → session_of key st ≡ fresh
unfolding session_of
fresh-session st key h = rw (h, session_of) refl

restore_session-IsRestored :
    (key : String) (value : SessionValue) (st st' : RecoveryState)
    → AreRestored st
    → get st key ≡ none
    → restore_session key value st ≡ ok st'
    → (s : SessionState) × (st' ≡ put key s st) × IsRestored s
unfolding restore_session
restore_session-IsRestored key value st st' all new h =
    let (generation, counted, h₁) = >>=-eq-ok (session_generation value) _ h in
    let (u, identified, h₂) = >>=-eq-ok (check_identity key) _ h₁ in
    let (c, collected, h₃) = >>=-eq-ok (collections value) _ h₂ in
    let (s, filled, h₄) = >>=-eq-ok (fill_session generation c (session_of key st)) _ h₃ in
    (
      s,
      sym (ok-injective h₄),
      fill_session-IsRestored generation c fresh s empty-IsConsistent refl
          (subst (λ x. fill_session generation c x ≡ ok s) (fresh-session st key new) filled),
    )

restore_sessions-AreRestored :
    (values : Dict String SessionValue) (st st' : RecoveryState)
    → Distinct values
    → Apart st values
    → AreRestored st
    → restore_sessions values st ≡ ok st'
    → AreRestored st'
unfolding restore_sessions
restore_sessions-AreRestored [] st st' unique apart all h = subst AreRestored (ok-injective h) all
restore_sessions-AreRestored ((key, value) ∷ values) st st' unique apart all h =
    let (m, first, rest) = >>=-eq-ok (restore_session key value st) _ h in
    let (s, state, good) =
      restore_session-IsRestored key value st m all (Apart-first st key value values apart) first in
    restore_sessions-AreRestored values (put key s st) st' unique.1
      (Apart-later st key value values s unique.0 apart) (put-AreRestored key s st good all)
      (subst (λ x. restore_sessions values x ≡ ok st') state rest)

-- Whatever snapshot is accepted, in every session that it restores all ids of an item name one item, and
-- every confirmed message names an item that is registered. The keys of the sessions are those of a
-- dictionary: none stands twice.
pub from_snapshot-AreRestored :
    (value : SnapshotValue) (sessions : Dict String SessionValue) (st : RecoveryState)
    → value.sessions ≡ some sessions
    → Distinct sessions
    → from_snapshot value ≡ ok st
    → AreRestored st
unfolding from_snapshot get
from_snapshot-AreRestored value sessions st held unique h =
    let (a, keys, h₁) = >>=-eq-ok (raise_if (not value.has_keys) value_error) _ h in
    let (version, numbered, h₂) = >>=-eq-ok (typed value.schema_version) _ h₁ in
    let (b, current, h₃) = >>=-eq-ok (raise_if (not (version == 1)) value_error) _ h₂ in
    let (found, typed_sessions, h₄) = >>=-eq-ok (typed value.sessions) _ h₃ in
    let (c, small, h₅) = >>=-eq-ok (raise_if (ltb 1024 (length found)) value_error) _ h₄ in
    let same : found ≡ sessions = ok-injective (sym typed_sessions ∙ ap typed held) in
    restore_sessions-AreRestored sessions [] st unique (λ k. inl refl)
      (λ k s e. absurd (ground arith)) (subst (λ x. restore_sessions x [] ≡ ok st) same h₅)
