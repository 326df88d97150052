-- ===== src/Recovery/RoundTrip.antt =====
-- The messages of a session come back from a snapshot (realtime/recovery.py).
use simple_harness_service_s.Text.{codes, check_identity}
use simple_harness_service_s.Identity.{RealtimeIdentityTable}
use simple_harness_service_s.Recovery.{Message, MessageStatus, pending, confirmed}
use simple_harness_service_s.Recovery.Snapshot.{
  MessageValue, status_of, check_registered, check_message, all_hex, restore_messages,
}
use simple_harness_service_s.Recovery.Saved.{message_values, message_status_text}
use simple_harness_service_s.Recovery.Restored.{
  is_registered, ok-injective, Apart, Apart-first, Apart-later,
}
use simple_harness_service_s.Common.{
  true, not, ◌||◌, raise_if, value_error, >>=-eq-ok, subst, ◌≡◌, refl, sym, ap, ◌∙◌, Option, none,
  some, [], ◌∷◌, ◌++◌, append_assoc, append-nil, String, string_eq, nat_eq, ◌==◌, Dict, Distinct,
  get, put, length, ok, arith, inl,
}

-- What a message must have to be accepted: a key that is an identity, a digest of 64 hexadecimal digits,
-- and, if it is confirmed, an item that is registered.
pub record IsSavable (t : RealtimeIdentityTable) (key : String) (message : Message) : Type 0 where
  pub named : check_identity key ≡ ok tt
  pub size : (length (codes message.digest) == 64) ≡ true
  pub digits : all_hex (codes message.digest) ≡ true
  pub registered : is_registered t message ≡ true

abbrev pub AllSavable : RealtimeIdentityTable → Dict String Message → Type 0
AllSavable t [] = Unit {0}
AllSavable t ((key, message) ∷ messages) = IsSavable t key message × AllSavable t messages

status-restored :
    (status : MessageStatus) → status_of (some (message_status_text status)) ≡ ok status
unfolding status_of
status-restored pending = refl
status-restored confirmed = refl

registered-accepted :
    (t : RealtimeIdentityTable) (digest : String) (status : MessageStatus) (item_id : Option String)
    → is_registered t (record { digest = digest; status = status; item_id = item_id }) ≡ true
    → check_registered t status item_id ≡ ok tt
unfolding check_registered
registered-accepted t digest pending item_id h = refl
registered-accepted t digest confirmed none h = absurd (ground arith)
registered-accepted t digest confirmed (some id) h = ground arith

abbrev value_of : Message → MessageValue
value_of message = record {
  has_keys = true;
  digest = some message.digest;
  status = some (message_status_text message.status);
  item_id = message.item_id;
}

message-restored :
    (t : RealtimeIdentityTable) (key : String) (message : Message)
    → IsSavable t key message
    → check_message t (value_of message) ≡ ok message
unfolding check_message
message-restored t key message i =
    rw
      (
        i.size,
        i.digits,
        status-restored message.status,
        registered-accepted t message.digest message.status message.item_id i.registered,
        check_message,
      )
      refl

put-new :
    {V : Type 0} (key : String) (value : V) (d : Dict String V)
    → get d key ≡ none
    → put key value d ≡ d ++ (key, value) ∷ []
unfolding get put
put-new key value [] h = refl
put-new key value ((k, v) ∷ d) h = ground (arith, put-new key value d)

messages-restored :
    (t : RealtimeIdentityTable) (d before : Dict String Message)
    → AllSavable t d
    → Distinct d
    → Apart before d
    → restore_messages t (message_values d) before ≡ ok (before ++ d)
unfolding restore_messages message_values
messages-restored t [] before all unique apart = ap ok (sym (append-nil before))
messages-restored t ((key, message) ∷ d) before all unique apart =
    let new = Apart-first before key message d apart in
    let later =
      messages-restored t d (put key message before) all.1 unique.1
        (Apart-later before key message d message unique.0 apart) in
    rw (message-restored t key message all.0, all.0.named, restore_messages)
      (later
        ∙ ap ok (
            ap (λ l. l ++ d) (put-new key message before new)
            ∙ append_assoc before ((key, message) ∷ []) d))

accepted-registered :
    (t : RealtimeIdentityTable) (digest : String) (status : MessageStatus) (item_id : Option String)
    (done : Unit {0})
    → check_registered t status item_id ≡ ok done
    → is_registered t (record { digest = digest; status = status; item_id = item_id }) ≡ true
unfolding check_registered
accepted-registered t digest pending item_id done h = refl
accepted-registered t digest confirmed none done h = absurd (ground arith)
accepted-registered t digest confirmed (some id) done h = ground arith

-- A message that is accepted has what it must have.
accepted-savable :
    (t : RealtimeIdentityTable) (message out : Message)
    → check_message t (value_of message) ≡ ok out
    → ((length (codes message.digest) == 64) ≡ true)
      × (all_hex (codes message.digest) ≡ true)
      × (is_registered t message ≡ true)
unfolding check_message
accepted-savable t message out h =
    let (a, checked, h₁) =
      >>=-eq-ok
        (raise_if
          (not (length (codes message.digest) == 64) || not (all_hex (codes message.digest)))
          value_error)
        _ h in
    let (status, known, h₂) =
      >>=-eq-ok (status_of (some (message_status_text message.status))) _ h₁ in
    let (done, registered, h₃) = >>=-eq-ok (check_registered t status message.item_id) _ h₂ in
    let same : message.status ≡ status =
      ok-injective (sym (status-restored message.status) ∙ known) in
    (
      ground (arith, checked),
      ground (arith, checked),
      accepted-registered t message.digest message.status message.item_id done
          (subst (λ m. check_registered t m message.item_id ≡ ok done) (sym same) registered),
    )

restored-AllSavable :
    (t : RealtimeIdentityTable) (d before out : Dict String Message)
    → restore_messages t (message_values d) before ≡ ok out
    → AllSavable t d
unfolding restore_messages message_values
restored-AllSavable t [] before out h = tt
restored-AllSavable t ((key, message) ∷ d) before out h =
    let (found, accepted, h₁) = >>=-eq-ok (check_message t (value_of message)) _ h in
    let (done, named, h₂) = >>=-eq-ok (check_identity key) _ h₁ in
    let (size, digits, registered) = accepted-savable t message found accepted in
    (
      record { named = named; size = size; digits = digits; registered = registered },
      restored-AllSavable t d (put key found before) out h₂,
    )

-- The saved messages of a session are accepted again exactly if each has a key that is an identity, a
-- digest of 64 hexadecimal digits and, once confirmed, an item that the restored table has; otherwise
-- nothing is restored. What is accepted comes back as it was, in its order. The keys are those of
-- a dictionary: none stands twice.
pub restore-message_values :
    (t : RealtimeIdentityTable) (messages : Dict String Message)
    → Distinct messages
    → ((out : Dict String Message)
        → restore_messages t (message_values messages) [] ≡ ok out
        → (out ≡ messages) × AllSavable t messages)
      × (AllSavable t messages → restore_messages t (message_values messages) [] ≡ ok messages)
unfolding get
restore-message_values t messages unique =
    let back : AllSavable t messages
        → restore_messages t (message_values messages) [] ≡ ok messages =
      λ all. messages-restored t messages [] all unique (λ k. inl refl) in
    (
      λ out h.
          let all = restored-AllSavable t messages [] out h in
          (ok-injective (sym h ∙ back all), all),
      back,
    )
