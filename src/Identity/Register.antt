-- ===== src/Identity/Register.antt =====
-- `register`: it keeps the table consistent, and never changes the role of an item.
use simple_harness_service_s.Text.{check_identity}
use simple_harness_service_s.Identity.{
  RealtimeItemIdentity, RealtimeIdentityTable, Registration, Role, user, assistant, system, lookup,
  check_links, put_all, linked_ids, merged_item, link, register, existing_aliases, role_eq,
}
use simple_harness_service_s.Identity.Aliases.{
  contains-from_keys, get-put_all, check_links-canonical,
}
use simple_harness_service_s.Identity.Invariant.{IsConsistent}
use simple_harness_service_s.Common.{
  ◌≡◌, refl, sym, ◌∙◌, ap, subst, Bool, true, false, Option, none, some, List, [], ◌∷◌, ◌++◌,
  String, if◌then◌else◌, inl, inr, Bool-cases, ◌⊎◌, string_eq, contains, contains-cons,
  contains-append, beq_refl, Dict, put, Distinct, put-Distinct, arith, ok, >>=-eq-ok,
}

put_all-Distinct :
    (ids : List String) (item : RealtimeItemIdentity) (d : Dict String RealtimeItemIdentity)
    → Distinct d
    → Distinct (put_all ids item d)
unfolding put_all
put_all-Distinct [] item d u = u
put_all-Distinct (a ∷ ids) item d u =
    put_all-Distinct ids item (put a item d) (put-Distinct a item d u)

module _ (t : RealtimeIdentityTable) (r : Registration) where
  abbrev ids : Option RealtimeItemIdentity → List String
  ids existing = linked_ids r existing

  own_linked : (existing : Option RealtimeItemIdentity) → contains (ids existing) r.item_id ≡ true
  own_linked existing =
      contains-from_keys (r.item_id ∷ r.aliases ++ existing_aliases existing) r.item_id
      ∙ contains-cons r.item_id (r.aliases ++ existing_aliases existing) r.item_id
      ∙ rw (beq_refl r.item_id)

  alias_linked :
      (item : RealtimeItemIdentity) (k : String)
      → contains item.aliases k ≡ true
      → contains (ids (some item)) k ≡ true
  alias_linked item k h =
      contains-from_keys (r.item_id ∷ r.aliases ++ item.aliases) k
      ∙ contains-cons r.item_id (r.aliases ++ item.aliases) k
      ∙ ground (arith, contains-append r.aliases item.aliases k)

  link_lem :
      (existing : Option RealtimeItemIdentity) (item : RealtimeItemIdentity)
      (t' : RealtimeIdentityTable)
      → link t r existing ≡ ok (item, t')
      → (check_links t r.item_id (ids existing) ≡ ok tt)
        × (item ≡ merged_item t r existing)
        × (t' ≡ record t { items = put_all (ids existing) (merged_item t r existing) t.items })
  unfolding link
  link_lem existing item t' h =
      let (a, first, rest) = >>=-eq-ok (check_links t r.item_id (ids existing)) _ h in
      (first, ground arith, ground arith)

module _ (t : RealtimeIdentityTable) (r : Registration) (c : IsConsistent t)
    (checked : check_links t r.item_id (ids t r (lookup t r.item_id)) ≡ ok tt) where
  abbrev linked : List String
  linked = ids t r (lookup t r.item_id)

  abbrev written : RealtimeIdentityTable
  written = record t { items = put_all linked (merged_item t r (lookup t r.item_id)) t.items }

  lookup-written :
      (k : String)
      → lookup written k
        ≡ (if contains linked k then some (merged_item t r (lookup t r.item_id)) else lookup t k)
  lookup-written k = get-put_all linked (merged_item t r (lookup t r.item_id)) t.items k

  -- An item that has one id among the linked ones has them all there.
  whole :
      (k a : String) (item : RealtimeItemIdentity)
      → lookup t k ≡ some item
      → lookup t a ≡ some item
      → contains linked a ≡ true
      → contains linked k ≡ true
  whole k a item hk ha m =
      let same : item.canonical_id ≡ r.item_id =
        check_links-canonical t r.item_id linked a item checked m ha in
      let at : lookup t r.item_id ≡ some item =
        ap (λ (x : String). lookup t x) (sym same) ∙ c.canonical k item hk in
      rw at (alias_linked t r item k (c.own k item hk))

  apart :
      (k a : String) (item : RealtimeItemIdentity)
      → lookup t k ≡ some item
      → lookup t a ≡ some item
      → contains linked k ≡ false
      → contains linked a ≡ false
  apart k a item hk ha m = ground (arith, whole k a item hk ha)

  written-IsConsistent : IsConsistent written
  unfolding merged_item
  written-IsConsistent = record {
    distinct = put_all-Distinct linked (merged_item t r (lookup t r.item_id)) t.items c.distinct;
    own = λ k item h. ground (arith, lookup-written k, c.own k item);
    canonical = λ k item h. ground (
      arith,
      lookup-written k,
      lookup-written item.canonical_id,
      own_linked t r (lookup t r.item_id),
      c.canonical k item,
      apart k item.canonical_id item,
    );
    shared = λ k item a h m.
        ground (arith, lookup-written k, lookup-written a, c.shared k item a, apart k a item);
  }

abbrev same_role : Option RealtimeItemIdentity → Registration → Bool
same_role none r = true
same_role (some old) r = role_eq old.role r.role

-- `register` either wrote the merged item at all linked ids, or changed nothing.
register-cases :
    (t : RealtimeIdentityTable) (r : Registration) (item : RealtimeItemIdentity)
    (t' : RealtimeIdentityTable)
    → register t r ≡ ok (item, t')
    → ((t' ≡ t) × (lookup t r.item_id ≡ some item))
      ⊎ ((link t r (lookup t r.item_id) ≡ ok (item, t'))
          × (same_role (lookup t r.item_id) r ≡ true))
unfolding register
register-cases t r item t' h =
    let (a, first, rest) = >>=-eq-ok (check_identity r.item_id) _ h in ground arith

-- Registering an item keeps the table consistent: all ids of an item go on naming one item.
pub register-IsConsistent :
    (t : RealtimeIdentityTable) (r : Registration) (item : RealtimeItemIdentity)
    (t' : RealtimeIdentityTable)
    → IsConsistent t
    → register t r ≡ ok (item, t')
    → IsConsistent t'
register-IsConsistent t r item t' c h = elim (register-cases t r item t' h) [
  | inl (same, _) ↦ rw same c
  | inr (linking, _) ↦
      let (checked, _, state) = link_lem t r (lookup t r.item_id) item t' linking in
      rw state (written-IsConsistent t r c checked)
]

-- What every id that was known keeps when another registration returns.
pub record Keeps (old new : RealtimeItemIdentity) : Type 0 where
  pub same_role : role_eq new.role old.role ≡ true
  pub same_canonical : new.canonical_id ≡ old.canonical_id
  pub still_confirmed : old.confirmed ≡ true → new.confirmed ≡ true
  pub more_aliases : (a : String) → contains old.aliases a ≡ true → contains new.aliases a ≡ true

role_eq_refl : (a : Role) → role_eq a a ≡ true
role_eq_refl user = refl
role_eq_refl assistant = refl
role_eq_refl system = refl

role_eq_sym : (a b : Role) → role_eq a b ≡ true → role_eq b a ≡ true
role_eq_sym a b h = ground arith

Keeps-refl : (item : RealtimeItemIdentity) → Keeps item item
Keeps-refl item = record {
  same_role = role_eq_refl item.role;
  same_canonical = refl;
  still_confirmed = λ h. h;
  more_aliases = λ a h. h;
}

merged-Keeps :
    (t : RealtimeIdentityTable) (r : Registration) (old : RealtimeItemIdentity)
    → role_eq old.role r.role ≡ true
    → old.canonical_id ≡ r.item_id
    → Keeps old (merged_item t r (some old))
unfolding merged_item
merged-Keeps t r old same id = record {
  same_role = role_eq_sym old.role r.role same;
  same_canonical = sym id;
  still_confirmed = λ h. ground arith;
  more_aliases = λ a h. alias_linked t r old a h;
}

module _ (t : RealtimeIdentityTable) (r : Registration) (c : IsConsistent t)
    (checked : check_links t r.item_id (ids t r (lookup t r.item_id)) ≡ ok tt)
    (role : same_role (lookup t r.item_id) r ≡ true) (k : String) (old : RealtimeItemIdentity)
    (known : lookup t k ≡ some old) where
  rewritten-Keeps :
      contains (linked t r c checked) k ≡ true → Keeps old (merged_item t r (lookup t r.item_id))
  rewritten-Keeps m =
      let same : old.canonical_id ≡ r.item_id =
        check_links-canonical t r.item_id (linked t r c checked) k old checked m known in
      let at : lookup t r.item_id ≡ some old =
        ap (λ (x : String). lookup t x) (sym same) ∙ c.canonical k old known in
      let agree : role_eq old.role r.role ≡ true = ap (λ o. same_role o r) (sym at) ∙ role in
      subst (λ o. Keeps old (merged_item t r o)) (sym at) (merged-Keeps t r old agree same)

  written-Keeps :
      (new : RealtimeItemIdentity) × (lookup (written t r c checked) k ≡ some new) × Keeps old new
  written-Keeps = elim (Bool-cases (contains (linked t r c checked) k)) [
    | inl m ↦ (
      merged_item t r (lookup t r.item_id),
      ground (arith, lookup-written t r c checked k),
      rewritten-Keeps m,
    )
    | inr m ↦ (old, ground (arith, lookup-written t r c checked k), Keeps-refl old)
  ]

-- A registration that returns leaves every id known: it names an item of the same role and the same
-- canonical id, which is still confirmed if it was, and has all its aliases; the registered id names
-- the item that is returned.
pub register-Keeps :
    (t : RealtimeIdentityTable) (r : Registration) (item : RealtimeItemIdentity)
    (t' : RealtimeIdentityTable)
    → IsConsistent t
    → register t r ≡ ok (item, t')
    → (lookup t' r.item_id ≡ some item)
      × ((k : String) (old : RealtimeItemIdentity)
          → lookup t k ≡ some old
          → (new : RealtimeItemIdentity) × (lookup t' k ≡ some new) × Keeps old new)
register-Keeps t r item t' c h = elim (register-cases t r item t' h) [
  | inl (same, found) ↦ rw same (found, λ k old g. (old, g, Keeps-refl old))
  | inr (linking, role) ↦
      let (checked, result, state) = link_lem t r (lookup t r.item_id) item t' linking in
      rw (state, result)
        (
          ground
              (arith, lookup-written t r c checked r.item_id, own_linked t r (lookup t r.item_id)),
          λ k old g. written-Keeps t r c checked role k old g,
        )
]
