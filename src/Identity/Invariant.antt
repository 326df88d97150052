-- ===== src/Identity/Invariant.antt =====
-- The invariant of the identity table, and that a new generation keeps it.
use simple_harness_service_s.Identity.{
  RealtimeItemIdentity, RealtimeIdentityTable, lookup, keep_confirmed, begin_generation,
  is_user_role, empty,
}
use simple_harness_service_s.Common.{
  ℕ, ◌≡◌, refl, true, ◌&&◌, Option, none, some, [], ◌∷◌, String, if◌then◌else◌, string_eq, contains,
  Dict, get, Distinct, arith,
}

-- All ids of an item name the same item: the id under which it stands is among its aliases, and its
-- canonical id and each of its aliases name it.
pub record IsConsistent (t : RealtimeIdentityTable) : Type 0 where
  pub distinct : Distinct t.items
  pub own :
      (k : String) (item : RealtimeItemIdentity)
      → lookup t k ≡ some item
      → contains item.aliases k ≡ true
  pub canonical :
      (k : String) (item : RealtimeItemIdentity)
      → lookup t k ≡ some item
      → lookup t item.canonical_id ≡ some item
  pub shared :
      (k : String) (item : RealtimeItemIdentity) (a : String)
      → lookup t k ≡ some item
      → contains item.aliases a ≡ true
      → lookup t a ≡ some item

abbrev pub kept : Option RealtimeItemIdentity → Option RealtimeItemIdentity
kept none = none
kept (some item) = if is_user_role item.role && item.confirmed then some item else none

get-keep_confirmed :
    (d : Dict String RealtimeItemIdentity) (k : String)
    → Distinct d
    → get (keep_confirmed d) k ≡ kept (get d k)
unfolding keep_confirmed get
get-keep_confirmed [] k u = refl
get-keep_confirmed ((a, item) ∷ d) k u =
    ground (arith, get-keep_confirmed d k u.1, get-keep_confirmed d a u.1, string_eq.beq_iff a k)

keep_confirmed-Distinct :
    (d : Dict String RealtimeItemIdentity) → Distinct d → Distinct (keep_confirmed d)
unfolding keep_confirmed
keep_confirmed-Distinct [] u = tt
keep_confirmed-Distinct ((a, item) ∷ d) u =
    ground (arith, get-keep_confirmed d a u.1, keep_confirmed-Distinct d u.1)

-- A new generation keeps exactly the confirmed user items, under all their ids.
pub lookup-begin_generation :
    (g : ℕ) (t : RealtimeIdentityTable) (k : String)
    → IsConsistent t
    → lookup (begin_generation g t) k ≡ kept (lookup t k)
unfolding begin_generation
lookup-begin_generation g t k c = get-keep_confirmed t.items k c.distinct

-- A new generation keeps the table consistent.
pub begin_generation-IsConsistent :
    (g : ℕ) (t : RealtimeIdentityTable) → IsConsistent t → IsConsistent (begin_generation g t)
begin_generation-IsConsistent g t c = record {
  distinct = unfold begin_generation in keep_confirmed-Distinct t.items c.distinct;
  own = λ k item h. ground (arith, lookup-begin_generation g t k c, c.own k item);
  canonical = λ k item h. ground (
    arith,
    lookup-begin_generation g t k c,
    lookup-begin_generation g t item.canonical_id c,
    c.canonical k item,
  );
  shared = λ k item a h m.
      ground (
        arith,
        lookup-begin_generation g t k c,
        lookup-begin_generation g t a c,
        c.shared k item a,
      );
}

pub empty-IsConsistent : IsConsistent empty
unfolding get
empty-IsConsistent = record {
  distinct = tt;
  own = λ k item h. ground arith;
  canonical = λ k item h. ground arith;
  shared = λ k item a h m. ground arith;
}
