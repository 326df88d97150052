-- ===== src/Identity/Aliases.antt =====
-- The linked ids of a registration, and what writing an item at all of them does.

use simple_harness_service_s.Identity.{
  RealtimeItemIdentity, RealtimeIdentityTable, lookup, from_keys, check_links, put_all,
}
use simple_harness_service_s.Common.{
  ◌≡◌, refl, true, ◌||◌, some, List, [], ◌∷◌, String, if◌then◌else◌, string_eq, contains, Dict, get,
  put, get-put, ok, arith,
}

contains-from_keys_seen :
    (seen ids : List String) (b : String)
    → (contains seen b || contains (from_keys seen ids) b) ≡ (contains seen b || contains ids b)
unfolding from_keys contains
contains-from_keys_seen seen [] b = refl
contains-from_keys_seen seen (a ∷ ids) b = ground (
  arith,
  contains-from_keys_seen seen ids b,
  contains-from_keys_seen (a ∷ seen) ids b,
  string_eq.beq_iff a b,
)

-- `dict.fromkeys` keeps exactly the members.
pub contains-from_keys :
    (ids : List String) (b : String) → contains (from_keys [] ids) b ≡ contains ids b
unfolding contains
contains-from_keys ids b = contains-from_keys_seen [] ids b

pub get-put_all :
    (ids : List String) (item : RealtimeItemIdentity) (d : Dict String RealtimeItemIdentity)
    (k : String)
    → get (put_all ids item d) k ≡ (if contains ids k then some item else get d k)
unfolding put_all contains
get-put_all [] item d k = refl
get-put_all (a ∷ ids) item d k =
    ground (arith, get-put_all ids item (put a item d) k, get-put a item d k)

-- Where the check passes, no linked id belongs to another item.
pub check_links-canonical :
    (t : RealtimeIdentityTable) (item_id : String) (ids : List String) (k : String)
    (item : RealtimeItemIdentity)
    → check_links t item_id ids ≡ ok tt
    → contains ids k ≡ true
    → lookup t k ≡ some item
    → item.canonical_id ≡ item_id
unfolding check_links contains
check_links-canonical t item_id [] k item h c g = ground arith
check_links-canonical t item_id (a ∷ ids) k item h c g = ground (
  arith,
  check_links-canonical t item_id ids k item,
  string_eq.beq_iff a k,
  string_eq.beq_iff item.canonical_id item_id,
)
