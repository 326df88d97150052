-- ===== src/Identity.antt =====
-- `RealtimeIdentityTable` of realtime/recovery.py: which conversation item an id names, with its
-- aliases. Ids are texts, and `check_identity` is `_identity`.
pub mod Aliases
pub mod Invariant
pub mod Register
use simple_harness_service_s.Text.{check_identity}
use simple_harness_service_s.Common.{
  ℕ, Bool, true, false, ◌&&◌, ◌||◌, not, Option, none, some, List, [], ◌∷◌, ◌++◌, String,
  if◌then◌else◌, ◌==◌, string_eq, contains, Dict, get, put, Result, ok, raise, raise_if, ◌>>=◌,
  ◌>>◌, realtime_error, protocol_error,
}

pub data Role : Type 0 where
  user assistant system : Role

pub record RealtimeItemIdentity : Type 0 where
  pub canonical_id : String
  pub role : Role
  pub source : String
  pub generation : ℕ
  pub confirmed : Bool
  pub aliases : List String
  pub origin : Option String

pub record RealtimeIdentityTable : Type 0 where
  pub generation : ℕ
  pub items : Dict String RealtimeItemIdentity

abbrev pub empty : RealtimeIdentityTable
empty = record { generation = 0; items = [] }

abbrev pub is_user_role : Role → Bool
is_user_role user = true
is_user_role _ = false

abbrev pub role_eq : Role → Role → Bool
role_eq user user = true
role_eq assistant assistant = true
role_eq system system = true
role_eq _ _ = false

unfoldable pub keep_confirmed : Dict String RealtimeItemIdentity → Dict String RealtimeItemIdentity
keep_confirmed [] = []
keep_confirmed ((alias, item) ∷ d) =
    let rest = keep_confirmed d in
    if is_user_role item.role && item.confirmed then (alias, item) ∷ rest else rest

unfoldable pub begin_generation : ℕ → RealtimeIdentityTable → RealtimeIdentityTable
unfolding keep_confirmed
begin_generation generation t = record { generation = generation; items = keep_confirmed t.items }

abbrev pub lookup : RealtimeIdentityTable → String → Option RealtimeItemIdentity
lookup t item_id = get t.items item_id

unfoldable pub is_user : RealtimeIdentityTable → String → Bool
is_user t item_id = elim (lookup t item_id) [
  | none ↦ false
  | some item ↦ is_user_role item.role && item_id == item.canonical_id
]

-- dict.fromkeys(...): the first of each, in order; `seen` holds what stands before
unfoldable pub from_keys : List String → List String → List String
from_keys seen [] = []
from_keys seen (a ∷ ids) = elim (contains seen a) [
  | true ↦ from_keys seen ids
  | false ↦ a ∷ from_keys (a ∷ seen) ids
]

-- The loop that checks the linked ids before anything is written.
unfoldable pub check_links : RealtimeIdentityTable → String → List String → Result (Unit {0})
check_links t item_id [] = ok tt
check_links t item_id (alias ∷ rest) = do
  check_identity alias
  elim (lookup t alias) [
    | none ↦ ok tt
    | some previous ↦
        raise_if (not (previous.canonical_id == item_id)) (realtime_error protocol_error false)
  ]
  check_links t item_id rest

-- The loop that writes the item at every linked id.
unfoldable pub put_all :
    List String
    → RealtimeItemIdentity
    → Dict String RealtimeItemIdentity
    → Dict String RealtimeItemIdentity
put_all [] item d = d
put_all (alias ∷ rest) item d = put_all rest item (put alias item d)

pub record Registration : Type 0 where
  pub item_id : String
  pub role : Role
  pub source : String
  pub confirmed : Bool
  pub aliases : List String
  pub origin : Option String

abbrev pub existing_aliases : Option RealtimeItemIdentity → List String
existing_aliases none = []
existing_aliases (some item) = item.aliases

abbrev pub linked_ids : Registration → Option RealtimeItemIdentity → List String
linked_ids r existing = from_keys [] (r.item_id ∷ r.aliases ++ existing_aliases existing)

-- `a or b` on an optional text: the empty text is false, too
abbrev pub or_text : Option String → String → String
or_text none b = b
or_text (some a) b = if a == "" then b else a

abbrev pub merged_confirmed : Registration → Option RealtimeItemIdentity → Bool
merged_confirmed r none = r.confirmed
merged_confirmed r (some item) =
    r.confirmed || (if role_eq item.role r.role then item.confirmed else false)

abbrev pub merged_origin : Registration → Option RealtimeItemIdentity → String
merged_origin r none = or_text r.origin r.source
merged_origin r (some item) = or_text item.origin item.source

unfoldable pub merged_item :
    RealtimeIdentityTable → Registration → Option RealtimeItemIdentity → RealtimeItemIdentity
merged_item t r existing = record {
  canonical_id = r.item_id;
  role = r.role;
  source = r.source;
  generation = t.generation;
  confirmed = merged_confirmed r existing;
  aliases = linked_ids r existing;
  origin = some (merged_origin r existing);
}

-- `register` past the test of the role
unfoldable pub link :
    RealtimeIdentityTable
    → Registration
    → Option RealtimeItemIdentity
    → Result (RealtimeItemIdentity × RealtimeIdentityTable)
link t r existing = do
  check_links t r.item_id (linked_ids r existing)
  let item = merged_item t r existing
  ok (item, record t { items = put_all (linked_ids r existing) item t.items })

-- A source that may state a role without changing one.
abbrev pub is_weak_source : String → Bool
is_weak_source source = source == "conversation_item" || source == "output_item"

unfoldable pub register :
    RealtimeIdentityTable → Registration → Result (RealtimeItemIdentity × RealtimeIdentityTable)
register t r = do
  check_identity r.item_id
  elim (lookup t r.item_id) [
    | none ↦ link t r none
    | some item ↦
        if role_eq item.role r.role
        then link t r (some item)
        else if is_weak_source r.source
        then ok (item, t)
        else raise (realtime_error protocol_error false)
  ]
