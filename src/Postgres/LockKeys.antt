-- ===== src/Postgres/LockKeys.antt =====
-- postgres/lockkeys.go. A `map[int64]struct{}` is the list of its keys in some iteration order.
pub mod Sets
pub mod Coverage
pub mod Distinct
use Prim.Native.Nat.{bit_xor}
use dcb_event_store_pg_go.Base.{
  ℕ, ◌+◌, ◌-◌, ◌*◌, ◌%◌, ◌^◌, ◌≡◌, refl, Bool, true, false, List, [], ◌∷◌, ◌++◌, Option, none, some,
  Bytes, codes, ltb, ◌==◌, if◌then◌else◌, any, ℤ, pos, negsuc,
}
use dcb_event_store_pg_go.EventStore.Condition.{AppendCondition}
use dcb_event_store_pg_go.EventStore.Decimal.{u64_mod}
use dcb_event_store_pg_go.EventStore.Event.{Event}
use dcb_event_store_pg_go.EventStore.Query.{Query, QueryItem, is_all}
use dcb_event_store_pg_go.EventStore.Tags.{values}

-- `fnv.New64a`: the offset basis and the prime of 64-bit FNV-1a.
abbrev pub fnv_offset : ℕ
fnv_offset = 14695981039346656037

abbrev pub fnv_prime : ℕ
fnv_prime = 1099511628211

-- `Write` on the state of the hash.
unfoldable pub fnv_write : Bytes → ℕ → ℕ
fnv_write [] h = h
fnv_write (b ∷ s) h = fnv_write s (bit_xor h b * fnv_prime % u64_mod)

-- The conversion of a uint64 to int64.
unfoldable pub to_int64 : ℕ → ℤ
to_int64 n = if ltb n (2 ^ 63) then pos n else negsuc (u64_mod - 1 - n)

unfoldable pub hash_key : Bytes → ℤ
unfolding fnv_write to_int64
hash_key s = to_int64 (fnv_write s fnv_offset)

unfoldable pub leaf_key : Bytes → Bytes → ℤ
leaf_key event_type tag = hash_key (codes "L:" ++ event_type ++ b'|' ∷ tag)

unfoldable pub type_intent_key : Bytes → ℤ
type_intent_key event_type = hash_key (codes "T:" ++ event_type)

unfoldable pub global_intent_key : ℤ
global_intent_key = hash_key (codes "G")

unfoldable pub eq_ℤ : ℤ → ℤ → Bool
eq_ℤ (pos a) (pos b) = a == b
eq_ℤ (negsuc a) (negsuc b) = a == b
eq_ℤ (pos a) (negsuc b) = false
eq_ℤ (negsuc a) (pos b) = false

-- The assignment `set[k] = struct{}{}`.
unfoldable pub add_key : ℤ → List ℤ → List ℤ
unfolding eq_ℤ
add_key k set = if any (eq_ℤ k) set then set else k ∷ set

-- `keysOf`, the keys in the order of the iteration.
abbrev pub keys_of : List ℤ → List ℤ
keys_of set = set

pub record WriterLockKeys : Type 0 where
  pub leaf_x : List ℤ
  pub intent_s : List ℤ

-- The loop over the tags of one type.
unfoldable pub add_leaf_tags : Bytes → List Bytes → List ℤ → List ℤ
add_leaf_tags event_type [] leaf = leaf
add_leaf_tags event_type (tag ∷ tags) leaf =
    add_leaf_tags event_type tags (add_key (leaf_key event_type tag) leaf)

-- The loop over the types of one item.
unfoldable pub add_leaf_types : List Bytes → List Bytes → List ℤ → List ℤ
add_leaf_types [] tags leaf = leaf
add_leaf_types (t ∷ types) tags leaf = add_leaf_types types tags (add_leaf_tags t tags leaf)

-- The loop over the items of a condition.
unfoldable pub add_leaf_items : List QueryItem → List ℤ → List ℤ
add_leaf_items [] leaf = leaf
add_leaf_items (item ∷ items) leaf =
    add_leaf_items items (add_leaf_types item.types (values item.tags) leaf)

unfoldable pub condition_leaf : Option AppendCondition → List ℤ
condition_leaf none = []
condition_leaf (some condition) =
    if is_all condition.fail_if_events_match
    then []
    else add_leaf_items condition.fail_if_events_match.items []

-- The loop over the events, for its two sets.
unfoldable pub add_event_leaf : List Event → List ℤ → List ℤ
add_event_leaf [] leaf = leaf
add_event_leaf (ev ∷ events) leaf =
    add_event_leaf events (add_leaf_tags ev.event_type (values ev.tags) leaf)

unfoldable pub add_event_intent : List Event → List ℤ → List ℤ
add_event_intent [] intent = intent
add_event_intent (ev ∷ events) intent =
    add_event_intent events (add_key (type_intent_key ev.event_type) intent)

unfoldable pub add_global : List Event → List ℤ → List ℤ
add_global [] intent = intent
add_global (ev ∷ events) intent = add_key global_intent_key intent

unfoldable pub compute_writer_lock_keys : List Event → Option AppendCondition → WriterLockKeys
compute_writer_lock_keys events condition = record {
  leaf_x = keys_of (add_event_leaf events (condition_leaf condition));
  intent_s = keys_of (add_global events (add_event_intent events []));
}

pub record ReaderLockKeys : Type 0 where
  pub leaf_s : List ℤ
  pub intent_x : List ℤ

unfoldable pub add_intent_types : List Bytes → List ℤ → List ℤ
add_intent_types [] intent = intent
add_intent_types (t ∷ types) intent = add_intent_types types (add_key (type_intent_key t) intent)

-- One item of a read: leaf keys if it has tags, else the intent keys of its types.
unfoldable pub read_item : List Bytes → List Bytes → ReaderLockKeys → ReaderLockKeys
read_item types [] keys = record keys { intent_x = add_intent_types types keys.intent_x }
read_item types (tag ∷ tags) keys = record keys {
  leaf_s = add_leaf_types types (tag ∷ tags) keys.leaf_s;
}

unfoldable pub read_items : List QueryItem → ReaderLockKeys → ReaderLockKeys
read_items [] keys = keys
read_items (item ∷ items) keys = read_items items (read_item item.types (values item.tags) keys)

unfoldable pub compute_reader_lock_keys : Query → ReaderLockKeys
compute_reader_lock_keys query =
    if is_all query
    then record { leaf_s = []; intent_x = global_intent_key ∷ [] }
    else read_items query.items (record { leaf_s = []; intent_x = [] })

-- The published 64-bit FNV-1a hash of "a", 0xaf63dc4c8601ec8c, as an int64.
hash_of_a : hash_key (codes "a") ≡ negsuc 5808556873153909619
unfolding hash_key
hash_of_a = refl
