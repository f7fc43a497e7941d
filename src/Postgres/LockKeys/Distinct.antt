-- ===== src/Postgres/LockKeys/Distinct.antt =====
-- The key sets of lockkeys.go hold no key twice.
use dcb_event_store_pg_go.Base.{
  ◌≡◌, refl, List, [], ◌∷◌, Bytes, any, any_complete, Bool-cases, inl, inr, true, Memᴰ, ℤ, pos,
  negsuc, ==_iff,
}
use dcb_event_store_pg_go.EventStore.Query.{Query, QueryItem, is_all}
use dcb_event_store_pg_go.EventStore.Tags.{values}
use dcb_event_store_pg_go.Postgres.LockKeys.{
  eq_ℤ, add_key, leaf_key, type_intent_key, add_leaf_tags, add_leaf_types, add_intent_types,
  ReaderLockKeys, read_item, read_items, compute_reader_lock_keys,
}

abbrev pub DistinctKeys : List ℤ → Type 0
DistinctKeys [] = Unit
DistinctKeys (k ∷ keys) = (¬ Memᴰ k keys) × DistinctKeys keys

pub eq_ℤ_refl : (k : ℤ) → eq_ℤ k k ≡ true
unfolding eq_ℤ
eq_ℤ_refl (pos n) = (==_iff n n).1 refl
eq_ℤ_refl (negsuc n) = (==_iff n n).1 refl

pub add_key-DistinctKeys : (k : ℤ) (set : List ℤ) → DistinctKeys set → DistinctKeys (add_key k set)
unfolding add_key
add_key-DistinctKeys k set d = elim (Bool-cases (any (eq_ℤ k) set)) [
  | inl e ↦ rw e d
  | inr e ↦ rw e ((λ m. cc (any_complete (eq_ℤ k) k m (eq_ℤ_refl k))), d)
]

add_leaf_tags-DistinctKeys :
    (t : Bytes) (tags : List Bytes) (set : List ℤ)
    → DistinctKeys set
    → DistinctKeys (add_leaf_tags t tags set)
unfolding add_leaf_tags
add_leaf_tags-DistinctKeys t [] set d = d
add_leaf_tags-DistinctKeys t (tag ∷ tags) set d =
    add_leaf_tags-DistinctKeys t tags _ (add_key-DistinctKeys (leaf_key t tag) set d)

add_leaf_types-DistinctKeys :
    (types tags : List Bytes) (set : List ℤ)
    → DistinctKeys set
    → DistinctKeys (add_leaf_types types tags set)
unfolding add_leaf_types
add_leaf_types-DistinctKeys [] tags set d = d
add_leaf_types-DistinctKeys (t ∷ types) tags set d =
    add_leaf_types-DistinctKeys types tags _ (add_leaf_tags-DistinctKeys t tags set d)

add_intent_types-DistinctKeys :
    (types : List Bytes) (set : List ℤ)
    → DistinctKeys set
    → DistinctKeys (add_intent_types types set)
unfolding add_intent_types
add_intent_types-DistinctKeys [] set d = d
add_intent_types-DistinctKeys (t ∷ types) set d =
    add_intent_types-DistinctKeys types _ (add_key-DistinctKeys (type_intent_key t) set d)

abbrev BothDistinct : ReaderLockKeys → Type 0
BothDistinct keys = DistinctKeys keys.leaf_s × DistinctKeys keys.intent_x

read_item-Distinct :
    (types tags : List Bytes) (keys : ReaderLockKeys)
    → BothDistinct keys
    → BothDistinct (read_item types tags keys)
unfolding read_item
read_item-Distinct types [] keys (a, b) = (a, add_intent_types-DistinctKeys types keys.intent_x b)
read_item-Distinct types (tag ∷ tags) keys (a, b) =
    (add_leaf_types-DistinctKeys types (tag ∷ tags) keys.leaf_s a, b)

read_items-Distinct :
    (items : List QueryItem) (keys : ReaderLockKeys)
    → BothDistinct keys
    → BothDistinct (read_items items keys)
unfolding read_items
read_items-Distinct [] keys d = d
read_items-Distinct (item ∷ items) keys d =
    read_items-Distinct items _ (read_item-Distinct item.types (values item.tags) keys d)

pub compute_reader_lock_keys-Distinct :
    (query : Query)
    → DistinctKeys (compute_reader_lock_keys query).leaf_s
      × DistinctKeys (compute_reader_lock_keys query).intent_x
unfolding compute_reader_lock_keys
compute_reader_lock_keys-Distinct query = elim (Bool-cases (is_all query)) [
  | inl e ↦ rw (e, compute_reader_lock_keys) (tt, ((λ m. elim m [ ]), tt))
  | inr e ↦
      rw (e, compute_reader_lock_keys)
        (read_items-Distinct query.items (record { leaf_s = []; intent_x = [] }) (tt, tt))
]
