-- ===== src/Postgres/LockKeys/Sets.antt =====
-- The loops of lockkeys.go only add keys, and each adds the keys that it should.
use dcb_event_store_pg_go.Base.{
  ◌≡◌, refl, true, List, [], ◌∷◌, Bytes, any, any_sound, Bool-cases, inl, inr, Memᴰ, arith, ℤ, pos,
  negsuc,
}
use dcb_event_store_pg_go.Base.Memᴰ
use dcb_event_store_pg_go.EventStore.Event.{Event}
use dcb_event_store_pg_go.EventStore.Query.{QueryItem}
use dcb_event_store_pg_go.EventStore.Tags.{values}
use dcb_event_store_pg_go.Postgres.LockKeys.{
  eq_ℤ, add_key, leaf_key, type_intent_key, add_leaf_tags, add_leaf_types, add_leaf_items,
  add_event_leaf, add_event_intent, add_global, add_intent_types, ReaderLockKeys, read_item,
  read_items,
}

eq_ℤ_sound : (a b : ℤ) → eq_ℤ a b ≡ true → a ≡ b
unfolding eq_ℤ
eq_ℤ_sound (pos a) (pos b) h = ground arith
eq_ℤ_sound (pos a) (negsuc b) h = absurd (ground arith)
eq_ℤ_sound (negsuc a) (pos b) h = absurd (ground arith)
eq_ℤ_sound (negsuc a) (negsuc b) h = ground arith

module _ {k : ℤ} where
  pub add_key_keeps : (j : ℤ) (set : List ℤ) → Memᴰ k set → Memᴰ k (add_key j set)
  unfolding add_key
  add_key_keeps j set m = elim (Bool-cases (any (eq_ℤ j) set)) [
    | inl e ↦ rw e m
    | inr e ↦ rw e (Memᴰ.tail m)
  ]

  pub add_leaf_tags_keeps :
      (t : Bytes) (tags : List Bytes) (set : List ℤ)
      → Memᴰ k set
      → Memᴰ k (add_leaf_tags t tags set)
  unfolding add_leaf_tags
  add_leaf_tags_keeps t [] set m = m
  add_leaf_tags_keeps t (tag ∷ tags) set m = add_leaf_tags_keeps t tags _ (add_key_keeps _ set m)

  pub add_leaf_types_keeps :
      (types tags : List Bytes) (set : List ℤ) → Memᴰ k set → Memᴰ k (add_leaf_types types tags set)
  unfolding add_leaf_types
  add_leaf_types_keeps [] tags set m = m
  add_leaf_types_keeps (t ∷ types) tags set m =
      add_leaf_types_keeps types tags _ (add_leaf_tags_keeps t tags set m)

  pub add_leaf_items_keeps :
      (items : List QueryItem) (set : List ℤ) → Memᴰ k set → Memᴰ k (add_leaf_items items set)
  unfolding add_leaf_items
  add_leaf_items_keeps [] set m = m
  add_leaf_items_keeps (item ∷ items) set m =
      add_leaf_items_keeps items _ (add_leaf_types_keeps item.types (values item.tags) set m)

  pub add_event_leaf_keeps :
      (events : List Event) (set : List ℤ) → Memᴰ k set → Memᴰ k (add_event_leaf events set)
  unfolding add_event_leaf
  add_event_leaf_keeps [] set m = m
  add_event_leaf_keeps (ev ∷ events) set m =
      add_event_leaf_keeps events _ (add_leaf_tags_keeps ev.event_type (values ev.tags) set m)

  pub add_event_intent_keeps :
      (events : List Event) (set : List ℤ) → Memᴰ k set → Memᴰ k (add_event_intent events set)
  unfolding add_event_intent
  add_event_intent_keeps [] set m = m
  add_event_intent_keeps (ev ∷ events) set m =
      add_event_intent_keeps events _ (add_key_keeps _ set m)

  pub add_global_keeps :
      (events : List Event) (set : List ℤ) → Memᴰ k set → Memᴰ k (add_global events set)
  unfolding add_global
  add_global_keeps [] set m = m
  add_global_keeps (ev ∷ events) set m = add_key_keeps _ set m

  pub add_intent_types_keeps :
      (types : List Bytes) (set : List ℤ) → Memᴰ k set → Memᴰ k (add_intent_types types set)
  unfolding add_intent_types
  add_intent_types_keeps [] set m = m
  add_intent_types_keeps (t ∷ types) set m = add_intent_types_keeps types _ (add_key_keeps _ set m)

  pub read_item_keeps_leaf :
      (types tags : List Bytes) (keys : ReaderLockKeys)
      → Memᴰ k keys.leaf_s
      → Memᴰ k (read_item types tags keys).leaf_s
  unfolding read_item
  read_item_keeps_leaf types [] keys m = m
  read_item_keeps_leaf types (tag ∷ tags) keys m =
      add_leaf_types_keeps types (tag ∷ tags) keys.leaf_s m

  pub read_item_keeps_intent :
      (types tags : List Bytes) (keys : ReaderLockKeys)
      → Memᴰ k keys.intent_x
      → Memᴰ k (read_item types tags keys).intent_x
  unfolding read_item
  read_item_keeps_intent types [] keys m = add_intent_types_keeps types keys.intent_x m
  read_item_keeps_intent types (tag ∷ tags) keys m = m

  pub read_items_keeps_leaf :
      (items : List QueryItem) (keys : ReaderLockKeys)
      → Memᴰ k keys.leaf_s
      → Memᴰ k (read_items items keys).leaf_s
  unfolding read_items
  read_items_keeps_leaf [] keys m = m
  read_items_keeps_leaf (item ∷ items) keys m =
      read_items_keeps_leaf items _ (read_item_keeps_leaf item.types (values item.tags) keys m)

  pub read_items_keeps_intent :
      (items : List QueryItem) (keys : ReaderLockKeys)
      → Memᴰ k keys.intent_x
      → Memᴰ k (read_items items keys).intent_x
  unfolding read_items
  read_items_keeps_intent [] keys m = m
  read_items_keeps_intent (item ∷ items) keys m =
      read_items_keeps_intent items _ (read_item_keeps_intent item.types (values item.tags) keys m)

pub mem-add_key : (k : ℤ) (set : List ℤ) → Memᴰ k (add_key k set)
unfolding add_key
mem-add_key k set = elim (Bool-cases (any (eq_ℤ k) set)) [
  | inl e ↦ let (j, m, h) = any_sound (eq_ℤ k) set e in rw e (Memᴰ.cast (eq_ℤ_sound k j h) m)
  | inr e ↦ rw e (Memᴰ.head refl)
]

pub mem-add_leaf_tags :
    (t : Bytes) {tag : Bytes} (tags : List Bytes) (set : List ℤ)
    → Memᴰ tag tags
    → Memᴰ (leaf_key t tag) (add_leaf_tags t tags set)
unfolding add_leaf_tags
mem-add_leaf_tags t [] set m = elim m [ ]
mem-add_leaf_tags t (x ∷ tags) set (Memᴰ.head e) =
    rw e (add_leaf_tags_keeps t tags _ (mem-add_key (leaf_key t x) set))
mem-add_leaf_tags t (x ∷ tags) set (Memᴰ.tail m) = mem-add_leaf_tags t tags _ m

pub mem-add_leaf_types :
    {t tag : Bytes} (types tags : List Bytes) (set : List ℤ)
    → Memᴰ t types
    → Memᴰ tag tags
    → Memᴰ (leaf_key t tag) (add_leaf_types types tags set)
unfolding add_leaf_types
mem-add_leaf_types [] tags set m n = elim m [ ]
mem-add_leaf_types (x ∷ types) tags set (Memᴰ.head e) n =
    rw e (add_leaf_types_keeps types tags _ (mem-add_leaf_tags x tags set n))
mem-add_leaf_types (x ∷ types) tags set (Memᴰ.tail m) n = mem-add_leaf_types types tags _ m n

pub mem-add_leaf_items :
    {t tag : Bytes} {item : QueryItem} (items : List QueryItem) (set : List ℤ)
    → Memᴰ item items
    → Memᴰ t item.types
    → Memᴰ tag (values item.tags)
    → Memᴰ (leaf_key t tag) (add_leaf_items items set)
unfolding add_leaf_items
mem-add_leaf_items [] set m a b = elim m [ ]
mem-add_leaf_items {t} {tag} (x ∷ items) set (Memᴰ.head e) a b =
    add_leaf_items_keeps items _
      (mem-add_leaf_types x.types (values x.tags) set (rw e at a) (rw e at b))
mem-add_leaf_items (x ∷ items) set (Memᴰ.tail m) a b = mem-add_leaf_items items _ m a b

pub mem-add_event_leaf :
    {ev : Event} {tag : Bytes} (events : List Event) (set : List ℤ)
    → Memᴰ ev events
    → Memᴰ tag (values ev.tags)
    → Memᴰ (leaf_key ev.event_type tag) (add_event_leaf events set)
unfolding add_event_leaf
mem-add_event_leaf [] set m a = elim m [ ]
mem-add_event_leaf {ev} {tag} (x ∷ events) set (Memᴰ.head e) a =
    rw e (
      add_event_leaf_keeps events _
        (mem-add_leaf_tags x.event_type (values x.tags) set (rw e at a)))
mem-add_event_leaf (x ∷ events) set (Memᴰ.tail m) a = mem-add_event_leaf events _ m a

pub mem-add_event_intent :
    {ev : Event} (events : List Event) (set : List ℤ)
    → Memᴰ ev events
    → Memᴰ (type_intent_key ev.event_type) (add_event_intent events set)
unfolding add_event_intent
mem-add_event_intent [] set m = elim m [ ]
mem-add_event_intent (x ∷ events) set (Memᴰ.head e) =
    rw e (add_event_intent_keeps events _ (mem-add_key (type_intent_key x.event_type) set))
mem-add_event_intent (x ∷ events) set (Memᴰ.tail m) = mem-add_event_intent events _ m

pub mem-add_intent_types :
    {t : Bytes} (types : List Bytes) (set : List ℤ)
    → Memᴰ t types
    → Memᴰ (type_intent_key t) (add_intent_types types set)
unfolding add_intent_types
mem-add_intent_types [] set m = elim m [ ]
mem-add_intent_types (x ∷ types) set (Memᴰ.head e) =
    rw e (add_intent_types_keeps types _ (mem-add_key (type_intent_key x) set))
mem-add_intent_types (x ∷ types) set (Memᴰ.tail m) = mem-add_intent_types types _ m
