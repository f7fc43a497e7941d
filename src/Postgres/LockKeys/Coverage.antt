-- ===== src/Postgres/LockKeys/Coverage.antt =====
-- The lock keys meet wherever they must: a read's barrier waits for every writer in flight that
-- could store a matching event, and two appends of which one could violate the other's condition
-- exclude each other.
use dcb_event_store_pg_go.Base.{
  ◌≡◌, ◌≢◌, refl, sym, ◌⊎◌, inl, inr, false, List, [], ◌∷◌, Option, none, some, Bytes, Bool-cases,
  Memᴰ, ℤ,
}
use mathlib.Core.Path.{subst}
use dcb_event_store_pg_go.EventStore.Condition.{AppendCondition, validate_append_condition}
use dcb_event_store_pg_go.EventStore.Condition.Scope.{Scoped, validate_iff}
use dcb_event_store_pg_go.EventStore.Event.{Event}
use dcb_event_store_pg_go.EventStore.Query.{QueryItem, Query, is_all}
use dcb_event_store_pg_go.EventStore.Tags.{values}
use dcb_event_store_pg_go.Memory.Matching.Meaning.{MatchesItem, Matches, mem-values}
use dcb_event_store_pg_go.Postgres.LockKeys.{
  leaf_key, type_intent_key, global_intent_key, condition_leaf, add_global, WriterLockKeys,
  compute_writer_lock_keys, ReaderLockKeys, read_item, read_items, compute_reader_lock_keys,
}
use dcb_event_store_pg_go.Postgres.LockKeys.Sets.{
  add_event_leaf_keeps, add_global_keeps, read_items_keeps_leaf, read_items_keeps_intent,
  mem-add_key, mem-add_leaf_types, mem-add_leaf_items, mem-add_event_leaf, mem-add_event_intent,
  mem-add_intent_types,
}

-- A key that the reader and the writer both lock, one of them exclusively: a leaf key shared by the
-- reader and held exclusively by the writer, or an intent key the other way round.
abbrev pub Meet : ReaderLockKeys → WriterLockKeys → Type 0
Meet r w = (k : ℤ) × ((Memᴰ k r.leaf_s × Memᴰ k w.leaf_x) ⊎ (Memᴰ k r.intent_x × Memᴰ k w.intent_s))

writer_global :
    (events : List Event) (ev : Event) (set : List ℤ)
    → Memᴰ ev events
    → Memᴰ global_intent_key (add_global events set)
unfolding add_global
writer_global [] ev set m = elim m [ ]
writer_global (x ∷ events) ev set m = mem-add_key global_intent_key set

-- The keys of one item that an event matches meet those of the event's writer.
read_item-Meet :
    (item : QueryItem) (tags : List Bytes) (keys : ReaderLockKeys) (events : List Event)
    (condition : Option AppendCondition) (ev : Event)
    → Memᴰ ev events
    → Memᴰ ev.event_type item.types
    → ((v : Bytes) → Memᴰ v tags → Memᴰ v (values ev.tags))
    → Meet (read_item item.types tags keys) (compute_writer_lock_keys events condition)
unfolding read_item compute_writer_lock_keys
read_item-Meet item [] keys events condition ev m t sub = (
  type_intent_key ev.event_type,
  inr (
    mem-add_intent_types item.types keys.intent_x t,
    add_global_keeps events _ (mem-add_event_intent events [] m),
  ),
)
read_item-Meet item (tag ∷ tags) keys events condition ev m t sub = (
  leaf_key ev.event_type tag,
  inl (
    mem-add_leaf_types item.types (tag ∷ tags) keys.leaf_s t (Memᴰ.head refl),
    mem-add_event_leaf events (condition_leaf condition) m (sub tag (Memᴰ.head refl)),
  ),
)

Meet-later :
    (items : List QueryItem) (keys : ReaderLockKeys) (w : WriterLockKeys)
    → Meet keys w
    → Meet (read_items items keys) w
Meet-later items keys w (k, inl (a, b)) = (k, inl (read_items_keeps_leaf items keys a, b))
Meet-later items keys w (k, inr (a, b)) = (k, inr (read_items_keeps_intent items keys a, b))

read_items-Meet :
    {item : QueryItem} (items : List QueryItem) (keys : ReaderLockKeys) (events : List Event)
    (condition : Option AppendCondition) (ev : Event)
    → Memᴰ ev events
    → Memᴰ item items
    → MatchesItem item ev
    → Meet (read_items items keys) (compute_writer_lock_keys events condition)
unfolding read_items
read_items-Meet [] keys events condition ev m n h = elim n [ ]
read_items-Meet {item} (x ∷ items) keys events condition ev m (Memᴰ.head e) h =
    let (t, sub) = subst (λ i. MatchesItem i ev) e h in
    Meet-later items _ _ (
      read_item-Meet x (values x.tags) keys events condition ev m t
        (λ v mv. (mem-values ev.tags v).1 (sub v ((mem-values x.tags v).0 mv))))
read_items-Meet (x ∷ items) keys events condition ev m (Memᴰ.tail n) h =
    read_items-Meet items _ events condition ev m n h

-- For every query and every append with an event that matches it, the barrier of the read and the
-- append lock a common key, one of them exclusively.
pub barrier_meets_writer :
    (query : Query) (events : List Event) (condition : Option AppendCondition) (ev : Event)
    → Memᴰ ev events
    → Matches query ev
    → Meet (compute_reader_lock_keys query) (compute_writer_lock_keys events condition)
unfolding compute_reader_lock_keys
barrier_meets_writer query events condition ev m h = elim (Bool-cases (is_all query)) [
  | inl e ↦ rw (e, compute_reader_lock_keys) (global_intent_key, inr (Memᴰ.head refl, in_writer))
  | inr e ↦ rw (e, compute_reader_lock_keys) (by_item e h)
]
  where
    in_writer : Memᴰ global_intent_key (compute_writer_lock_keys events condition).intent_s
    in_writer = unfold compute_writer_lock_keys in writer_global events ev _ m

    by_item :
        is_all query ≡ false
        → Matches query ev
        → Meet
            (read_items query.items (record { leaf_s = []; intent_x = [] }))
            (compute_writer_lock_keys events condition)
    by_item e (inl a) = absurd (cc)
    by_item e (inr (item, n, p)) = read_items-Meet query.items _ events condition ev m n p

-- If an event of one append matches the condition of another, which `ValidateAppendCondition`
-- accepts, then both appends lock a common leaf key exclusively.
pub writers_exclude :
    (events other_events : List Event) (condition : AppendCondition)
    (other_condition : Option AppendCondition) (ev : Event)
    → validate_append_condition condition ≡ none
    → Memᴰ ev other_events
    → Matches condition.fail_if_events_match ev
    → (k : ℤ) × Memᴰ k (compute_writer_lock_keys events (some condition)).leaf_x
      × Memᴰ k (compute_writer_lock_keys other_events other_condition).leaf_x
unfolding compute_writer_lock_keys condition_leaf
writers_exclude events other_events condition other_condition ev valid m (inl a) =
    absurd (cc ((validate_iff condition).0 valid).0)
writers_exclude events other_events condition other_condition ev valid m (inr (item, n, (t, sub))) =
    let (scoped, items_scoped) = (validate_iff condition).0 valid in
    let (tag, in_item) = some_tag condition.fail_if_events_match.items items_scoped n in
    (
      leaf_key ev.event_type tag,
      add_event_leaf_keeps events _ (
          rw scoped (
            mem-add_leaf_items condition.fail_if_events_match.items [] n t
              ((mem-values item.tags tag).1 in_item))),
      mem-add_event_leaf other_events (condition_leaf other_condition) m
          ((mem-values ev.tags tag).1 (sub tag in_item)),
    )
  where
    first : (vs : List Bytes) → vs ≢ [] → (v : Bytes) × Memᴰ v vs
    first [] h = absurd (h refl)
    first (v ∷ vs) h = (v, Memᴰ.head refl)

    some_tag :
        (items : List QueryItem)
        → Scoped items
        → Memᴰ item items
        → (v : Bytes) × Memᴰ v item.tags.values
    some_tag [] s i = elim i [ ]
    some_tag (x ∷ items) (a, b, c) (Memᴰ.head e) =
        subst (λ i. (v : Bytes) × Memᴰ v i.tags.values) (sym e) (first x.tags.values b)
    some_tag (x ∷ items) (a, b, c) (Memᴰ.tail i) = some_tag items c i
