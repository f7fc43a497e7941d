-- ===== src/Postgres/ReadSql/Reading.antt =====
-- What buildReadSQL promises to the reader: the statement that it writes, run on the table, gives the
-- read of the memory store.
use dcb_event_store_pg_go.Base.{
  ◌≢◌, ◌↔◌, ◌⊎◌, false, sym, ◌≡◌, refl, ◌∙◌, true, Bool-cases, inl, inr, List, [], ◌∷◌, Option,
  some, Bytes, ℤ, arith, all, any_complete, any_sound, select, Memᴰ,
}
use dcb_event_store_pg_go.EventStore.Condition.{ReadOptions}
use dcb_event_store_pg_go.EventStore.Event.{Event, SequencedEvent}
use dcb_event_store_pg_go.EventStore.Query.{Query, QueryItem, is_all}
use dcb_event_store_pg_go.EventStore.Tags.{values, contains}
use dcb_event_store_pg_go.EventStore.Tags.Members.{mem_of_contains, contains_of_mem}
use dcb_event_store_pg_go.Memory.Matching.Reading.{InRange, in_range_iff}
use dcb_event_store_pg_go.Memory.Matching.{
  in_range, matches_query, matches_query_item, is_tag_subset, matching_events,
}
use dcb_event_store_pg_go.Memory.Order.{Ascending}
use dcb_event_store_pg_go.Postgres.Conditions.Agreement.{AfterFits}
use dcb_event_store_pg_go.Postgres.Conditions.Rows.{row_of, table_of}
use dcb_event_store_pg_go.Postgres.ReadSql.{build_read_sql}
use dcb_event_store_pg_go.Postgres.ReadSql.Statement.{render, filter_holds, run}
use dcb_event_store_pg_go.Postgres.ReadSql.Rendering.{statement, arguments, build_read_sql-render}
use dcb_event_store_pg_go.Postgres.ReadSql.Asked.{AllTyped, asks_types, asks_tags, asks}
use dcb_event_store_pg_go.Postgres.ReadSql.Evaluation.{asked, within, IsMade, filters_hold}
use dcb_event_store_pg_go.Postgres.ReadSql.Selection.{AllOneTag, run-matching_events}

asks_types_complete :
    (types : List Bytes) (v : Bytes) → contains types v ≡ true → asks_types types v ≡ true
asks_types_complete [] v h = refl
asks_types_complete (t ∷ types) v h = h

asks_tags_complete :
    (ts tags : List Bytes) → all (λ v. contains tags v) ts ≡ true → asks_tags ts tags ≡ true
asks_tags_complete [] tags h = refl
asks_tags_complete (t ∷ ts) tags h = any_complete (contains tags) t (Memᴰ.head refl) (ground arith)

asks_complete :
    (item : QueryItem) (ev : Event) → matches_query_item item ev ≡ true → asks item ev ≡ true
unfolding matches_query_item is_tag_subset
asks_complete item ev h =
    rw
      (
        asks_types_complete item.types ev.event_type (ground arith),
        asks_tags_complete (values item.tags) (values ev.tags) (ground arith),
      )
      refl

asked_complete :
    (query : Query) (ev : Event) → matches_query query ev ≡ true → asked query ev ≡ true
unfolding matches_query
asked_complete query ev h = elim (Bool-cases (is_all query)) [
  | inl e ↦ rw e refl
  | inr e ↦
      let (item, m, p) = any_sound (λ item. matches_query_item item ev) query.items (rw e at h) in
      rw e (any_complete (λ item. asks item ev) item m (asks_complete item ev p))
]

-- What a read asks of an event: one of the item's types, and a tag in common where the item has tags.
abbrev pub Overlaps : QueryItem → Event → Type 0
Overlaps item ev =
    Memᴰ ev.event_type item.types
    × ((values item.tags ≡ [])
        ⊎ ((t : Bytes) × Memᴰ t (values item.tags) × Memᴰ t (values ev.tags)))

abbrev pub Chosen : Query → Event → Type 0
Chosen query ev =
    (is_all query ≡ true) ⊎ ((item : QueryItem) × Memᴰ item query.items × Overlaps item ev)

asks_types_iff :
    (types : List Bytes) (v : Bytes) → types ≢ [] → (asks_types types v ≡ true) ↔ Memᴰ v types
asks_types_iff [] v h = absurd (h refl)
asks_types_iff (t ∷ types) v h = (mem_of_contains (t ∷ types) v, contains_of_mem v)

asks_tags_iff :
    (ts tags : List Bytes)
    → (asks_tags ts tags ≡ true) ↔ ((ts ≡ []) ⊎ ((t : Bytes) × Memᴰ t ts × Memᴰ t tags))
asks_tags_iff [] tags = (λ _. inl refl, λ _. refl)
asks_tags_iff (t ∷ ts) tags = (
  λ h. let (u, m, e) = any_sound (contains tags) (t ∷ ts) h in inr (u, m, mem_of_contains tags u e),
  λ x. elim x [
    | inl e ↦ absurd (cc (e))
    | inr (u, m, n) ↦ any_complete (contains tags) u m (contains_of_mem u n)
  ],
)

asks_iff :
    (item : QueryItem) (ev : Event) → item.types ≢ [] → (asks item ev ≡ true) ↔ Overlaps item ev
asks_iff item ev typed =
    let (types, types') = asks_types_iff item.types ev.event_type typed in
    let (tags, tags') = asks_tags_iff (values item.tags) (values ev.tags) in
    (λ h. (types (ground arith), tags (ground arith)), λ (m, x). rw (types' m, tags' x) refl)

typed_of_mem :
    (items : List QueryItem) {item : QueryItem} → AllTyped items → Memᴰ item items → item.types ≢ []
typed_of_mem [] typed m = elim m [ ]
typed_of_mem (x ∷ items) (h, typed) (Memᴰ.head e) = rw e h
typed_of_mem (x ∷ items) (h, typed) (Memᴰ.tail m) = typed_of_mem items typed m

asked_iff : (query : Query) (ev : Event) → IsMade query → (asked query ev ≡ true) ↔ Chosen query ev
asked_iff query ev made = elim (Bool-cases (is_all query)) [
  | inl e ↦ (λ _. inl e, λ _. rw e refl)
  | inr e ↦ elim made [
    | inl e' ↦ absurd (cc (e, e'))
    | inr (_, typed) ↦ (sound e typed, complete e typed)
  ]
]
  where
    sound : is_all query ≡ false → AllTyped query.items → asked query ev ≡ true → Chosen query ev
    sound e typed h =
        let (item, m, p) = any_sound (λ item. asks item ev) query.items (rw e at h) in
        inr (item, m, (asks_iff item ev (typed_of_mem query.items typed m)).0 p)

    complete : is_all query ≡ false → AllTyped query.items → Chosen query ev → asked query ev ≡ true
    complete e typed (inl e') = absurd (cc (e, e'))
    complete e typed (inr (item, m, x)) = rw e (
        any_complete (λ item. asks item ev) item m
          ((asks_iff item ev (typed_of_mem query.items typed m)).1 x))

module _ (table_name : Bytes) (query : Query) (opts : ReadOptions) (bound : Option ℤ)
    (made : IsMade query) (fits : AfterFits opts.after) where
  -- For a query that QueryAll or QueryFromItems makes, whose items have at most one tag each, an After
  -- below 2^63, and ascending events: buildReadSQL writes the text of a statement that, under the
  -- arguments which it returns, selects the rows of the events that the memory store reads of those
  -- within the bound, in the same order and up to the same limit.
  pub reads_as_memory :
      (events : List SequencedEvent)
      → AllOneTag query.items
      → Ascending events
      → (build_read_sql table_name query opts bound
          ≡ some (render table_name (statement query opts bound), arguments query opts bound))
        × (run (arguments query opts bound) (statement query opts bound) (table_of events)
            ≡ table_of (matching_events (select (within bound) events) query opts))
  reads_as_memory events one ascending = (
    build_read_sql-render query opts bound table_name fits,
    run-matching_events query opts bound made events one ascending,
  )

  -- For a query that QueryAll or QueryFromItems makes, with any tags, and an After below 2^63:
  -- buildReadSQL writes the text of a statement whose filters hold, under the arguments that it
  -- returns, of the row of every event in the range and the bound that matches the query.
  pub misses_no_match :
      (se : SequencedEvent)
      → in_range opts se ≡ true
      → within bound se ≡ true
      → matches_query query se.event ≡ true
      → (build_read_sql table_name query opts bound
          ≡ some (render table_name (statement query opts bound), arguments query opts bound))
        × (all
              (filter_holds (arguments query opts bound) (row_of se))
              (statement query opts bound).filters
            ≡ true)
  misses_no_match se inside below matches = (
    build_read_sql-render query opts bound table_name fits,
    filters_hold query opts bound se made
        ∙ rw (inside, below, asked_complete query se.event matches) refl,
  )

  -- For a query that QueryAll or QueryFromItems makes and an After below 2^63: buildReadSQL writes the text
  -- of a statement whose filters hold of an event's row exactly if the event is in the range and the
  -- bound and the query is QueryAll or has an item with the event's type that has no tags or one tag in
  -- common with the event, be the others missing or not.
  pub selects_iff :
      (se : SequencedEvent)
      → (build_read_sql table_name query opts bound
          ≡ some (render table_name (statement query opts bound), arguments query opts bound))
        × ((all
                (filter_holds (arguments query opts bound) (row_of se))
                (statement query opts bound).filters
              ≡ true)
            ↔ (InRange opts.backwards opts.after se
                × (within bound se ≡ true)
                × Chosen query se.event))
  selects_iff se =
      let (inside, inside') = in_range_iff opts se in
      let (chosen, chosen') = asked_iff query se.event made in
      let e = filters_hold query opts bound se made in
      (
        build_read_sql-render query opts bound table_name fits,
        (
          λ h.
              let k = sym e ∙ h in
              (inside (ground (arith, k)), ground (arith, k), chosen (ground (arith, k))),
          λ (a, b, c). e ∙ rw (inside' a, b, chosen' c) refl,
        ),
      )
