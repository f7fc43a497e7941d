-- ===== src/Postgres/ReadSql/Selection.antt =====
-- The rows that a read's statement selects, against the read of the memory store.
use dcb_event_store_pg_go.Base.{
  ℕ, ◌≡◌, ◌≢◌, refl, sym, ap, ◌∙◌, Bool, true, false, ◌&&◌, Bool-cases, inl, inr, List, [], ◌∷◌,
  ◌++◌, map, Option, Bytes, if◌then◌else◌, length, ltb, ℤ, pos, le_ℤ, is_positive, pos_part, arith,
  any, all, select, take, take_of_length-le, suc, zero,
}
use mathlib.Core.List.{reverse, reverse_aux}
use dcb_event_store_pg_go.EventStore.Condition.{ReadOptions}
use dcb_event_store_pg_go.EventStore.Event.{Event, SequencedEvent}
use dcb_event_store_pg_go.EventStore.Query.{Query, QueryItem, is_all}
use dcb_event_store_pg_go.EventStore.Tags.{values, contains}
use dcb_event_store_pg_go.Memory.Matching.{
  in_range, matches_query, matches_query_item, is_tag_subset, in_order, limited, matching_events,
}
use dcb_event_store_pg_go.Memory.Matching.Reading.{wanted, matching_events-select}
use dcb_event_store_pg_go.Memory.Order.{Above, Ascending, Ascending-select, Ascending-of_Above}
use dcb_event_store_pg_go.Postgres.Conditions.{StoredRow}
use dcb_event_store_pg_go.Postgres.Conditions.Rows.{row_of, table_of}
use dcb_event_store_pg_go.Postgres.ReadSql.{Arg, number}
use dcb_event_store_pg_go.Postgres.ReadSql.Statement.{
  filter_holds, insert_row, by_position, limit_rows, run,
}
use dcb_event_store_pg_go.Postgres.ReadSql.Rendering.{
  statement, arguments, args_before_limit, limit_args, limit_number,
}
use dcb_event_store_pg_go.Postgres.ReadSql.Asked.{asks_types, asks_tags, asks, AllTyped, lookup_lem}
use dcb_event_store_pg_go.Postgres.ReadSql.Evaluation.{asked, within, IsMade, filters_hold}

-- At most one tag.
abbrev pub OneTag : List Bytes → Type 0
OneTag [] = Unit
OneTag (t ∷ []) = Unit
OneTag (t ∷ u ∷ tags) = ⊥

abbrev pub AllOneTag : List QueryItem → Type 0
AllOneTag [] = Unit
AllOneTag (item ∷ items) = OneTag (values item.tags) × AllOneTag items

asks_types-contains :
    (types : List Bytes) (v : Bytes) → types ≢ [] → asks_types types v ≡ contains types v
asks_types-contains [] v h = absurd (h refl)
asks_types-contains (t ∷ types) v h = refl

asks_tags-subset :
    (ts tags : List Bytes) → OneTag ts → asks_tags ts tags ≡ all (λ v. contains tags v) ts
asks_tags-subset [] tags h = refl
asks_tags-subset (t ∷ []) tags h = elim (Bool-cases (contains tags t)) [
  | inl e ↦ rw e refl
  | inr e ↦ rw e refl
]
asks_tags-subset (t ∷ u ∷ ts) tags h = elim h [ ]

asks-matches :
    (items : List QueryItem) (ev : Event)
    → AllTyped items
    → AllOneTag items
    → any (λ item. asks item ev) items ≡ any (λ item. matches_query_item item ev) items
unfolding matches_query_item is_tag_subset
asks-matches [] ev typed one = refl
asks-matches (item ∷ items) ev (typed, rest) (one, ones) =
    rw
      (
        asks_types-contains item.types ev.event_type typed,
        asks_tags-subset (values item.tags) (values ev.tags) one,
        asks-matches items ev rest ones,
      )
      refl

asked-matches :
    (query : Query) (ev : Event)
    → IsMade query
    → AllOneTag query.items
    → asked query ev ≡ matches_query query ev
unfolding matches_query
asked-matches query ev made one = elim (Bool-cases (is_all query)) [
  | inl e ↦ rw e refl
  | inr e ↦ elim made [
    | inl e' ↦ absurd (cc (e, e'))
    | inr (_, typed) ↦ rw e (asks-matches query.items ev typed one)
  ]
]

select-map {ℓ κ} :
    {A : Type ℓ} {B : Type κ} (p : B → Bool) (f : A → B) (xs : List A)
    → select p (map f xs) ≡ map f (select (λ x. p (f x)) xs)
select-map p f [] = refl
select-map p f (x ∷ xs) = elim (Bool-cases (p (f x))) [
  | inl e ↦ rw (e, select-map p f xs) refl
  | inr e ↦ rw (e, select-map p f xs) refl
]

take-map {ℓ κ} :
    {A : Type ℓ} {B : Type κ} (n : ℕ) (f : A → B) (xs : List A)
    → take n (map f xs) ≡ map f (take n xs)
take-map zero f xs = refl
take-map (suc n) f [] = refl
take-map (suc n) f (x ∷ xs) = rw (take-map n f xs) refl

insert_row-Above :
    (se : SequencedEvent) (events : List SequencedEvent)
    → Above se.position.value events
    → insert_row (row_of se) (table_of events) ≡ row_of se ∷ table_of events
insert_row-Above se [] h = refl
insert_row-Above se (x ∷ events) (h, _) =
    let below : le_ℤ (pos se.position.value) (pos x.position.value) ≡ true = ground arith in
    rw below refl

by_position-Ascending :
    (events : List SequencedEvent)
    → Ascending events
    → by_position (table_of events) ≡ table_of events
by_position-Ascending [] h = refl
by_position-Ascending (se ∷ events) h =
    rw (by_position-Ascending events (Ascending-of_Above se.position.value events h))
      (insert_row-Above se events h)

map-reverse_aux {ℓ κ} :
    {A : Type ℓ} {B : Type κ} (f : A → B) (xs ys : List A)
    → map f (reverse_aux xs ys) ≡ reverse_aux (map f xs) (map f ys)
map-reverse_aux f [] ys = refl
map-reverse_aux f (x ∷ xs) ys = map-reverse_aux f xs (x ∷ ys)

ordered_rows :
    (backwards : Bool) (events : List SequencedEvent)
    → (if backwards then reverse (table_of events) else table_of events)
      ≡ table_of (in_order backwards events)
unfolding in_order
ordered_rows true events = sym (map-reverse_aux row_of events [])
ordered_rows false events = refl

limit_rows_lem :
    (limit : ℤ) (args : List Arg) (events : List SequencedEvent)
    → limit_rows (args ++ limit_args limit) (limit_number limit (length args)) (table_of events)
      ≡ table_of (limited limit events)
unfolding limited
limit_rows_lem limit args events = elim (Bool-cases (is_positive limit)) [
  | inr e ↦ rw e refl
  | inl e ↦
      rw (e, lookup_lem args (number limit) [])
        (take-map (pos_part limit) row_of events ∙ ap table_of shorter)
]
  where
    shorter :
        take (pos_part limit) events
        ≡ (if ltb (pos_part limit) (length events) then take (pos_part limit) events else events)
    shorter = elim (Bool-cases (ltb (pos_part limit) (length events))) [
      | inl e ↦ rw e refl
      | inr e ↦ rw e (take_of_length-le (pos_part limit) events (ground arith))
    ]

shuffle : (a b c : Bool) → ((a && b) && c) ≡ (b && (a && c))
shuffle true true c = refl
shuffle true false c = refl
shuffle false true c = refl
shuffle false false c = refl

module _ (query : Query) (opts : ReadOptions) (bound : Option ℤ) (made : IsMade query) where
  abbrev holds : StoredRow → Bool
  holds e = all (filter_holds (arguments query opts bound) e) (statement query opts bound).filters

  holds-wanted :
      AllOneTag query.items
      → (se : SequencedEvent) → holds (row_of se) ≡ (within bound se && wanted query opts se)
  holds-wanted one se =
      filters_hold query opts bound se made
      ∙ rw (asked-matches query se.event made one)
          (shuffle (in_range opts se) (within bound se) (matches_query query se.event))

  select-within :
      AllOneTag query.items
      → (events : List SequencedEvent)
      → select (λ se. holds (row_of se)) events
        ≡ select (wanted query opts) (select (within bound) events)
  select-within one [] = refl
  select-within one (se ∷ events) = elim (Bool-cases (within bound se)) [
    | inl e ↦ rw (holds-wanted one se, e, select-within one events) refl
    | inr e ↦ rw (holds-wanted one se, e, select-within one events) refl
  ]

  chosen_rows :
      (events : List SequencedEvent)
      → AllOneTag query.items
      → Ascending events
      → by_position (select holds (table_of events))
        ≡ table_of (select (wanted query opts) (select (within bound) events))
  chosen_rows events one ascending =
      ap by_position (select-map holds row_of events ∙ ap table_of (select-within one events))
      ∙ by_position-Ascending (select (wanted query opts) (select (within bound) events)) (
          Ascending-select (wanted query opts) (select (within bound) events)
            (Ascending-select (within bound) events ascending))

  -- Over ascending events, for items with at most one tag each: the statement selects the rows that the
  -- memory store reads of the events within the bound, in its order and within its limit.
  pub run-matching_events :
      (events : List SequencedEvent)
      → AllOneTag query.items
      → Ascending events
      → run (arguments query opts bound) (statement query opts bound) (table_of events)
        ≡ table_of (matching_events (select (within bound) events) query opts)
  run-matching_events events one ascending =
      ap
        (λ rows.
          limit_rows (arguments query opts bound) (statement query opts bound).limit
            (if opts.backwards then reverse rows else rows))
        (chosen_rows events one ascending)
      ∙ ap (limit_rows (arguments query opts bound) (statement query opts bound).limit)
          (ordered_rows opts.backwards (select (wanted query opts) (select (within bound) events)))
      ∙ limit_rows_lem opts.limit (args_before_limit query opts bound)
          (in_order opts.backwards (select (wanted query opts) (select (within bound) events)))
      ∙ ap table_of (sym (matching_events-select (select (within bound) events) query opts))
