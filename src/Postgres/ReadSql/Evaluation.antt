-- ===== src/Postgres/ReadSql/Evaluation.antt =====
-- The rows that the filters of a read's statement select.
use dcb_event_store_pg_go.Base.{
  all-append, ℕ, ◌≡◌, ◌≢◌, refl, sym, ap, ◌∙◌, Bool, true, false, ◌&&◌, Bool-cases, inl, inr, ◌⊎◌,
  List, [], ◌∷◌, ◌++◌, append_assoc, Option, none, some, if◌then◌else◌, length, ℤ, pos, le_ℤ, arith,
  any, all,
}
use mathlib.Core.Path.{subst}
use dcb_event_store_pg_go.EventStore.Condition.{ReadOptions}
use dcb_event_store_pg_go.EventStore.Event.{Event, SequencedEvent}
use dcb_event_store_pg_go.EventStore.Position.{SequencePosition, is_after, is_before}
use dcb_event_store_pg_go.EventStore.Query.{Query, QueryItem, is_all}
use dcb_event_store_pg_go.Memory.Matching.{in_range}
use dcb_event_store_pg_go.Postgres.Conditions.{StoredRow}
use dcb_event_store_pg_go.Postgres.Conditions.Rows.{row_of}
use dcb_event_store_pg_go.Postgres.ReadSql.{Arg, number}
use dcb_event_store_pg_go.Postgres.ReadSql.Statement.{
  ItemFilter, Filter, item_holds, filter_holds, compares,
}
use dcb_event_store_pg_go.Postgres.ReadSql.Rendering.{
  criteria_filters, query_filters, query_args, after_filters, after_args, bound_filters, bound_args,
  statement, arguments, args_before_query, limit_args,
}
use dcb_event_store_pg_go.Postgres.ReadSql.Items.{keep_if, item_filters, items_args}
use dcb_event_store_pg_go.Postgres.ReadSql.Asked.{
  lookup_lem, asks, AllTyped, numbers-some, items_hold,
}

pub and_true : (b : Bool) → (b && true) ≡ b
and_true true = refl
and_true false = refl

-- What the query asks of an event.
abbrev pub asked : Query → Event → Bool
asked query ev = if is_all query then true else any (λ item. asks item ev) query.items

abbrev pub within : Option ℤ → SequencedEvent → Bool
within none se = true
within (some b) se = le_ℤ (pos se.position.value) b

-- The queries that `QueryAll` and `QueryFromItems` make.
abbrev pub IsMade : Query → Type 0
IsMade query = (is_all query ≡ true) ⊎ ((query.items ≢ []) × AllTyped query.items)

keep_if-some :
    (types : List ℕ) (tags : Option ℕ) (filters : List ItemFilter)
    → types ≢ []
    → keep_if types tags filters ≢ []
keep_if-some [] tags filters h = absurd (h refl)
keep_if-some (n ∷ ns) tags filters h = λ e. cc

item_filters-some :
    (n : ℕ) (items : List QueryItem) → items ≢ [] → AllTyped items → item_filters n items ≢ []
item_filters-some n [] h typed = absurd (h refl)
item_filters-some n (item ∷ items) h (typed, _) =
    keep_if-some _ _ _ (numbers-some n item.types typed)

criteria_hold :
    (row : StoredRow) (args : List Arg) (filters : List ItemFilter)
    → filters ≢ []
    → all (filter_holds args row) (criteria_filters filters) ≡ any (item_holds args row) filters
criteria_hold row args [] h = absurd (h refl)
criteria_hold row args (f ∷ filters) h = and_true _

query_hold :
    (query : Query) (xs ys : List Arg) (se : SequencedEvent)
    → IsMade query
    → all
        (filter_holds (xs ++ (query_args query ++ ys)) (row_of se))
        (query_filters (length xs) query)
      ≡ asked query se.event
query_hold query xs ys se made = elim (Bool-cases (is_all query)) [
  | inl e ↦ rw e refl
  | inr e ↦ elim made [
    | inl e' ↦ absurd (cc (e, e'))
    | inr (some_item, typed) ↦ rw e (
        criteria_hold (row_of se) (xs ++ (items_args query.items ++ ys))
          (item_filters (length xs) query.items)
          (item_filters-some (length xs) query.items some_item typed)
        ∙ items_hold query.items xs ys se typed)
  ]
]

after_hold :
    (opts : ReadOptions) (ys : List Arg) (se : SequencedEvent)
    → all (filter_holds (after_args opts ++ ys) (row_of se)) (after_filters opts 0)
      ≡ in_range opts se
unfolding in_range is_after is_before
after_hold opts ys se = by_parts opts.backwards opts.after opts.limit
  where
    by_parts :
        (b : Bool) (a : Option SequencePosition) (l : ℤ)
        → all
            (filter_holds
              (after_args (record { backwards = b; after = a; limit = l }) ++ ys)
              (row_of se))
            (after_filters (record { backwards = b; after = a; limit = l }) 0)
          ≡ in_range (record { backwards = b; after = a; limit = l }) se
    by_parts b none l = refl
    by_parts true (some p) l = ground arith
    by_parts false (some p) l = ground arith

bound_hold :
    (bound : Option ℤ) (xs ys : List Arg) (se : SequencedEvent)
    → all
        (filter_holds (xs ++ (bound_args bound ++ ys)) (row_of se))
        (bound_filters bound (length xs))
      ≡ within bound se
bound_hold none xs ys se = refl
bound_hold (some b) xs ys se =
    and_true _ ∙ ap (compares (λ p. le_ℤ (pos se.position.value) p)) (lookup_lem xs (number b) ys)

module _ (query : Query) (opts : ReadOptions) (bound : Option ℤ) (se : SequencedEvent)
    (made : IsMade query) where
  -- The filters of the statement on the row of an event.
  pub filters_hold :
      all
        (filter_holds (arguments query opts bound) (row_of se))
        (statement query opts bound).filters
      ≡ (in_range opts se && within bound se && asked query se.event)
  filters_hold =
      all-append holds (after_filters opts 0 ++ bound_filters bound (length after))
        (query_filters (length first) query)
      ∙ ap (λ b. b && all holds (query_filters (length first) query))
          (all-append holds (after_filters opts 0) (bound_filters bound (length after)))
      ∙ rw (on_after, on_bound, on_query) refl
    where
      after : List Arg
      after = after_args opts

      first : List Arg
      first = args_before_query query opts bound

      last : List Arg
      last = limit_args opts.limit

      holds : Filter → Bool
      holds = filter_holds (arguments query opts bound) (row_of se)

      on_after : all holds (after_filters opts 0) ≡ in_range opts se
      on_after =
          subst (λ a. all (filter_holds a (row_of se)) (after_filters opts 0) ≡ in_range opts se)
            (sym (
              append_assoc (after ++ bound_args bound) (query_args query) last
              ∙ append_assoc after (bound_args bound) (query_args query ++ last)))
            (after_hold opts (bound_args bound ++ (query_args query ++ last)) se)

      on_bound : all holds (bound_filters bound (length after)) ≡ within bound se
      on_bound =
          subst
            (λ a.
              all (filter_holds a (row_of se)) (bound_filters bound (length after))
              ≡ within bound se)
            (sym (
              append_assoc (after ++ bound_args bound) (query_args query) last
              ∙ append_assoc after (bound_args bound) (query_args query ++ last)))
            (bound_hold bound after (query_args query ++ last) se)

      on_query : all holds (query_filters (length first) query) ≡ asked query se.event
      on_query =
          subst
            (λ a.
              all (filter_holds a (row_of se)) (query_filters (length first) query)
              ≡ asked query se.event)
            (sym (append_assoc first (query_args query) last)) (query_hold query first last se made)
