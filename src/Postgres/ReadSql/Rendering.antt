-- ===== src/Postgres/ReadSql/Rendering.antt =====
-- The text that buildReadSQL writes is that of a statement, whose parameters are numbered in the
-- order of the arguments.
use dcb_event_store_pg_go.Base.{
  ℕ, ◌+◌, ◌≡◌, refl, sym, ap, ◌∙◌, Bool, true, false, Bool-cases, inl, inr, List, [], ◌∷◌, ◌++◌,
  map, append-nil, Option, none, some, Bytes, if◌then◌else◌, length, ℤ, pos, is_positive, arith,
}
use mathlib.Core.List.{map-append}
use dcb_event_store_pg_go.EventStore.Condition.{ReadOptions}
use dcb_event_store_pg_go.EventStore.Position.{SequencePosition}
use dcb_event_store_pg_go.EventStore.Query.{Query, QueryItem, is_all}
use dcb_event_store_pg_go.Postgres.Conditions.Agreement.{AfterFits}
use dcb_event_store_pg_go.Postgres.Position.{position_to_int64_iff}
use dcb_event_store_pg_go.Postgres.ReadSql.{
  Arg, number, enclosed, unless_empty, alternatives, criteria_clause, compared, after_filter,
  bound_filter, query_filter, limit_text, read_text, build_read_sql,
}
use dcb_event_store_pg_go.Postgres.ReadSql.Statement.{
  ItemFilter, Filter, before, behind, up_to, one_of, Statement, item_text, filter_text,
  limit_clause, render, select_text,
}
use dcb_event_store_pg_go.Postgres.ReadSql.Items.{
  add_lem, item_args, keep_if, item_filters, items_args, item_clauses_lem,
}

abbrev pub criteria_filters : List ItemFilter → List Filter
criteria_filters [] = []
criteria_filters (f ∷ filters) = one_of (f ∷ filters) ∷ []

-- Each filter that is kept has a text.
abbrev Shown : List ItemFilter → Type 0
Shown [] = Unit
Shown (f ∷ filters) = (unless_empty (item_text f) [] ≡ item_text f ∷ []) × Shown filters

keep_if-Shown :
    (types : List ℕ) (tags : Option ℕ) (filters : List ItemFilter)
    → Shown filters
    → Shown (keep_if types tags filters)
unfolding enclosed
keep_if-Shown [] none filters h = h
keep_if-Shown [] (some n) filters h = (refl, h)
keep_if-Shown (n ∷ ns) tags filters h = (refl, h)

item_filters-Shown : (n : ℕ) (items : List QueryItem) → Shown (item_filters n items)
item_filters-Shown n [] = tt
item_filters-Shown n (item ∷ items) =
    keep_if-Shown _ _ _ (item_filters-Shown (n + length (item_args item)) items)

criteria_text :
    (filters : List ItemFilter)
    → Shown filters
    → unless_empty (alternatives (map item_text filters)) []
      ≡ map filter_text (criteria_filters filters)
unfolding alternatives
criteria_text [] h = refl
criteria_text (f ∷ []) (h, _) = h
criteria_text (f ∷ g ∷ filters) h = refl

abbrev pub query_filters : ℕ → Query → List Filter
query_filters n query = if is_all query then [] else criteria_filters (item_filters n query.items)

abbrev pub query_args : Query → List Arg
query_args query = if is_all query then [] else items_args query.items

query_filter_lem :
    (query : Query) (args : List Arg)
    → query_filter query args
      ≡ (map filter_text (query_filters (length args) query), args ++ query_args query)
unfolding query_filter criteria_clause
query_filter_lem query args = elim (Bool-cases (is_all query)) [
  | inl e ↦ rw e (ap (λ a. ([], a)) (sym (append-nil args)))
  | inr e ↦
      rw (e, item_clauses_lem query.items args)
        (ap (λ c. (c, args ++ items_args query.items))
          (criteria_text _ (item_filters-Shown (length args) query.items)))
]

abbrev pub after_filters : ReadOptions → ℕ → List Filter
after_filters opts n = elim (opts.after) [
  | none ↦ []
  | some p ↦ if opts.backwards then before (n + 1) ∷ [] else behind (n + 1) ∷ []
]

abbrev pub after_args : ReadOptions → List Arg
after_args opts = elim (opts.after) [ none ↦ [] | some p ↦ number (pos p.value) ∷ [] ]

after_filter_lem :
    (opts : ReadOptions)
    → AfterFits opts.after
    → after_filter opts [] ≡ some (map filter_text (after_filters opts 0), after_args opts)
unfolding after_filter compared
after_filter_lem opts fits = by_parts opts.backwards opts.after opts.limit fits
  where
    by_parts :
        (b : Bool) (a : Option SequencePosition) (l : ℤ)
        → AfterFits a
        → after_filter (record { backwards = b; after = a; limit = l }) []
          ≡ some (
            map filter_text (after_filters (record { backwards = b; after = a; limit = l }) 0),
            after_args (record { backwards = b; after = a; limit = l }),
          )
    by_parts b none l h = refl
    by_parts true (some p) l h =
        rw
          (
            after_filter,
            (position_to_int64_iff p (omega arith)).0.1 h,
            compared,
            add_lem (number (pos p.value)) [],
          )
          refl
    by_parts false (some p) l h =
        rw
          (
            after_filter,
            (position_to_int64_iff p (omega arith)).0.1 h,
            compared,
            add_lem (number (pos p.value)) [],
          )
          refl

abbrev pub bound_filters : Option ℤ → ℕ → List Filter
bound_filters none n = []
bound_filters (some b) n = up_to (n + 1) ∷ []

abbrev pub bound_args : Option ℤ → List Arg
bound_args none = []
bound_args (some b) = number b ∷ []

bound_filter_lem :
    (bound : Option ℤ) (args : List Arg)
    → bound_filter bound args
      ≡ (map filter_text (bound_filters bound (length args)), args ++ bound_args bound)
unfolding bound_filter
bound_filter_lem none args = ap (λ a. ([], a)) (sym (append-nil args))
bound_filter_lem (some b) args = rw (add_lem (number b) args) refl

abbrev pub limit_number : ℤ → ℕ → Option ℕ
limit_number limit n = if is_positive limit then some (n + 1) else none

abbrev pub limit_args : ℤ → List Arg
limit_args limit = if is_positive limit then number limit ∷ [] else []

limit_text_lem :
    (limit : ℤ) (args : List Arg)
    → limit_text limit args
      ≡ (limit_clause (limit_number limit (length args)), args ++ limit_args limit)
unfolding limit_text
limit_text_lem limit args = elim (Bool-cases (is_positive limit)) [
  | inl e ↦ rw (e, add_lem (number limit) args) refl
  | inr e ↦ rw e (ap (λ a. ([], a)) (sym (append-nil args)))
]

module _ (query : Query) (opts : ReadOptions) (bound : Option ℤ) where
  abbrev pub args_before_query : List Arg
  args_before_query = after_args opts ++ bound_args bound

  abbrev pub args_before_limit : List Arg
  args_before_limit = args_before_query ++ query_args query

  -- The statement of a read, and its arguments.
  abbrev pub statement : Statement
  statement = record {
    filters =
        after_filters opts 0
        ++ bound_filters bound (length (after_args opts))
        ++ query_filters (length args_before_query) query;
    descending = opts.backwards;
    limit = limit_number opts.limit (length args_before_limit);
  }

  abbrev pub arguments : List Arg
  arguments = args_before_limit ++ limit_args opts.limit

  pub build_read_sql-render :
      (table_name : Bytes)
      → AfterFits opts.after
      → build_read_sql table_name query opts bound ≡ some (render table_name statement, arguments)
  unfolding build_read_sql
  build_read_sql-render table_name fits =
      rw
        (
          build_read_sql,
          after_filter_lem opts fits,
          read_text,
          bound_filter_lem bound (after_args opts),
          query_filter_lem query args_before_query,
          limit_text_lem opts.limit args_before_limit,
        )
        (ap
          (λ fs.
            some
              (select_text table_name fs opts.backwards (limit_clause statement.limit), arguments))
          (sym joined))
    where
      from_bound : List Filter
      from_bound = bound_filters bound (length (after_args opts))

      from_query : List Filter
      from_query = query_filters (length args_before_query) query

      joined :
          map filter_text statement.filters
          ≡ map filter_text (after_filters opts 0)
            ++ map filter_text from_bound
            ++ map filter_text from_query
      joined =
          map-append filter_text (after_filters opts 0 ++ from_bound) from_query
          ∙ ap (λ fs. fs ++ map filter_text from_query)
              (map-append filter_text (after_filters opts 0) from_bound)
