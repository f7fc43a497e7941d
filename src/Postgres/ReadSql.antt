-- ===== src/Postgres/ReadSql.antt =====
-- postgres/readsql.go: the text of the query behind a read's cursor, and its arguments.
pub mod Statement
pub mod Items
pub mod Rendering
pub mod Asked
pub mod Evaluation
pub mod Selection
pub mod Reading
use dcb_event_store_pg_go.Base.{
  ℕ, Bool, List, [], ◌∷◌, ◌++◌, Option, none, some, Bytes, codes, if◌then◌else◌, length, ℤ, pos,
  is_positive,
}
use dcb_event_store_pg_go.EventStore.Condition.{ReadOptions}
use dcb_event_store_pg_go.EventStore.Position.{SequencePosition}
use dcb_event_store_pg_go.EventStore.Query.{Query, QueryItem, is_all}
use dcb_event_store_pg_go.EventStore.Tags.{Tags, values, len}
use dcb_event_store_pg_go.Postgres.Position.{format_int, position_to_int64}

-- An argument of the statement.
pub data Arg : Type 0 where
  number : ℤ → Arg
  text : Bytes → Arg
  text_array : List Bytes → Arg

-- `fmt.Sprintf("$%d", n)`.
unfoldable pub placeholder : ℕ → Bytes
placeholder n = codes "$" ++ format_int (pos n)

-- `add` of the manager, whose state is the arguments so far.
unfoldable pub add : Arg → List Arg → Bytes × List Arg
add v args = let args' = args ++ v ∷ [] in (placeholder (length args'), args')

-- `strings.Join`.
unfoldable pub join_tail : Bytes → List Bytes → Bytes
join_tail sep [] = []
join_tail sep (s ∷ parts) = sep ++ s ++ join_tail sep parts

unfoldable pub join : Bytes → List Bytes → Bytes
unfolding join_tail
join sep [] = []
join sep (s ∷ parts) = s ++ join_tail sep parts

-- The loop over the types of an item.
unfoldable pub type_placeholders : List Bytes → List Arg → List Bytes × List Arg
type_placeholders [] args = ([], args)
type_placeholders (t ∷ types) args =
    let (p, args') = add (text t) args in
    let (rest, args'') = type_placeholders types args' in (p ∷ rest, args'')

unfoldable pub type_parts : List Bytes → List Arg → List Bytes × List Arg
type_parts [] args = ([], args)
type_parts (t ∷ types) args =
    let (placeholders, args') = type_placeholders (t ∷ types) args in
    ((codes "type IN (" ++ join (codes ", ") placeholders ++ codes ")") ∷ [], args')

unfoldable pub tag_parts : List Bytes → List Arg → List Bytes × List Arg
tag_parts [] args = ([], args)
tag_parts (tag ∷ tags) args =
    let (p, args') = add (text_array (tag ∷ tags)) args in
    ((codes "tags && " ++ p ++ codes "::text[]") ∷ [], args')

-- The end of `itemFilterClause`.
unfoldable pub enclosed : List Bytes → Bytes
enclosed [] = []
enclosed (part ∷ parts) = codes "(" ++ join (codes " AND ") (part ∷ parts) ++ codes ")"

unfoldable pub item_filter_clause : QueryItem → List Arg → Bytes × List Arg
item_filter_clause item args =
    let (types, args') = type_parts item.types args in
    let (tags, args'') = tag_parts (values item.tags) args' in (enclosed (types ++ tags), args'')

-- The clauses that are not empty.
abbrev pub unless_empty : Bytes → List Bytes → List Bytes
unless_empty [] clauses = clauses
unless_empty (c ∷ clause) clauses = (c ∷ clause) ∷ clauses

unfoldable pub item_clauses : List QueryItem → List Arg → List Bytes × List Arg
item_clauses [] args = ([], args)
item_clauses (item ∷ items) args =
    let (clause, args') = item_filter_clause item args in
    let (clauses, args'') = item_clauses items args' in (unless_empty clause clauses, args'')

unfoldable pub alternatives : List Bytes → Bytes
alternatives [] = []
alternatives (clause ∷ []) = clause
alternatives (clause ∷ other ∷ clauses) =
    codes "(" ++ join (codes " OR ") (clause ∷ other ∷ clauses) ++ codes ")"

unfoldable pub criteria_clause : Query → List Arg → Bytes × List Arg
criteria_clause query args =
    let (clauses, args') = item_clauses query.items args in (alternatives clauses, args')

unfoldable pub compared : Bool → ℤ → List Arg → List Bytes × List Arg
compared backwards n args =
    let (hole, args') = add (number n) args in
    let op = if backwards then codes "<" else codes ">" in
    ((codes "e.sequence_position " ++ op ++ codes " " ++ hole) ∷ [], args')

-- The filter on `opts.After`; `none` is a panic of `positionToInt64`.
unfoldable pub after_filter : ReadOptions → List Arg → Option (List Bytes × List Arg)
after_filter opts args = elim (opts.after) [
  | none ↦ some ([], args)
  | some p ↦ elim (position_to_int64 p) [
    | none ↦ none
    | some n ↦ some (compared opts.backwards n args)
  ]
]

unfoldable pub bound_filter : Option ℤ → List Arg → List Bytes × List Arg
bound_filter none args = ([], args)
bound_filter (some n) args =
    let (hole, args') = add (number n) args in
    ((codes "e.sequence_position <= " ++ hole) ∷ [], args')

unfoldable pub query_filter : Query → List Arg → List Bytes × List Arg
query_filter query args =
    if is_all query
    then ([], args)
    else let (clause, args') = criteria_clause query args in (unless_empty clause [], args')

unfoldable pub where_text : List Bytes → Bytes
where_text [] = []
where_text (f ∷ filters) = codes "WHERE " ++ join (codes " AND ") (f ∷ filters)

unfoldable pub limit_text : ℤ → List Arg → Bytes × List Arg
limit_text n args =
    if is_positive n
    then (let (hole, args') = add (number n) args in (codes "LIMIT " ++ hole, args'))
    else ([], args)

abbrev pub read_cursor_name : Bytes
read_cursor_name = codes "event_cursor"

-- What follows the filter on `opts.After`.
unfoldable pub read_text :
    Bytes → Query → ReadOptions → Option ℤ → List Bytes × List Arg → Bytes × List Arg
read_text table_name query opts upper_bound (after, args) =
    let (bound, args') = bound_filter upper_bound args in
    let (criteria, args'') = query_filter query args' in
    let (limit, args''') = limit_text opts.limit args'' in
    (
      codes "DECLARE \""
          ++ read_cursor_name
          ++ codes "\" CURSOR FOR SELECT e.sequence_position, e.type, e.payload, e.tags FROM "
          ++ table_name
          ++ codes " e "
          ++ where_text (after ++ bound ++ criteria)
          ++ codes " ORDER BY e.sequence_position "
          ++ (if opts.backwards then codes "DESC" else codes "ASC")
          ++ codes " "
          ++ limit,
      args''',
    )

unfoldable pub build_read_sql : Bytes → Query → ReadOptions → Option ℤ → Option (Bytes × List Arg)
unfolding read_text
build_read_sql table_name query opts upper_bound = elim (after_filter opts []) [
  | none ↦ none
  | some filters ↦ some (read_text table_name query opts upper_bound filters)
]
