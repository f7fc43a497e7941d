-- ===== src/Postgres/ReadSql/Statement.antt =====
-- The cursor's query as a tree: its text, and the rows that it selects.
use dcb_event_store_pg_go.Base.{
  ℕ, ◌-◌, Bool, true, false, ◌&&◌, List, [], ◌∷◌, ◌++◌, map, Option, none, some, Bytes, codes,
  if◌then◌else◌, ℤ, lt_ℤ, le_ℤ, eq_bytes, any, all, get_elem?, select, take, pos_part,
}
use mathlib.Core.List.{reverse}
use dcb_event_store_pg_go.EventStore.Tags.{contains}
use dcb_event_store_pg_go.Postgres.Conditions.{StoredRow}
use dcb_event_store_pg_go.Postgres.ReadSql.{
  Arg, number, text, text_array, placeholder, join, enclosed, alternatives, where_text,
  read_cursor_name,
}

-- The filter of one item: the numbers of the parameters in its list of types, and of its tags.
pub record ItemFilter : Type 0 where
  pub types : List ℕ
  pub tags : Option ℕ

pub data Filter : Type 0 where
  before behind up_to : ℕ → Filter
  one_of : List ItemFilter → Filter

pub record Statement : Type 0 where
  pub filters : List Filter
  pub descending : Bool
  pub limit : Option ℕ

abbrev pub types_text : List ℕ → List Bytes
types_text [] = []
types_text (n ∷ ns) =
    (codes "type IN (" ++ join (codes ", ") (map placeholder (n ∷ ns)) ++ codes ")") ∷ []

abbrev pub tags_text : Option ℕ → List Bytes
tags_text none = []
tags_text (some n) = (codes "tags && " ++ placeholder n ++ codes "::text[]") ∷ []

abbrev pub item_text : ItemFilter → Bytes
item_text f = enclosed (types_text f.types ++ tags_text f.tags)

abbrev pub filter_text : Filter → Bytes
filter_text (before n) = codes "e.sequence_position " ++ codes "<" ++ codes " " ++ placeholder n
filter_text (behind n) = codes "e.sequence_position " ++ codes ">" ++ codes " " ++ placeholder n
filter_text (up_to n) = codes "e.sequence_position <= " ++ placeholder n
filter_text (one_of items) = alternatives (map item_text items)

abbrev pub limit_clause : Option ℕ → Bytes
limit_clause none = []
limit_clause (some n) = codes "LIMIT " ++ placeholder n

abbrev pub select_text : Bytes → List Bytes → Bool → Bytes → Bytes
select_text table_name filters descending limit =
    codes "DECLARE \""
    ++ read_cursor_name
    ++ codes "\" CURSOR FOR SELECT e.sequence_position, e.type, e.payload, e.tags FROM "
    ++ table_name
    ++ codes " e "
    ++ where_text filters
    ++ codes " ORDER BY e.sequence_position "
    ++ (if descending then codes "DESC" else codes "ASC")
    ++ codes " "
    ++ limit

-- The text of a statement.
abbrev pub render : Bytes → Statement → Bytes
render table_name st =
    select_text table_name (map filter_text st.filters) st.descending (limit_clause st.limit)

-- The argument for a parameter.
abbrev pub lookup : List Arg → ℕ → Option Arg
lookup args n = get_elem? args (n - 1)

abbrev pub is_text : Option Arg → Bytes → Bool
is_text (some (text t)) v = eq_bytes v t
is_text _ v = false

-- `tags && $n::text[]`: the two arrays have an element in common.
abbrev pub overlaps : Option Arg → List Bytes → Bool
overlaps (some (text_array ts)) tags = any (contains tags) ts
overlaps _ tags = false

abbrev pub compares : (ℤ → Bool) → Option Arg → Bool
compares test (some (number n)) = test n
compares test _ = false

module _ (args : List Arg) (row : StoredRow) where
  abbrev pub types_hold : List ℕ → Bool
  types_hold [] = true
  types_hold (n ∷ ns) = any (λ n. is_text (lookup args n) row.row_type) (n ∷ ns)

  abbrev pub tags_hold : Option ℕ → Bool
  tags_hold none = true
  tags_hold (some n) = overlaps (lookup args n) row.row_tags

  abbrev pub item_holds : ItemFilter → Bool
  item_holds f = types_hold f.types && tags_hold f.tags

  abbrev pub filter_holds : Filter → Bool
  filter_holds (before n) = compares (λ p. lt_ℤ row.sequence_position p) (lookup args n)
  filter_holds (behind n) = compares (λ p. lt_ℤ p row.sequence_position) (lookup args n)
  filter_holds (up_to n) = compares (λ p. le_ℤ row.sequence_position p) (lookup args n)
  filter_holds (one_of items) = any item_holds items

-- `ORDER BY e.sequence_position`.
abbrev pub insert_row : StoredRow → List StoredRow → List StoredRow
insert_row e [] = e ∷ []
insert_row e (x ∷ rows) =
    let rest = insert_row e rows in
    if le_ℤ e.sequence_position x.sequence_position then e ∷ x ∷ rows else x ∷ rest

abbrev pub by_position : List StoredRow → List StoredRow
by_position [] = []
by_position (e ∷ rows) = insert_row e (by_position rows)

abbrev pub cut_rows : Option Arg → List StoredRow → List StoredRow
cut_rows (some (number n)) rows = take (pos_part n) rows
cut_rows _ rows = rows

abbrev pub limit_rows : List Arg → Option ℕ → List StoredRow → List StoredRow
limit_rows args none rows = rows
limit_rows args (some n) rows = cut_rows (lookup args n) rows

-- The rows of a table that the statement selects, in its order.
abbrev pub run : List Arg → Statement → List StoredRow → List StoredRow
run args st table =
    let chosen = by_position (select (λ e. all (filter_holds args e) st.filters) table) in
    limit_rows args st.limit (if st.descending then reverse chosen else chosen)
