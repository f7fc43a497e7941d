-- ===== src/Postgres/Conditions.antt =====
-- The check of append conditions on the server: the stored procedure `<table>_check_conditions` and
-- the check inside `<table>_append`, both in the SQL text of postgres/store.go, and `checkConditions`
-- of postgres/append.go. A `bigint` is an integer.
pub mod Rows
pub mod Agreement
use dcb_event_store_pg_go.Base.{
  ℕ, suc, ◌≡◌, Bool, true, false, ◌&&◌, List, [], ◌∷◌, ◌++◌, Option, none, some, Bytes, eq_bytes,
  if◌then◌else◌, any, all, ℤ, pos, lt_ℤ, le_ℤ,
}
use dcb_event_store_pg_go.EventStore.Condition.{AppendCommand, AppendCondition}
use dcb_event_store_pg_go.EventStore.Tags.{contains}
use dcb_event_store_pg_go.Postgres.Serialize.{ConditionRow, serialize_conditions, tag_delimiter}
use dcb_event_store_pg_go.Postgres.Serialize.TagText.{StringToArray}

-- A row of the events table.
pub record StoredRow : Type 0 where
  pub sequence_position : ℤ
  pub row_type : Bytes
  pub row_tags : List Bytes
  pub row_payload : Bytes

module _ (server : StringToArray) where
  -- `CASE WHEN ctags_str = '' THEN ARRAY[]::text[] ELSE string_to_array(…) END`.
  unfoldable pub ctags_of : Bytes → List Bytes
  ctags_of [] = []
  ctags_of (c ∷ s) = server.string_to_array (c ∷ s)

  -- The `WHERE` clause: `@>` is containment of arrays.
  unfoldable pub row_hit : ℤ → ConditionRow → StoredRow → Bool
  unfolding ctags_of
  row_hit p_hwm c e =
      all (contains e.row_tags) (ctags_of c.cond_tags)
      && eq_bytes e.row_type c.cond_type
      && lt_ℤ c.after_pos e.sequence_position
      && le_ℤ e.sequence_position p_hwm

  -- `EXISTS (SELECT 1 FROM … WHERE …)`.
  unfoldable pub row_failed : List StoredRow → ℤ → ConditionRow → Bool
  row_failed table p_hwm c = any (row_hit p_hwm c) table

  -- `ORDER BY c.cmd_idx LIMIT 1`: the smaller of an index and the least of the others.
  unfoldable pub least : ℤ → Option ℤ → Option ℤ
  least i none = some i
  least i (some j) = some (if le_ℤ i j then i else j)

  -- The procedure `<table>_check_conditions`.
  unfoldable pub check_function : List StoredRow → ℤ → List ConditionRow → Option ℤ
  check_function table p_hwm [] = none
  check_function table p_hwm (c ∷ conds) =
      let rest = check_function table p_hwm conds in
      if row_failed table p_hwm c then least c.cmd_idx rest else rest

  -- The check inside `<table>_append`, with its short cut for one row.
  unfoldable pub append_check : List StoredRow → ℤ → List ConditionRow → Option ℤ
  append_check table v_hwm [] = none
  append_check table v_hwm (c ∷ []) = if row_failed table v_hwm c then some c.cmd_idx else none
  append_check table v_hwm (c ∷ c' ∷ conds) = check_function table v_hwm (c ∷ c' ∷ conds)

  unfoldable pub query_check : List StoredRow → ℤ → List ConditionRow → Option ℤ
  query_check table hwm [] = none
  query_check table hwm (c ∷ conds) = check_function table hwm (c ∷ conds)

  -- `checkConditions` of the COPY path, where the query succeeds. The outer `none` is a panic.
  unfoldable pub check_conditions : List StoredRow → ℤ → List AppendCommand → Option (Option ℤ)
  unfolding query_check
  check_conditions table hwm commands = elim (serialize_conditions commands) [
    | none ↦ none
    | some rows ↦ some (query_check table hwm rows)
  ]
