-- ===== src/Postgres/Serialize.antt =====
-- postgres/serialize.go. The parallel slices that a function returns are one list of rows.
pub mod TagText
use dcb_event_store_pg_go.Base.{
  ℕ, suc, ◌+◌, ◌-◌, ◌%◌, ◌^◌, ◌≡◌, List, [], ◌∷◌, ◌++◌, Option, none, some, Bytes, codes, ltb,
  if◌then◌else◌, ℤ, pos, negsuc,
}
use dcb_event_store_pg_go.EventStore.Condition.{AppendCommand, AppendCondition}
use dcb_event_store_pg_go.EventStore.Event.{Event}
use dcb_event_store_pg_go.EventStore.Position.{SequencePosition}
use dcb_event_store_pg_go.EventStore.Query.{QueryItem}
use dcb_event_store_pg_go.EventStore.Tags.{values}
use dcb_event_store_pg_go.Postgres.Position.{position_to_int64}

abbrev pub tag_delimiter : ℕ
tag_delimiter = 0x1F

-- `strings.Join(parts, tagDelimiter)`.
unfoldable pub join_rest : List Bytes → Bytes
join_rest [] = []
join_rest (v ∷ vs) = tag_delimiter ∷ v ++ join_rest vs

unfoldable pub join_tags : List Bytes → Bytes
unfolding join_rest
join_tags [] = []
join_tags (v ∷ vs) = v ++ join_rest vs

abbrev pub or_null : Option Bytes → Bytes
or_null none = codes "null"
or_null (some raw) = raw

unfoldable pub serialize_payload : Event → Bytes
serialize_payload ev =
    codes "{\"data\":"
    ++ or_null ev.event_data
    ++ codes ",\"metadata\":"
    ++ or_null ev.metadata
    ++ codes "}"

pub record EventRow : Type 0 where
  pub row_type : Bytes
  pub row_tags : Bytes
  pub row_payload : Bytes

-- The inner loop of `serializeEvents`.
unfoldable pub event_rows : List Event → List EventRow → List EventRow
event_rows [] rows = rows
event_rows (ev ∷ events) rows = event_rows events (
    rows
    ++ record {
      row_type = ev.event_type;
      row_tags = join_tags (values ev.tags);
      row_payload = serialize_payload ev;
    }
      ∷ [])

unfoldable pub serialize_from : List AppendCommand → List EventRow → List EventRow
unfolding event_rows
serialize_from [] rows = rows
serialize_from (cmd ∷ commands) rows = serialize_from commands (event_rows cmd.events rows)

unfoldable pub serialize_events : List AppendCommand → List EventRow
unfolding serialize_from
serialize_events commands = serialize_from commands []

-- One row for a type of an item, with the item's tags.
pub record ConditionRow : Type 0 where
  pub cmd_idx : ℤ
  pub cond_type : Bytes
  pub cond_tags : Bytes
  pub after_pos : ℤ

-- The conversion of an index to int32.
unfoldable pub to_int32 : ℕ → ℤ
to_int32 i =
    if ltb (i % 2 ^ 32) (2 ^ 31) then pos (i % 2 ^ 32) else negsuc (2 ^ 32 - 1 - i % 2 ^ 32)

-- `afterPos`: 0 for a nil `After`.
unfoldable pub after_int64 : Option SequencePosition → Option ℤ
after_int64 none = some (pos 0)
after_int64 (some p) = position_to_int64 p

unfoldable pub type_rows : ℤ → Bytes → ℤ → List Bytes → List ConditionRow
type_rows idx tags after [] = []
type_rows idx tags after (t ∷ types) =
    record { cmd_idx = idx; cond_type = t; cond_tags = tags; after_pos = after }
    ∷ type_rows idx tags after types

unfoldable pub item_rows : ℤ → ℤ → List QueryItem → List ConditionRow
item_rows idx after [] = []
item_rows idx after (item ∷ items) =
    type_rows idx (join_tags (values item.tags)) after item.types ++ item_rows idx after items

unfoldable pub condition_rows : ℕ → Option AppendCondition → Option (List ConditionRow)
condition_rows i none = some []
condition_rows i (some condition) = elim (after_int64 condition.after) [
  | none ↦ none
  | some after ↦ some (item_rows (to_int32 i) after condition.fail_if_events_match.items)
]

-- The loop of `serializeConditions` from index `i` on; `none` is the panic of `positionToInt64`.
unfoldable pub conditions_from : ℕ → List AppendCommand → Option (List ConditionRow)
conditions_from i [] = some []
conditions_from i (cmd ∷ commands) = elim (condition_rows i cmd.condition) [
  | none ↦ none
  | some rows ↦ elim (conditions_from (suc i) commands) [
    | none ↦ none
    | some later ↦ some (rows ++ later)
  ]
]

unfoldable pub serialize_conditions : List AppendCommand → Option (List ConditionRow)
unfolding conditions_from
serialize_conditions commands = conditions_from 0 commands
