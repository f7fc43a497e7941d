-- ===== src/EventStore/Condition.antt =====
-- eventstore/append_condition.go, append_condition_error.go, append_command.go and the options of
-- store.go.
pub mod Scope
use dcb_event_store_pg_go.Base.{
  ℕ, ◌≡◌, refl, Bool, true, false, List, [], ◌∷◌, ◌++◌, Option, none, some, Bytes, codes,
  if◌then◌else◌, ◌==◌, ◌||◌, length, ℤ,
}
use dcb_event_store_pg_go.EventStore.Decimal.{format_uint, digits}
use dcb_event_store_pg_go.EventStore.Event.{Event}
use dcb_event_store_pg_go.EventStore.Position.{SequencePosition}
use dcb_event_store_pg_go.EventStore.Query.{Query, QueryItem, is_all}
use dcb_event_store_pg_go.EventStore.Tags.{len}

-- `none` is a nil `After`.
pub record AppendCondition : Type 0 where
  pub fail_if_events_match : Query
  pub after : Option SequencePosition

pub record AppendCommand : Type 0 where
  pub events : List Event
  pub condition : Option AppendCondition

pub data ScopeError : Type 0 where
  unscoped_query unscoped_item : ScopeError

unfoldable pub is_unscoped : QueryItem → Bool
is_unscoped item = length item.types == 0 || len item.tags == 0

unfoldable pub check_items : List QueryItem → Option ScopeError
unfolding is_unscoped
check_items [] = none
check_items (item ∷ items) = if is_unscoped item then some unscoped_item else check_items items

-- `none` is a nil error.
unfoldable pub validate_append_condition : AppendCondition → Option ScopeError
unfolding check_items
validate_append_condition condition =
    if is_all condition.fail_if_events_match
    then some unscoped_query
    else check_items condition.fail_if_events_match.items

pub record AppendConditionError : Type 0 where
  pub append_condition : AppendCondition
  pub command_index : Option ℕ

abbrev pub violation_text : Bytes
violation_text = codes "expected version fail: new events matching appendCondition found"

unfoldable pub error_text : Option ℕ → Bytes
error_text none = violation_text
error_text (some i) = violation_text ++ codes " (command " ++ format_uint i ++ codes ")"

unfoldable pub error : AppendConditionError → Bytes
unfolding error_text
error e = error_text e.command_index

pub data ContextError : Type 0 where
  canceled deadline_exceeded : ContextError

-- The errors that the methods of a `Store` return themselves.
pub data StoreError : Type 0 where
  context_error : ContextError → StoreError
  scope_error : ScopeError → StoreError
  zero_events : StoreError
  condition_violated : AppendConditionError → StoreError

pub record ReadOptions : Type 0 where
  pub backwards : Bool
  pub after : Option SequencePosition
  pub limit : ℤ
