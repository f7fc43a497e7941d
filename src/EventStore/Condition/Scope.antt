-- ===== src/EventStore/Condition/Scope.antt =====
-- Which append conditions are accepted.
use dcb_event_store_pg_go.Base.{◌≡◌, ◌≢◌, refl, ◌↔◌, false, List, [], ◌∷◌, none, arith}
use dcb_event_store_pg_go.EventStore.Condition.{
  AppendCondition, check_items, validate_append_condition,
}
use dcb_event_store_pg_go.EventStore.Query.{QueryItem, is_all}
use dcb_event_store_pg_go.EventStore.Tags.{len}

-- Every item names a type and a tag.
abbrev pub Scoped : List QueryItem → Type 0
Scoped [] = Unit
Scoped (item ∷ items) = (item.types ≢ []) × (item.tags.values ≢ []) × Scoped items

check_items-none : (items : List QueryItem) → check_items items ≡ none → Scoped items
unfolding check_items len
check_items-none [] h = tt
check_items-none (item ∷ items) h =
    (ground arith, ground arith, check_items-none items (ground arith))

none-check_items : (items : List QueryItem) → Scoped items → check_items items ≡ none
unfolding check_items len
none-check_items [] s = refl
none-check_items (item ∷ items) (t, g, s) = ground (arith, none-check_items items s)

-- `ValidateAppendCondition` accepts exactly the conditions whose query is not `QueryAll()` and whose
-- items each name a type and a tag.
pub validate_iff :
    (c : AppendCondition)
    → (validate_append_condition c ≡ none)
      ↔ ((is_all c.fail_if_events_match ≡ false) × Scoped c.fail_if_events_match.items)
unfolding validate_append_condition
validate_iff c = (
  λ h. (ground arith, check_items-none c.fail_if_events_match.items (ground arith)),
  λ h. ground (arith, none-check_items c.fail_if_events_match.items h.1),
)
