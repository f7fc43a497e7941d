-- ===== src/Memory/Matching.antt =====
-- memory/matching.go.
pub mod Meaning
pub mod Reading
use dcb_event_store_pg_go.Base.{
  ℕ, ◌≡◌, Bool, true, false, not, ◌&&◌, ◌||◌, List, [], ◌∷◌, ◌++◌, Option, none, some,
  if◌then◌else◌, any, all, length, take, ltb, ℤ, is_positive, pos_part,
}
use mathlib.Core.List.{reverse}
use dcb_event_store_pg_go.EventStore.Condition.{ReadOptions}
use dcb_event_store_pg_go.EventStore.Event.{Event, SequencedEvent}
use dcb_event_store_pg_go.EventStore.Position.{SequencePosition, is_after, is_before}
use dcb_event_store_pg_go.EventStore.Query.{Query, QueryItem, is_all}
use dcb_event_store_pg_go.EventStore.Tags.{Tags, contains, values}

-- Whether every value of `filter` is also in `tags`.
unfoldable pub is_tag_subset : Tags → Tags → Bool
is_tag_subset filter tags = all (λ v. contains (values tags) v) (values filter)

unfoldable pub matches_query_item : QueryItem → Event → Bool
matches_query_item item ev = contains item.types ev.event_type && is_tag_subset item.tags ev.tags

unfoldable pub matches_query : Query → Event → Bool
matches_query query ev =
    if is_all query then true else any (λ item. matches_query_item item ev) query.items

-- The guard of a loop's `continue`: a nil `after` skips nothing.
unfoldable pub is_past : Option SequencePosition → SequencedEvent → Bool
is_past none se = true
is_past (some p) se = is_after se.position p

unfoldable pub any_match_after : List SequencedEvent → Query → Option SequencePosition → Bool
any_match_after [] query after = false
any_match_after (se ∷ events) query after =
    if not (is_past after se)
    then any_match_after events query after
    else if matches_query query se.event
    then true
    else any_match_after events query after

-- The position guard of `matchingEvents`.
unfoldable pub in_range : ReadOptions → SequencedEvent → Bool
in_range opts se = elim (opts.after) [
  | none ↦ true
  | some p ↦ if opts.backwards then is_before se.position p else is_after se.position p
]

-- The loop of `matchingEvents`.
unfoldable pub collect_matching :
    Query → ReadOptions → List SequencedEvent → List SequencedEvent → List SequencedEvent
collect_matching query opts [] result = result
collect_matching query opts (se ∷ events) result = collect_matching query opts events (
    if not (in_range opts se)
    then result
    else if not (matches_query query se.event)
    then result
    else result ++ se ∷ [])

-- The reversal of a backwards read.
unfoldable pub in_order : Bool → List SequencedEvent → List SequencedEvent
in_order backwards result = if backwards then reverse result else result

-- The cut of a limited read.
unfoldable pub limited : ℤ → List SequencedEvent → List SequencedEvent
limited limit result =
    if is_positive limit && ltb (pos_part limit) (length result)
    then take (pos_part limit) result
    else result

unfoldable pub matching_events : List SequencedEvent → Query → ReadOptions → List SequencedEvent
unfolding limited in_order
matching_events events query opts =
    limited opts.limit (in_order opts.backwards (collect_matching query opts events []))
