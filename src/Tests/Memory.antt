-- ===== src/Tests/Memory.antt =====
-- Witnesses of the memory store.
use dcb_event_store_pg_go.Base.{
  ℕ, ◌+◌, ◌<◌, ◌≡◌, ◌≢◌, refl, ap, ◌↔◌, ◌⊎◌, Bool, true, false, List, [], ◌∷◌, none, some, arith,
  ltb, length, ok, err, Memᴰ, lt_bytes, eq_bytes,
}
use dcb_event_store_pg_go.EventStore.Condition.{
  condition_violated, AppendConditionError, validate_append_condition,
}
use dcb_event_store_pg_go.EventStore.Event.{SequencedEvent}
use dcb_event_store_pg_go.EventStore.Position.{SequencePosition}
use dcb_event_store_pg_go.EventStore.Tags.{len, values}
use dcb_event_store_pg_go.Memory.Matching.{
  any_match_after, matches_query, matching_events, is_past, matches_query_item, is_tag_subset,
}
use dcb_event_store_pg_go.Memory.Matching.Meaning.{Matches, matches_query_iff}
use dcb_event_store_pg_go.Memory.Matching.Reading.{
  InRange, Ordered, mem-matching_events, matching_events-Ordered,
}
use dcb_event_store_pg_go.Memory.Position.{last_position}
use dcb_event_store_pg_go.Memory.Store.{validate_commands, append, violation}
use dcb_event_store_pg_go.Memory.Store.Append.{batch_events, numbered}
use dcb_event_store_pg_go.Memory.Store.Contract.{
  IsValid, HasRoom, stored, append_spec, append-append_spec,
}
use dcb_event_store_pg_go.Memory.Store.Promises.{
  append_success_iff, append_atomic, append-IsValid, append_violation,
}
use dcb_event_store_pg_go.Memory.Store.Violations.{AllAllowed, FirstViolation}
use dcb_event_store_pg_go.Tests.Samples.{
  second, two_events, joins, joined_event, join_again, refused, none_ever, from_start, newest,
}

closed_below : (ch : ℕ) → Memᴰ ch (1 ∷ 0 ∷ []) → ch < 2
closed_below ch (Memᴰ.head e) = omega (arith, e)
closed_below ch (Memᴰ.tail (Memᴰ.head e)) = omega (arith, e)
closed_below ch (Memᴰ.tail (Memᴰ.tail m)) = elim m [ ]

pub two_events-IsValid : IsValid two_events
unfolding last_position
two_events-IsValid = record {
  ascending = (omega arith, tt);
  fits = omega arith;
  older = closed_below;
  current = refl;
}

pub join_again-HasRoom : HasRoom two_events join_again
unfolding last_position
join_again-HasRoom = omega arith

refused-HasRoom : HasRoom two_events refused
unfolding last_position
refused-HasRoom = omega arith

append_success_iff_example : ((append none join_again two_events).1 ≡ ok (record { value = 3 })) ↔ (
    (validate_commands join_again ≡ none)
    × AllAllowed two_events.events join_again
    × (batch_events join_again ≢ [])
    × (3 ≡ (last_position two_events.events).value + length (batch_events join_again)))
append_success_iff_example =
    append_success_iff two_events join_again two_events-IsValid join_again-HasRoom
      (record { value = 3 })

append_atomic_example :
    (((append none join_again two_events).0 ≡ two_events)
      × ((p : SequencePosition) → (append none join_again two_events).1 ≢ ok p))
    ⊎ ((p : SequencePosition) × ((append none join_again two_events).1 ≡ ok p)
        × ((append none join_again two_events).0
            ≡ stored two_events
                (numbered (last_position two_events.events).value (batch_events join_again))))
append_atomic_example = append_atomic two_events join_again two_events-IsValid join_again-HasRoom

append-IsValid_example : IsValid (append none join_again two_events).0
append-IsValid_example = append-IsValid two_events join_again two_events-IsValid join_again-HasRoom

abbrev refusal : AppendConditionError
refusal = record { append_condition = none_ever; command_index = some 1 }

refused_is : (append none refused two_events).1 ≡ err (condition_violated refusal)
unfolding validate_commands validate_append_condition len violation any_match_after matches_query
    is_past matches_query_item is_tag_subset values lt_bytes eq_bytes
refused_is =
    ap (λ r. r.1) (append-append_spec two_events refused two_events-IsValid refused-HasRoom)

append_violation_example :
    FirstViolation two_events.events (ltb 1 (length refused)) 0 refused refusal
append_violation_example =
    append_violation two_events refused two_events-IsValid refused-HasRoom refusal refused_is

append-append_spec_example : append none refused two_events ≡ append_spec refused two_events
append-append_spec_example =
    append-append_spec two_events refused two_events-IsValid refused-HasRoom

matches_query_iff_example : (matches_query joins joined_event ≡ true) ↔ Matches joins joined_event
matches_query_iff_example = matches_query_iff joins joined_event

mem-matching_events_example :
    Memᴰ second (matching_events two_events.events joins from_start)
    ↔ (Memᴰ second two_events.events × InRange false none second × Matches joins second.event)
mem-matching_events_example = mem-matching_events two_events.events joins from_start second refl

matching_events-Ordered_example : Ordered true (matching_events two_events.events joins newest)
matching_events-Ordered_example =
    matching_events-Ordered two_events.events joins newest (omega arith, tt)

-- A consumer that keeps the positions and stops at the second.
abbrev take_positions : List ℕ → SequencedEvent → List ℕ × Bool
take_positions taken se = (se.position.value ∷ taken, ltb se.position.value 2)
