-- ===== src/Memory/Position.antt =====
-- memory/position.go. `panic` is the call of Go's `panic`.
use dcb_event_store_pg_go.Base.{ℕ, ◌<◌, ◌≡◌, List, [], ◌∷◌, Option, none, some, Result, ok, panic}
use dcb_event_store_pg_go.EventStore.Condition.{StoreError}
use dcb_event_store_pg_go.EventStore.Decimal.{u64_mod, format_uint, parse_uint}
use dcb_event_store_pg_go.EventStore.Decimal.RoundTrip.{parse_uint-format_uint}
use dcb_event_store_pg_go.EventStore.Event.{SequencedEvent}
use dcb_event_store_pg_go.EventStore.Position.{
  SequencePosition, Fits, sequence_position_initial, to_string, parse_sequence_position,
}
use dcb_event_store_pg_go.EventStore.Position.Laws.{parse-to_string}

-- The position of the last event, or `p` if there is none.
abbrev pub last_from : SequencePosition → List SequencedEvent → SequencePosition
last_from p [] = p
last_from p (se ∷ events) = last_from se.position events

unfoldable pub last_position : List SequencedEvent → SequencePosition
last_position events = last_from sequence_position_initial events

abbrev or_panic : {A : Type 0} → Option A → Result StoreError A
or_panic none = panic
or_panic (some a) = ok a

unfoldable pub counter_from : SequencePosition → Result StoreError ℕ
counter_from pos = or_panic (parse_uint (to_string pos))

unfoldable pub position_from_counter : ℕ → Result StoreError SequencePosition
position_from_counter n = or_panic (parse_sequence_position (format_uint n))

-- A position that fits gives its number as the counter, with no panic.
pub counter_from_lem : (pos : SequencePosition) → Fits pos → counter_from pos ≡ ok pos.value
unfolding counter_from to_string
counter_from_lem pos h = rw (parse_uint-format_uint pos.value h)

-- A uint64 counter gives the position of that number, with no panic.
pub position_from_counter_lem :
    (n : ℕ) → n < u64_mod → position_from_counter n ≡ ok (record { value = n })
unfolding position_from_counter to_string
position_from_counter_lem n h = rw (parse-to_string (record { value = n }) h)
