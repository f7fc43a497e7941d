-- ===== src/EventStore/Position.antt =====
-- eventstore/sequence_position.go. A position is a uint64 that only its package can see; the range
-- is the hypothesis `Fits` of the theorems, and Go's zero value is `sequence_position_initial`.
pub mod Laws
use dcb_event_store_pg_go.Base.{
  ℕ, ◌<◌, ◌≡◌, refl, Bool, true, false, Option, none, some, Bytes, codes, eq_bytes, ltb, ◌==◌,
  if◌then◌else◌, Result, ok, err, panic,
}
use dcb_event_store_pg_go.EventStore.Decimal.{u64_mod, format_uint, parse_uint, digits}

pub record SequencePosition : Type 0 where
  pub value : ℕ

-- The value fits the uint64 that holds it.
abbrev pub Fits : SequencePosition → Type 0
Fits p = p.value < u64_mod

unfoldable pub is_after : SequencePosition → SequencePosition → Bool
is_after p other = ltb other.value p.value

unfoldable pub is_before : SequencePosition → SequencePosition → Bool
is_before p other = ltb p.value other.value

unfoldable pub equal : SequencePosition → SequencePosition → Bool
equal p other = p.value == other.value

unfoldable pub to_string : SequencePosition → Bytes
to_string p = format_uint p.value

abbrev pub sequence_position_initial : SequencePosition
sequence_position_initial = record { value = 0 }

-- The test that the printed value is the text itself: `none` is a failed `ParseUint`.
unfoldable pub canonical : Bytes → Option ℕ → Option SequencePosition
canonical s none = none
canonical s (some value) =
    if eq_bytes (format_uint value) s then some (record { value = value }) else none

-- `none` is the error "invalid position string".
unfoldable pub parse_sequence_position : Bytes → Option SequencePosition
unfolding canonical
parse_sequence_position s = canonical s (parse_uint s)

-- The results -1, 0 and 1 of a comparator.
pub data Comparison : Type 0 where
  less same greater : Comparison

unfoldable pub compare_sequence_position : SequencePosition → SequencePosition → Comparison
compare_sequence_position a b =
    if ltb a.value b.value then less else if ltb b.value a.value then greater else same
