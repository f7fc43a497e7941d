-- ===== src/Postgres/Position.antt =====
-- postgres/position.go: positions through their decimal text to int64 and back. `none` is a panic.
use dcb_event_store_pg_go.Base.{
  ℕ, ◌+◌, ◌-◌, ◌^◌, ◌<◌, ◌≤◌, ◌≡◌, ◌↔◌, Bool, true, false, [], ◌∷◌, Option, none, some, Bytes, ltb,
  leb, ◌==◌, if◌then◌else◌, arith, ℤ, pos, negsuc,
}
use dcb_event_store_pg_go.EventStore.Decimal.{u64_mod, format_uint, parse_uint}
use dcb_event_store_pg_go.EventStore.Decimal.RoundTrip.{parse_uint-format_uint, format_uint_digit}
use dcb_event_store_pg_go.EventStore.Position.{
  SequencePosition, Fits, to_string, parse_sequence_position,
}
use dcb_event_store_pg_go.EventStore.Position.Laws.{parse-to_string}

-- The end of `strconv.ParseInt`: the range of int64 is checked, then the sign is put on.
unfoldable pub with_sign : Bool → Option ℕ → Option ℤ
with_sign negative none = none
with_sign false (some n) = if leb (2 ^ 63) n then none else some (pos n)
with_sign true (some n) =
    if ltb (2 ^ 63) n then none else if n == 0 then some (pos 0) else some (negsuc (n - 1))

-- `strconv.ParseInt(s, 10, 64)`.
unfoldable pub parse_int : Bytes → Option ℤ
unfolding with_sign
parse_int [] = none
parse_int (c ∷ s) =
    if c == b'-'
    then with_sign true (parse_uint s)
    else if c == b'+'
    then with_sign false (parse_uint s)
    else with_sign false (parse_uint (c ∷ s))

-- `strconv.FormatInt(n, 10)`.
unfoldable pub format_int : ℤ → Bytes
format_int (pos n) = format_uint n
format_int (negsuc n) = b'-' ∷ format_uint (n + 1)

unfoldable pub position_to_int64 : SequencePosition → Option ℤ
position_to_int64 p = parse_int (to_string p)

unfoldable pub int64_to_position : ℤ → Option SequencePosition
int64_to_position n = parse_sequence_position (format_int n)

pub parse_int-format_uint :
    (n : ℕ) → n < u64_mod → parse_int (format_uint n) ≡ with_sign false (some n)
unfolding parse_int
parse_int-format_uint n h =
    by_digit (format_uint n) (format_uint_digit n) (parse_uint-format_uint n h)
  where
    by_digit :
        (s : Bytes)
        → ((c : ℕ) × (t : Bytes) × (s ≡ c ∷ t) × (b'0' ≤ c))
        → parse_uint s ≡ some n
        → parse_int s ≡ with_sign false (some n)
    by_digit s (c, t, e, d) p = rw e (ground (arith, rw e at p))

-- A position of 64 bits goes to int64 as its number exactly if it is below 2^63. From there on, where
-- `ParseSequencePosition` can still make it, the conversion panics.
pub position_to_int64_iff :
    (p : SequencePosition)
    → Fits p
    → ((position_to_int64 p ≡ some (pos p.value)) ↔ (p.value < 2 ^ 63))
      × ((position_to_int64 p ≡ none) ↔ (2 ^ 63 ≤ p.value))
unfolding position_to_int64 to_string with_sign
position_to_int64_iff p h = rw (parse_int-format_uint p.value h) (ground arith)

-- A number that is not negative goes to the position of that value and back to itself.
pub position_to_int64-int64_to_position :
    (n : ℕ)
    → n < 2 ^ 63
    → (int64_to_position (pos n) ≡ some (record { value = n }))
      × (position_to_int64 (record { value = n }) ≡ some (pos n))
unfolding int64_to_position format_int to_string
position_to_int64-int64_to_position n h = (
  parse-to_string (record { value = n }) (omega arith),
  (position_to_int64_iff (record { value = n }) (omega arith)).0.1 h,
)
