-- ===== src/EventStore/Decimal.antt =====
-- `strconv.FormatUint(n, 10)` and `strconv.ParseUint(s, 10, 64)`, as eventstore/sequence_position.go
-- and memory/position.go use them. A uint64 has at most 20 digits, which is the fuel of `format_uint`.
pub mod RoundTrip
use dcb_event_store_pg_go.Base.{
  ℕ, zero, suc, ◌+◌, ◌-◌, ◌*◌, ◌/◌, ◌%◌, ◌^◌, ◌<◌, ◌≡◌, refl, [], ◌∷◌, Option, none, some, ◌||◌,
  Bytes, codes, ltb, leb, ◌==◌, if◌then◌else◌,
}

abbrev pub u64_mod : ℕ
u64_mod = 2 ^ 64

abbrev pub max_u64 : ℕ
max_u64 = 2 ^ 64 - 1

-- The digits of `n`, the last one first found, in front of `out`.
unfoldable pub digits : ℕ → ℕ → Bytes → Bytes
digits zero n out = out
digits (suc f) n out =
    let rest = digits f (n / 10) ((b'0' + n % 10) ∷ out) in if n == 0 then out else rest

unfoldable pub format_uint : ℕ → Bytes
format_uint n = if n == 0 then b'0' ∷ [] else digits 20 n []

-- The loop of `ParseUint`: a byte that is no digit and a value over the maximum are errors.
unfoldable pub scan_uint : Bytes → ℕ → Option ℕ
scan_uint [] n = some n
scan_uint (c ∷ s) n =
    let d = c - b'0' in
    if ltb c b'0' || ltb b'9' c
    then none
    else if leb (max_u64 / 10 + 1) n
    then none
    else if ltb max_u64 (n * 10 + d)
    then none
    else scan_uint s (n * 10 + d)

unfoldable pub parse_uint : Bytes → Option ℕ
unfolding scan_uint
parse_uint [] = none
parse_uint (c ∷ s) = scan_uint (c ∷ s) 0

format_uint_max : format_uint max_u64 ≡ codes "18446744073709551615"
unfolding format_uint digits
format_uint_max = refl

parse_uint_overflow : parse_uint (codes "18446744073709551616") ≡ none
unfolding parse_uint
parse_uint_overflow = refl
