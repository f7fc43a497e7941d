-- ===== src/EventStore/Decimal/RoundTrip.antt =====
-- What `format_uint` prints, `parse_uint` reads, for every uint64.
use dcb_event_store_pg_go.Base.{
  ℕ, zero, suc, ◌+◌, ◌/◌, ◌%◌, ◌^◌, ◌<◌, ◌≤◌, ◌≡◌, ◌≢◌, refl, [], ◌∷◌, some, arith, Bytes, sym, ◌-◌,
  ◌*◌, ap, false, Bool-cases, inl, inr, ◌==◌, ==_iff,
}
use mathlib.Core.List.{cons-ne-nil}
use dcb_event_store_pg_go.EventStore.Decimal.{
  u64_mod, max_u64, digits, format_uint, scan_uint, parse_uint,
}

-- Reading the last digit behind the digits before it.
scan_last :
    (n : ℕ) (out : Bytes)
    → n ≤ max_u64
    → scan_uint ((b'0' + n % 10) ∷ out) (n / 10) ≡ scan_uint out n
unfolding scan_uint
scan_last n out h = ground arith

scan-digits :
    (f n : ℕ) (out : Bytes)
    → n < 10 ^ f
    → n ≤ max_u64
    → scan_uint (digits f n out) 0 ≡ scan_uint out n
unfolding digits
scan-digits zero n out h k = ap (scan_uint out) (omega arith)
scan-digits (suc f) n out h k =
    ground (arith, scan_last n out k, scan-digits f (n / 10) ((b'0' + n % 10) ∷ out))

digits-ne-nil : (f n : ℕ) (out : Bytes) → out ≢ [] → digits f n out ≢ []
unfolding digits
digits-ne-nil zero n out h = h
digits-ne-nil (suc f) n out h = ground (arith, digits-ne-nil f (n / 10) ((b'0' + n % 10) ∷ out))

parse-scan : (s : Bytes) → s ≢ [] → parse_uint s ≡ scan_uint s 0
unfolding parse_uint
parse-scan [] h = absurd (h refl)
parse-scan (c ∷ s) h = refl

digits_pos-ne-nil : (f n : ℕ) → 0 < f → 0 < n → digits f n [] ≢ []
unfolding digits
digits_pos-ne-nil zero n h k = absurd (omega arith)
digits_pos-ne-nil (suc f) n h k =
    ground (arith, digits-ne-nil f (n / 10) ((b'0' + n % 10) ∷ []) (cons-ne-nil (b'0' + n % 10) []))

-- Every uint64 is read back from its decimal form.
pub parse_uint-format_uint : (n : ℕ) → n < u64_mod → parse_uint (format_uint n) ≡ some n
unfolding format_uint
parse_uint-format_uint n h = elim (Bool-cases (n == 0)) [
  | inl z ↦ rw z (unfold parse_uint in ap some (sym ((==_iff n 0).0 z)))
  | inr nz ↦
      rw
        (
          nz,
          parse-scan _ (digits_pos-ne-nil 20 n (omega arith) (ground arith)),
          scan-digits 20 n [] (omega arith) (omega arith),
        )
        (unfold scan_uint in refl)
]

scan_uint-lt : (s : Bytes) (n : ℕ) {v : ℕ} → n < u64_mod → scan_uint s n ≡ some v → v < u64_mod
unfolding scan_uint
scan_uint-lt [] n h e = ground arith
scan_uint-lt (c ∷ s) n {v} h e = ground (arith, scan_uint-lt s (n * 10 + (c - b'0')) {v = v})

-- A number that is read fits 64 bits.
pub parse_uint-lt : (s : Bytes) {v : ℕ} → parse_uint s ≡ some v → v < u64_mod
unfolding parse_uint
parse_uint-lt [] e = absurd (ground arith)
parse_uint-lt (c ∷ s) e = scan_uint-lt (c ∷ s) 0 (omega arith) e

-- The first byte of `digits` in front of a digit is a digit.
digits_head :
    (f n : ℕ) (out : Bytes)
    → ((c : ℕ) × (t : Bytes) × (out ≡ c ∷ t) × (b'0' ≤ c))
    → (c : ℕ) × (t : Bytes) × (digits f n out ≡ c ∷ t) × (b'0' ≤ c)
unfolding digits
digits_head zero n out h = h
digits_head (suc f) n out h = elim (Bool-cases (n == 0)) [
  | inl z ↦ rw z h
  | inr nz ↦ rw nz (digits_head f (n / 10) _ (b'0' + n % 10, out, refl, omega arith))
]

digits_pos_head :
    (f n : ℕ) → 0 < f → 0 < n → (c : ℕ) × (t : Bytes) × (digits f n [] ≡ c ∷ t) × (b'0' ≤ c)
unfolding digits
digits_pos_head zero n h k = absurd (omega arith)
digits_pos_head (suc f) n h k =
    let nz : (n == 0) ≡ false = ground arith in
    rw nz (digits_head f (n / 10) _ (b'0' + n % 10, [], refl, omega arith))

-- The decimal form of a number begins with a digit, not with a sign.
pub format_uint_digit : (n : ℕ) → (c : ℕ) × (t : Bytes) × (format_uint n ≡ c ∷ t) × (b'0' ≤ c)
unfolding format_uint
format_uint_digit n = elim (Bool-cases (n == 0)) [
  | inl z ↦ rw z (b'0', [], refl, omega arith)
  | inr nz ↦ rw nz (digits_pos_head 20 n (omega arith) (ground arith))
]
