-- ===== src/EventStore/Position/Laws.antt =====
-- The text form of a position is canonical, and the comparisons agree.
use dcb_event_store_pg_go.Base.{
  ℕ, ◌≡◌, refl, ◌↔◌, true, Option, none, some, arith, Bytes, eq_bytes_sound, eq_bytes_refl,
}
use dcb_event_store_pg_go.EventStore.Decimal.{format_uint, parse_uint}
use dcb_event_store_pg_go.EventStore.Decimal.RoundTrip.{parse_uint-format_uint, parse_uint-lt}
use dcb_event_store_pg_go.EventStore.Position.{
  SequencePosition, Fits, is_after, is_before, equal, to_string, canonical, parse_sequence_position,
  less, same, greater, compare_sequence_position,
}

-- A position that fits is parsed back from its text.
pub parse-to_string :
    (p : SequencePosition) → Fits p → parse_sequence_position (to_string p) ≡ some p
unfolding parse_sequence_position to_string
parse-to_string p h = rw (parse_uint-format_uint p.value h, canonical, eq_bytes_refl) refl

canonical_sound :
    (s : Bytes) (o : Option ℕ) (p : SequencePosition)
    → canonical s o ≡ some p
    → (o ≡ some p.value) × (s ≡ format_uint p.value)
unfolding canonical
canonical_sound s none p h = absurd (ground arith)
canonical_sound s (some v) p h = ground (arith, eq_bytes_sound (format_uint v) s)

-- A text is accepted exactly if it is the print of the position returned, which then fits 64 bits:
-- no two texts stand for one position.
pub parse_sequence_position_iff :
    (s : Bytes) (p : SequencePosition)
    → (parse_sequence_position s ≡ some p) ↔ ((s ≡ to_string p) × Fits p)
unfolding parse_sequence_position to_string
parse_sequence_position_iff s p = (sound, λ h. rw (h.0) (parse-to_string p h.1))
  where
    sound : canonical s (parse_uint s) ≡ some p → (s ≡ format_uint p.value) × Fits p
    sound h =
        let (read, text) = canonical_sound s (parse_uint s) p h in (text, parse_uint-lt s read)

-- Exactly one of the three comparisons of two positions holds, and the comparator names it.
pub compare_lem :
    (a b : SequencePosition)
    → ((compare_sequence_position a b ≡ less) ↔ (is_before a b ≡ true))
      × ((compare_sequence_position a b ≡ greater) ↔ (is_after a b ≡ true))
      × ((compare_sequence_position a b ≡ same) ↔ (a ≡ b))
      × ((equal a b ≡ true) ↔ (a ≡ b))
unfolding compare_sequence_position is_before is_after equal
compare_lem a b = ground arith
