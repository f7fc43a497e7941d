-- ===== src/Postgres/Open/Names.antt =====
-- The names of an opened store can be written into SQL.
use dcb_event_store_pg_go.Base.{ℕ, Bool, leb, ◌||◌}
use dcb_event_store_pg_go.Postgres.Open.{between, is_letter}

-- A byte that needs no quotes: a letter, digit or underscore, or a byte of a character beyond ASCII.
abbrev pub is_plain : ℕ → Bool
is_plain c = is_letter c || between b'0' b'9' c || leb 128 c
