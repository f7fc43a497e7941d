-- ===== src/Tests/Cursor.antt =====
-- A witness of postgres/cursor.go.
use dcb_event_store_pg_go.Base.{
  Bool, Bool-cases, Bytes, codes, Option, Result, ok, err, ◌⊎◌, inl, ◌++◌, ◌||◌, if◌then◌else◌,
  eq_bytes, eq_bytes_sound, lt_bytes, ◌≡◌, refl, true, List, take, drop, none, some, inr, arith,
}
use dcb_event_store_pg_go.EventStore.Event.{SequencedEvent}
use dcb_event_store_pg_go.EventStore.Iterator.{collect}
use dcb_event_store_pg_go.Postgres.Cursor.{
  Connection, CursorIterator, cursor_iterator, cursor_start,
}
use dcb_event_store_pg_go.Postgres.Cursor.Complete.{Fetches, collect-cursor_start}
use dcb_event_store_pg_go.EventStore.Tags.{Tags, values, is_valid_tag_token}
use dcb_event_store_pg_go.EventStore.Tags.Members.{SameMembers}
use dcb_event_store_pg_go.Postgres.Conditions.Rows.{row_of}
use dcb_event_store_pg_go.Postgres.Cursor.Decode.{
  Json, row_to_sequenced_event, row_to_sequenced_event-row_of,
}
use dcb_event_store_pg_go.Tests.Samples.{two_events, second, joined, course_and_student}

-- A connection whose state is the list of the rows that the cursor has left.
abbrev pub list_connection : Connection (List SequencedEvent) ⊥
list_connection = record {
  fetch = λ n rows. (drop n rows, inr (take n rows));
  close_cursor = λ rows. rows;
  rollback = λ rows. rows;
  release = λ rows. rows;
}

pub list_connection-Fetches : Fetches list_connection (λ rows. rows)
list_connection-Fetches = record { next_rows = λ n rows. (drop n rows, refl, refl) }

collect-cursor_start_example :
    (it : CursorIterator (List SequencedEvent) ⊥) × (collect
        (cursor_iterator list_connection)
        3
        (cursor_start two_events.events)
      ≡ some (two_events.events, none, it))
    × (it.closed ≡ true)
collect-cursor_start_example =
    collect-cursor_start list_connection (λ rows. rows) list_connection-Fetches two_events.events 3
      (omega arith)

-- A decoder that knows two values, null and 1.
abbrev null_text : Bytes
null_text = codes "null"

abbrev one_text : Bytes
one_text = codes "1"

abbrev body : Bytes → Bytes → Bytes
body event_data metadata =
    codes "{\"data\":" ++ event_data ++ codes ",\"metadata\":" ++ metadata ++ codes "}"

abbrev small_unmarshal : Bytes → Result (Unit {0}) (Option Bytes × Option Bytes)
small_unmarshal s =
    if eq_bytes s (body null_text null_text)
    then ok (some null_text, some null_text)
    else if eq_bytes s (body null_text one_text)
    then ok (some null_text, some one_text)
    else if eq_bytes s (body one_text null_text)
    then ok (some one_text, some null_text)
    else if eq_bytes s (body one_text one_text)
    then ok (some one_text, some one_text)
    else err tt

abbrev is_small : Bytes → Bool
is_small v = eq_bytes v null_text || eq_bytes v one_text

small_cases : (v : Bytes) → is_small v ≡ true → (v ≡ null_text) ⊎ (v ≡ one_text)
small_cases v h = elim (Bool-cases (eq_bytes v null_text)) [
  | inl e ↦ inl (eq_bytes_sound v null_text e)
  | inr e ↦ inr (eq_bytes_sound v one_text (rw e at h))
]

small_fields :
    (event_data metadata : Bytes)
    → is_small event_data ≡ true
    → is_small metadata ≡ true
    → small_unmarshal (body event_data metadata) ≡ ok (some event_data, some metadata)
unfolding eq_bytes
small_fields event_data metadata h k = by_cases (small_cases event_data h) (small_cases metadata k)
  where
    by_cases :
        (event_data ≡ null_text) ⊎ (event_data ≡ one_text)
        → (metadata ≡ null_text) ⊎ (metadata ≡ one_text)
        → small_unmarshal (body event_data metadata) ≡ ok (some event_data, some metadata)
    by_cases (inl d) (inl m) = rw (d, m) refl
    by_cases (inl d) (inr m) = rw (d, m) refl
    by_cases (inr d) (inl m) = rw (d, m) refl
    by_cases (inr d) (inr m) = rw (d, m) refl

small_json : Json (Unit {0})
unfolding eq_bytes
small_json = record {
  unmarshal = small_unmarshal;
  is_value = is_small;
  null_is_value = refl;
  fields = small_fields;
}

row_to_sequenced_event-row_of_example :
    (tags : Tags) × SameMembers tags.values (values course_and_student)
    × (row_to_sequenced_event small_json (row_of second)
        ≡ ok (record {
          event = record {
            event_type = joined;
            tags = tags;
            event_data = some one_text;
            metadata = some null_text;
          };
          position = record { value = 2 };
        }))
unfolding values lt_bytes eq_bytes is_valid_tag_token small_json
row_to_sequenced_event-row_of_example =
    row_to_sequenced_event-row_of small_json second (omega arith) refl refl tt
