-- ===== src/Postgres/Cursor/Decode.antt =====
-- postgres/cursor.go, `rowToSequencedEvent`: a row of the table back to its event. The JSON decoder is
-- a parameter.
use dcb_event_store_pg_go.Base.{
  ◌<◌, ◌^◌, ◌≡◌, refl, Bool, true, ◌++◌, Option, none, some, Bytes, codes, Result, ok, err, panic,
  all,
}
use dcb_event_store_pg_go.EventStore.Event.{SequencedEvent}
use dcb_event_store_pg_go.EventStore.Position.{SequencePosition}
use dcb_event_store_pg_go.EventStore.Tags.{Tags, TagError, values, is_valid_tag_token, tags_from}
use dcb_event_store_pg_go.EventStore.Tags.Creation.{tags_from_valid}
use dcb_event_store_pg_go.EventStore.Tags.Members.{SameMembers}
use dcb_event_store_pg_go.Postgres.Conditions.{StoredRow}
use dcb_event_store_pg_go.Postgres.Conditions.Rows.{row_of}
use dcb_event_store_pg_go.Postgres.Position.{int64_to_position, position_to_int64-int64_to_position}
use dcb_event_store_pg_go.Postgres.Serialize.{or_null, serialize_payload}

-- `json.Unmarshal` into the struct of two raw messages, with errors in `E`. A text that is a JSON value,
-- with no space around it, comes back as it stands in its field, also where it is null.
pub record Json (E : Type 0) : Type 0 where
  pub unmarshal : Bytes → Result E (Option Bytes × Option Bytes)
  pub is_value : Bytes → Bool
  pub null_is_value : is_value (codes "null") ≡ true
  pub fields :
      (event_data metadata : Bytes)
      → is_value event_data ≡ true
      → is_value metadata ≡ true
      → unmarshal
          (codes "{\"data\":" ++ event_data ++ codes ",\"metadata\":" ++ metadata ++ codes "}")
        ≡ ok (some event_data, some metadata)

pub data RowError (E : Type 0) : Type 0 where
  json_error : E → RowError E
  tag_error : TagError → RowError E

module _ {E : Type 0} (json : Json E) where
  -- The event of a row with decoded tags, and its position, which may panic.
  unfoldable pub with_position :
      StoredRow
      → Option Bytes × Option Bytes
      → Tags
      → Option SequencePosition
      → Result (RowError E) SequencedEvent
  with_position row (data_, metadata) tags none = panic
  with_position row (data_, metadata) tags (some p) = ok (record {
    event = record {
      event_type = row.row_type;
      tags = tags;
      event_data = data_;
      metadata = metadata;
    };
    position = p;
  })

  unfoldable pub with_tags :
      StoredRow
      → Option Bytes × Option Bytes
      → Result TagError Tags
      → Result (RowError E) SequencedEvent
  unfolding with_position
  with_tags row decoded (ok tags) =
      with_position row decoded tags (int64_to_position row.sequence_position)
  with_tags row decoded (err e) = err (tag_error e)
  with_tags row decoded panic = panic

  unfoldable pub with_payload :
      StoredRow → Result E (Option Bytes × Option Bytes) → Result (RowError E) SequencedEvent
  unfolding with_tags
  with_payload row (ok decoded) = with_tags row decoded (tags_from row.row_tags)
  with_payload row (err e) = err (json_error e)
  with_payload row panic = panic

  -- `rowToSequencedEvent`, behind the scan of the row.
  unfoldable pub row_to_sequenced_event : StoredRow → Result (RowError E) SequencedEvent
  unfolding with_payload
  row_to_sequenced_event row = with_payload row (json.unmarshal row.row_payload)

  -- The data that a row can hold: none, or a JSON value.
  abbrev pub Storable : Option Bytes → Type 0
  Storable none = Unit
  Storable (some raw) = json.is_value raw ≡ true

  Storable-or_null : (raw : Option Bytes) → Storable raw → json.is_value (or_null raw) ≡ true
  Storable-or_null none h = json.null_is_value
  Storable-or_null (some raw) h = h

  -- The row of an event with valid tags, storable data and a position below 2^63 is decoded, with no
  -- error, to an event of the same position, type and set of tags, whose data and metadata are those of
  -- the event, or the JSON null where the event has none.
  pub row_to_sequenced_event-row_of :
      (se : SequencedEvent)
      → se.position.value < 2 ^ 63
      → all is_valid_tag_token (values se.event.tags) ≡ true
      → Storable se.event.event_data
      → Storable se.event.metadata
      → (tags : Tags) × SameMembers tags.values (values se.event.tags)
        × (row_to_sequenced_event (row_of se)
            ≡ ok (record {
              event = record {
                event_type = se.event.event_type;
                tags = tags;
                event_data = some (or_null se.event.event_data);
                metadata = some (or_null se.event.metadata);
              };
              position = se.position;
            }))
  unfolding row_to_sequenced_event serialize_payload
  row_to_sequenced_event-row_of se fits valid data_ metadata =
      let (tags, made, _, same) = tags_from_valid (values se.event.tags) valid in
      let decoded =
        json.fields (or_null se.event.event_data) (or_null se.event.metadata)
          (Storable-or_null se.event.event_data data_)
          (Storable-or_null se.event.metadata metadata) in
      (
        tags,
        same,
        rw
            (
              decoded,
              with_payload,
              made,
              with_tags,
              (position_to_int64-int64_to_position se.position.value fits).0,
              with_position,
            )
            refl,
      )
