-- ===== src/EventStore/Event.antt =====
-- eventstore/event.go. `none` is a nil `json.RawMessage`.
use dcb_event_store_pg_go.Base.{Option, Bytes}
use dcb_event_store_pg_go.EventStore.Position.{SequencePosition}
use dcb_event_store_pg_go.EventStore.Tags.{Tags}

pub record Event : Type 0 where
  pub event_type : Bytes
  pub tags : Tags
  pub event_data : Option Bytes
  pub metadata : Option Bytes

pub record SequencedEvent : Type 0 where
  pub event : Event
  pub position : SequencePosition
