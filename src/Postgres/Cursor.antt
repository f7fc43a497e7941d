-- ===== src/Postgres/Cursor.antt =====
-- postgres/cursor.go, `cursorIterator`, over an interface to the connection with states in `D` and
-- errors in `E`.
pub mod Complete
pub mod Decode
use dcb_event_store_pg_go.Base.{
  ℕ, ◌+◌, ◌-◌, Bool, true, false, ◌||◌, List, [], Option, none, some, if◌then◌else◌, ltb, length,
  get_elem?, is_some, ◌⊎◌, inl, inr,
}
use dcb_event_store_pg_go.EventStore.Event.{SequencedEvent}
use dcb_event_store_pg_go.EventStore.Iterator.{EventIterator}

unfoldable pub read_batch_size : ℕ
read_batch_size = 5000

-- What the iterator calls of its connection. A fetch gives the decoded rows, or the error of the
-- query or of a row.
pub record Connection (D E : Type 0) : Type 0 where
  pub fetch : ℕ → D → D × (E ⊎ List SequencedEvent)
  pub close_cursor : D → D
  pub rollback : D → D
  pub release : D → D

pub record CursorIterator (D E : Type 0) : Type 0 where
  pub conn : D
  pub buffer : List SequencedEvent
  pub idx : ℕ
  pub exhausted : Bool
  pub error : Option E
  pub closed : Bool

module _ {D E : Type 0} (server : Connection D E) where
  -- The end of `Next`, on what the fetch gave.
  unfoldable pub take_batch :
      CursorIterator D E → D × (E ⊎ List SequencedEvent) → Bool × CursorIterator D E
  take_batch it (d, inl e) = (false, record it { conn = d; error = some e })
  take_batch it (d, inr buffer) = (
    ltb 0 (length buffer),
    record it {
      conn = d;
      buffer = buffer;
      idx = 1;
      exhausted = if ltb (length buffer) read_batch_size then true else it.exhausted;
    },
  )

  unfoldable pub cursor_next : CursorIterator D E → Bool × CursorIterator D E
  unfolding take_batch
  cursor_next it =
      if is_some it.error || it.closed
      then (false, it)
      else if ltb it.idx (length it.buffer)
      then (true, record it { idx = it.idx + 1 })
      else if it.exhausted
      then (false, it)
      else take_batch it (server.fetch read_batch_size it.conn)

  -- `it.buffer[it.idx-1]`; `none` is an index out of range.
  unfoldable pub cursor_event : CursorIterator D E → Option SequencedEvent
  cursor_event it = if ltb 0 it.idx then get_elem? it.buffer (it.idx - 1) else none

  unfoldable pub cursor_close : CursorIterator D E → CursorIterator D E
  cursor_close it = if it.closed then it else record it {
    closed = true;
    conn = server.release (server.rollback (server.close_cursor it.conn));
  }

  abbrev pub cursor_iterator : EventIterator E (CursorIterator D E)
  cursor_iterator = record {
    next = cursor_next;
    event = cursor_event;
    failure = λ it. it.error;
    close = cursor_close;
  }

-- The iterator that a read returns, before its first `Next`.
abbrev pub cursor_start : {D E : Type 0} → D → CursorIterator D E
cursor_start d = record {
  conn = d;
  buffer = [];
  idx = 0;
  exhausted = false;
  error = none;
  closed = false;
}
