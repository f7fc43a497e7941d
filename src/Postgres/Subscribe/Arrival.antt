-- ===== src/Postgres/Subscribe/Arrival.antt =====
-- A subscription in postgres/subscribe.go on a server that scans its table as declared.
use dcb_event_store_pg_go.Base.{
  ℕ, suc, ◌<◌, ◌^◌, ◌≡◌, ap, ◌∙◌, Bool, true, false, List, [], ◌∷◌, none, some, Bytes, ℤ, length,
  select,
}
use dcb_event_store_pg_go.EventStore.Event.{SequencedEvent}
use dcb_event_store_pg_go.Memory.Matching.{matching_events}
use dcb_event_store_pg_go.Memory.Order.{Ascending}
use dcb_event_store_pg_go.Postgres.Conditions.Rows.{row_of, table_of}
use dcb_event_store_pg_go.Postgres.Cursor.{Connection}
use dcb_event_store_pg_go.Postgres.Cursor.Complete.{Fetches}
use dcb_event_store_pg_go.Postgres.Read.{Pool}
use dcb_event_store_pg_go.Postgres.Read.Complete.{Serves}
use dcb_event_store_pg_go.Postgres.ReadSql.Evaluation.{within, IsMade}
use dcb_event_store_pg_go.Postgres.ReadSql.Selection.{AllOneTag}
use dcb_event_store_pg_go.Postgres.Subscribe.{Listener, SubscribeIterator, next}
use dcb_event_store_pg_go.Postgres.Subscribe.Delivery.{
  Queued, Outcome, next_delivers_first, next-Outcome_of_Drains,
}
use dcb_event_store_pg_go.Postgres.Subscribe.Draining.{
  later_than, table-cons, Scans, drain_collects, Drains-Scans,
}

module _ {D E : Type 0} (pool : Pool D E) (server : Connection D E) (listener : Listener D E)
    (rows : D → List SequencedEvent) (fetches : Fetches server rows) (table_name : Bytes) where
  -- An open iterator with nothing pending and a context that has not ended, with a position below
  -- 2^63 and a query that QueryAll or QueryFromItems makes and whose items have at most one tag each,
  -- on a server that answers the calls of its read, has ascending events, and a cursor whose fetches
  -- give its rows in order: if the memory store reads events behind the position and up to the
  -- high-water mark, Next returns true in two passes of its loop, with a drain of one call of Next more
  -- than the cursor has rows. The event that it takes, whose position is the new one, has the row of
  -- the first of those events, and the pending ones have the rows of the others.
  pub next_delivers_read :
      (f n : ℕ) (it : SubscribeIterator D E) (events : List SequencedEvent) (hwm : ℤ) (d opened : D)
      (first : SequencedEvent) (later : List SequencedEvent)
      → it.error ≡ none
      → it.closed ≡ false
      → it.pending ≡ []
      → listener.ended it.outside ≡ (d, false)
      → IsMade it.query
      → AllOneTag it.query.items
      → it.position.value < 2 ^ 63
      → Serves pool rows table_name it.query (later_than it.position) events hwm d opened
      → Ascending events
      → length (rows opened) < f
      → matching_events (select (within (some hwm)) events) it.query (later_than it.position)
        ≡ first ∷ later
      → (d' : D) × (se : SequencedEvent) × (pending : List SequencedEvent) × (next pool server
            listener table_name f
            (suc (suc n))
            it
          ≡ some (
            true,
            record it {
              outside = d';
              pending = pending;
              current = some se;
              position = se.position;
            },
          ))
        × (row_of se ≡ row_of first)
        × (table_of pending ≡ table_of later)
  next_delivers_read f n it events hwm d opened first later open_ unclosed empty going made one fits
        serves ascending enough some_read =
      let (d', found, drained_, same) =
        drain_collects pool server listener rows fetches table_name it.query it.position made one
          fits events hwm d opened f serves ascending enough in
      let (se, pending, split, head_row, rest) =
        table-cons found first later (same ∙ ap table_of some_read) in
      (
        d',
        se,
        pending,
        next_delivers_first pool server listener table_name f n it d d' se pending open_ unclosed
            empty going (rw split at drained_),
        head_row,
        rest,
      )

  -- For an iterator with a position below 2^63, with a query that QueryAll or QueryFromItems makes
  -- and whose items have at most one tag each, and with pending events that ascend behind the
  -- position, on a server where each declaration that succeeds opens a cursor on what its statement
  -- selects of ascending events, whose fetches give its rows in order: a call of Next that returns true
  -- has moved the iterator to the position of an event behind the old one, which Event then returns; a
  -- call that returns false has left the position, and the iterator has failed, is closed, or its
  -- context has ended.
  pub next-Outcome :
      (f n : ℕ) (it it' : SubscribeIterator D E) (more : Bool) (events : D → List SequencedEvent)
      → Scans pool server listener rows fetches table_name it.query it.position events
      → IsMade it.query
      → AllOneTag it.query.items
      → it.position.value < 2 ^ 63
      → Queued pool server listener table_name f it
      → next pool server listener table_name f n it ≡ some (more, it')
      → Outcome pool server listener table_name f it more it'
  next-Outcome f n it it' more events scans made one fits =
      next-Outcome_of_Drains pool server listener table_name f n it it' more (
        Drains-Scans pool server listener rows fetches table_name it.query it.position made one fits
          events f scans)
