-- ===== src/Postgres/Read/Complete.antt =====
-- A forward read behind its barrier, from the call of Read to the end of Collect.
use dcb_event_store_pg_go.Base.{
  ℕ, ◌<◌, ◌≡◌, refl, sym, ◌∙◌, Bool, false, List, none, some, Bytes, ℤ, Result, ok, length, select,
  if◌then◌else◌,
}
use mathlib.Core.Path.{subst}
use dcb_event_store_pg_go.EventStore.Condition.{ReadOptions}
use dcb_event_store_pg_go.EventStore.Event.{SequencedEvent}
use dcb_event_store_pg_go.EventStore.Iterator.{collect}
use dcb_event_store_pg_go.EventStore.Query.{Query}
use dcb_event_store_pg_go.Memory.Matching.{matching_events}
use dcb_event_store_pg_go.Memory.Order.{Ascending}
use dcb_event_store_pg_go.Postgres.Conditions.Agreement.{AfterFits}
use dcb_event_store_pg_go.Postgres.Conditions.Rows.{table_of}
use dcb_event_store_pg_go.Postgres.Cursor.{
  Connection, CursorIterator, cursor_iterator, cursor_start,
}
use dcb_event_store_pg_go.Postgres.Cursor.Complete.{Fetches, collect-cursor_start}
use dcb_event_store_pg_go.Postgres.LockKeys.{compute_reader_lock_keys}
use dcb_event_store_pg_go.Postgres.ReadSql.{build_read_sql}
use dcb_event_store_pg_go.Postgres.ReadSql.Statement.{render, run}
use dcb_event_store_pg_go.Postgres.ReadSql.Rendering.{statement, arguments}
use dcb_event_store_pg_go.Postgres.ReadSql.Evaluation.{within, IsMade}
use dcb_event_store_pg_go.Postgres.ReadSql.Selection.{AllOneTag}
use dcb_event_store_pg_go.Postgres.ReadSql.Reading.{reads_as_memory}
use dcb_event_store_pg_go.Postgres.Read.{
  Pool, or_else, barrier_snapshot, declare, open_cursor, read,
}

-- The calls of a forward read on a server that answers them: the barrier returns `hwm`, and the
-- cursor's rows are those that the declared statement selects of the table at that moment.
pub record Serves {D E : Type 0} (pool : Pool D E) (rows : D → List SequencedEvent)
    (table_name : Bytes) (query : Query) (opts : ReadOptions) (events : List SequencedEvent)
    (hwm : ℤ) (d opened : D) : Type 0 where
  pub settled : D
  pub acquired : D
  pub begun : D
  pub settles : pool.call_barrier (compute_reader_lock_keys query) d ≡ (settled, ok hwm)
  pub acquires : pool.acquire settled ≡ (acquired, ok tt)
  pub begins : pool.begin_tx acquired ≡ (begun, ok tt)
  pub declares :
      pool.exec
        (render table_name (statement query opts (some hwm)))
        (arguments query opts (some hwm))
        begun
      ≡ (opened, ok tt)
  pub selects :
      table_of (rows opened)
      ≡ run (arguments query opts (some hwm)) (statement query opts (some hwm)) (table_of events)

module _ {D E : Type 0} (pool : Pool D E) (server : Connection D E) (rows : D → List SequencedEvent)
    (fetches : Fetches server rows) (table_name : Bytes) (query : Query) (opts : ReadOptions)
    (events : List SequencedEvent) (hwm : ℤ) (d opened : D)
    (serves : Serves pool rows table_name query opts events hwm d opened) where
  -- For a forward read, by a query that QueryAll or QueryFromItems makes and whose items have at most one
  -- tag each, with an After below 2^63, of a table with ascending events, on a server that answers its calls
  -- and a cursor whose fetches give its rows in order: Read returns an iterator, Collect ends on it with
  -- no error, within one call of Next more than there are rows, and gives events with the rows of those that the
  -- memory store reads of the events up to the high-water mark.
  pub read_collects :
      (f : ℕ)
      → opts.backwards ≡ false
      → IsMade query
      → AllOneTag query.items
      → AfterFits opts.after
      → Ascending events
      → length (rows opened) < f
      → (found : List SequencedEvent) × (it : CursorIterator D E) × (read pool table_name query opts
            d
          ≡ (opened, ok (cursor_start opened)))
        × (collect (cursor_iterator server) f (cursor_start opened) ≡ some (found, none, it))
        × (table_of found
            ≡ table_of (matching_events (select (within (some hwm)) events) query opts))
  unfolding read open_cursor declare barrier_snapshot
  read_collects f forward made one fits ascending enough =
      let (text_is, selected) =
        reads_as_memory table_name query opts (some hwm) made fits events one ascending in
      let (it, collected, _) = collect-cursor_start server rows fetches opened f enough in
      (
        rows opened,
        it,
        subst (λ b. by_direction b ≡ (opened, ok (cursor_start opened))) (sym forward)
            (opens text_is),
        collected,
        serves.selects ∙ selected,
      )
    where
      by_direction : Bool → D × Result E (CursorIterator D E)
      by_direction b =
          if b
          then open_cursor pool table_name query opts none d
          else or_else (barrier_snapshot pool table_name query d) (λ d. d)
              (λ hwm d. open_cursor pool table_name query opts (some hwm) d)

      opens :
          build_read_sql table_name query opts (some hwm)
            ≡ some (
              render table_name (statement query opts (some hwm)),
              arguments query opts (some hwm),
            )
          → by_direction false ≡ (opened, ok (cursor_start opened))
      opens text_is =
          rw (serves.settles, serves.acquires, serves.begins, text_is, declare, serves.declares)
            refl
