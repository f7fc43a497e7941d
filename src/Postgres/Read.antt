-- ===== src/Postgres/Read.antt =====
-- postgres/read.go: the barrier and the opening of a read's cursor, over an interface to the pool and
-- the connection, with states in `D` and errors in `E`.
pub mod Complete
pub mod Release
use dcb_event_store_pg_go.Base.{
  List, Option, none, some, Bytes, codes, ℤ, Result, ok, err, panic, if◌then◌else◌,
}
use dcb_event_store_pg_go.EventStore.Condition.{ReadOptions}
use dcb_event_store_pg_go.EventStore.Query.{Query}
use dcb_event_store_pg_go.Postgres.Cursor.{CursorIterator, cursor_start}
use dcb_event_store_pg_go.Postgres.LockKeys.{ReaderLockKeys, compute_reader_lock_keys}
use dcb_event_store_pg_go.Postgres.ReadSql.{Arg, build_read_sql}

-- What `Read` calls. `call_barrier` is the query of the barrier's function, as a transaction of its own.
pub record Pool (D E : Type 0) : Type 0 where
  pub call_barrier : ReaderLockKeys → D → D × Result E ℤ
  pub acquire : D → D × Result E (Unit {0})
  pub begin_tx : D → D × Result E (Unit {0})
  pub exec : Bytes → List Arg → D → D × Result E (Unit {0})
  pub rollback : D → D
  pub release : D → D

-- A call whose error ends the function, after a last action.
abbrev pub or_else :
    {D E A B : Type 0} → D × Result E A → (D → D) → (A → D → D × Result E B) → D × Result E B
or_else (d, ok a) last f = f a d
or_else (d, err e) last f = (last d, err e)
or_else (d, panic) last f = (d, panic)

module _ {D E : Type 0} (pool : Pool D E) (table_name : Bytes) where
  unfoldable pub barrier_snapshot : Query → D → D × Result E ℤ
  barrier_snapshot query d = pool.call_barrier (compute_reader_lock_keys query) d

  -- The cursor's declaration; a panic of `buildReadSQL` passes through.
  unfoldable pub declare : Option (Bytes × List Arg) → D → D × Result E (CursorIterator D E)
  declare none d = (d, panic)
  declare (some (sql, args)) d =
      or_else (pool.exec sql args d) (λ d. pool.release (pool.rollback d))
        (λ _ d. (d, ok (cursor_start d)))

  -- `Read` behind the barrier.
  unfoldable pub open_cursor :
      Query → ReadOptions → Option ℤ → D → D × Result E (CursorIterator D E)
  unfolding declare
  open_cursor query opts upper_bound d =
      or_else (pool.acquire d) (λ d. d)
        (λ _ d.
          or_else (pool.begin_tx d) pool.release
            (λ _ d. declare (build_read_sql table_name query opts upper_bound) d))

  unfoldable pub read : Query → ReadOptions → D → D × Result E (CursorIterator D E)
  unfolding barrier_snapshot open_cursor
  read query opts d =
      if opts.backwards
      then open_cursor query opts none d
      else or_else (barrier_snapshot query d) (λ d. d)
          (λ hwm d. open_cursor query opts (some hwm) d)
