-- ===== src/Postgres/Read/Release.antt =====
-- The connections that a read holds.
use dcb_event_store_pg_go.Base.{
  ℕ, ◌+◌, ◌≡◌, ◌∙◌, Bool, true, false, List, Option, none, some, Bytes, ℤ, Result, ok, err, panic,
  if◌then◌else◌,
}
use mathlib.Core.Path.{subst}
use dcb_event_store_pg_go.EventStore.Condition.{ReadOptions}
use dcb_event_store_pg_go.EventStore.Query.{Query}
use dcb_event_store_pg_go.Postgres.Cursor.{cursor_start}
use dcb_event_store_pg_go.Postgres.LockKeys.{ReaderLockKeys, compute_reader_lock_keys}
use dcb_event_store_pg_go.Postgres.ReadSql.{Arg, build_read_sql}
use dcb_event_store_pg_go.Postgres.Read.{
  Pool, or_else, barrier_snapshot, declare, open_cursor, read,
}

-- A call that gives one thing to hold if it succeeds, and none if it fails.
abbrev pub OneIfOk : {E A : Type 0} → ℕ → ℕ → Result E A → Type 0
OneIfOk n n' (ok a) = n' ≡ n + 1
OneIfOk n n' (err e) = n' ≡ n
OneIfOk n n' panic = Unit

-- A pool that counts the connections that are out.
pub record Counts {D E : Type 0} (pool : Pool D E) (held : D → ℕ) : Type 0 where
  pub barrier_holds : (keys : ReaderLockKeys) (d : D) → held (pool.call_barrier keys d).0 ≡ held d
  pub acquire_holds : (d : D) → OneIfOk (held d) (held (pool.acquire d).0) (pool.acquire d).1
  pub begin_holds : (d : D) → held (pool.begin_tx d).0 ≡ held d
  pub exec_holds : (sql : Bytes) (args : List Arg) (d : D) → held (pool.exec sql args d).0 ≡ held d
  pub rollback_holds : (d : D) → held (pool.rollback d) ≡ held d
  pub release_holds : (d : D) (n : ℕ) → held d ≡ n + 1 → held (pool.release d) ≡ n

module _ {D E : Type 0} (pool : Pool D E) (held : D → ℕ) (counts : Counts pool held)
    (table_name : Bytes) where
  abbrev Fine : {A : Type 0} → ℕ → D × Result E A → Type 0
  Fine n r = OneIfOk n (held r.0) r.1

  declare_holds :
      (n : ℕ) (sql : Option (Bytes × List Arg)) (d : D)
      → held d ≡ n + 1
      → Fine n (declare pool table_name sql d)
  unfolding declare
  declare_holds n none d h = tt
  declare_holds n (some (sql, args)) d h =
      by_result (pool.exec sql args d) (counts.exec_holds sql args d ∙ h)
    where
      by_result :
          (r : D × Result E (Unit {0}))
          → held r.0 ≡ n + 1
          → Fine n (
              or_else r
                (λ d. pool.release (pool.rollback d))
                (λ _ d. (d, ok (cursor_start {E = E} d))))
      by_result (d, ok a) h = h
      by_result (d, err e) h =
          counts.release_holds (pool.rollback d) n (counts.rollback_holds d ∙ h)
      by_result (d, panic) h = tt

  open_cursor_holds :
      (query : Query) (opts : ReadOptions) (bound : Option ℤ) (d : D)
      → Fine (held d) (open_cursor pool table_name query opts bound d)
  unfolding open_cursor
  open_cursor_holds query opts bound d = acquired (pool.acquire d) (counts.acquire_holds d)
    where
      begun :
          (n : ℕ) (r : D × Result E (Unit {0}))
          → held r.0 ≡ n + 1
          → Fine n (
              or_else r pool.release
                (λ _ d. declare pool table_name (build_read_sql table_name query opts bound) d))
      begun n (d, ok a) h = declare_holds n _ d h
      begun n (d, err e) h = counts.release_holds d n h
      begun n (d, panic) h = tt

      acquired :
          (r : D × Result E (Unit {0}))
          → Fine (held d) r
          → Fine (held d) (
              or_else r
                (λ d. d)
                (λ _ d.
                  or_else (pool.begin_tx d) pool.release (λ _ d.
                    declare pool table_name (build_read_sql table_name query opts bound) d)))
      acquired (d', ok a) h = begun (held d) (pool.begin_tx d') (counts.begin_holds d' ∙ h)
      acquired (d', err e) h = h
      acquired (d', panic) h = tt

  -- On a pool whose calls count the connections that are out, on every path of Read: where it
  -- returns an iterator, one connection more is out than before, and where it returns an error, no
  -- more than before, since what was acquired is released.
  pub read_holds :
      (query : Query) (opts : ReadOptions) (d : D)
      → OneIfOk
          (held d)
          (held (read pool table_name query opts d).0)
          (read pool table_name query opts d).1
  unfolding read barrier_snapshot
  read_holds query opts d = by_direction opts.backwards
    where
      behind :
          (r : D × Result E ℤ)
          → held r.0 ≡ held d
          → Fine
              (held d)
              (or_else r (λ d. d) (λ hwm d. open_cursor pool table_name query opts (some hwm) d))
      behind (d', ok hwm) h =
          subst (λ n. Fine n (open_cursor pool table_name query opts (some hwm) d')) h
            (open_cursor_holds query opts (some hwm) d')
      behind (d', err e) h = h
      behind (d', panic) h = tt

      by_direction :
          (b : Bool)
          → Fine (held d) (
              if b
              then open_cursor pool table_name query opts none d
              else or_else
                  (barrier_snapshot pool table_name query d)
                  (λ d. d)
                  (λ hwm d. open_cursor pool table_name query opts (some hwm) d))
      by_direction true = open_cursor_holds query opts none d
      by_direction false =
          behind (pool.call_barrier (compute_reader_lock_keys query) d)
            (counts.barrier_holds (compute_reader_lock_keys query) d)
