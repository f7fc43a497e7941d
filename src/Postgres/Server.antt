-- ===== src/Postgres/Server.antt =====
-- The transactions of the stored procedures in postgres/store.go, and of the COPY path and the locks
-- in postgres/append.go, as interleaved steps: one statement, or one lock of the ordered statement
-- that takes them, is a step. A transaction is known by a number. Its advisory locks are held from
-- the step that takes them to the end of the transaction, and a lock is taken only while no other
-- transaction holds one on the same key, unless both are shared. The sequence gives each inserted
-- row the next number, and no rollback takes one back.
pub mod Rows
pub mod Locks
pub mod Check
pub mod Exclusion
pub mod Progress
pub mod Stages
pub mod Barrier
pub mod Serial
pub mod Deadlock
pub mod Alone
pub mod Refinement
use dcb_event_store_pg_go.Base.{
  ℕ, ◌+◌, ◌<◌, ◌≤◌, ◌≡◌, ◌≢◌, Bool, List, [], ◌∷◌, ◌++◌, Option, none, some, if◌then◌else◌, ◌==◌, ℤ,
  pos, pos_part, le_ℤ, map, Memᴰ, ◌⊎◌,
}
use dcb_event_store_pg_go.EventStore.Condition.{AppendCommand}
use dcb_event_store_pg_go.EventStore.Query.{Query}
use dcb_event_store_pg_go.Memory.Store.{validate_commands}
use dcb_event_store_pg_go.Postgres.Append.{CopyRow, all_events_of, copy_rows, collect_keys}
use dcb_event_store_pg_go.Postgres.Conditions.{StoredRow, check_conditions}
use dcb_event_store_pg_go.Postgres.LockKeys.{compute_reader_lock_keys}
use dcb_event_store_pg_go.Postgres.Serialize.{EventRow, serialize_events}
use dcb_event_store_pg_go.Postgres.Serialize.TagText.{StringToArray}

pub data Mode : Type 0 where
  shared exclusive : Mode

pub record Lock : Type 0 where
  pub key : ℤ
  pub mode : Mode

abbrev pub with_mode : Mode → List ℤ → List Lock
with_mode mode keys = map (λ k. record { key = k; mode = mode }) keys

-- `ORDER BY k`.
unfoldable pub insert_lock : Lock → List Lock → List Lock
insert_lock l [] = l ∷ []
insert_lock l (m ∷ locks) = if le_ℤ l.key m.key then l ∷ m ∷ locks else m ∷ insert_lock l locks

unfoldable pub by_key : List Lock → List Lock
unfolding insert_lock
by_key [] = []
by_key (l ∷ locks) = insert_lock l (by_key locks)

-- How an append reaches the table: in one call of the stored function, or with a COPY.
pub data Route : Type 0 where
  by_function by_copy : Route

-- What a transaction is for: an append of commands, or the barrier of a read.
pub data Job : Type 0 where
  write : Route → List AppendCommand → Job
  barrier : Query → Job

-- The locks that the transaction takes, in the order in which it takes them.
unfoldable pub plan : Job → List Lock
unfolding by_key
plan (write route commands) =
    let keys = collect_keys commands [] [] in
    by_key (with_mode exclusive keys.leaf_x ++ with_mode shared keys.intent_s)
plan (barrier query) =
    let keys = compute_reader_lock_keys query in
    by_key (with_mode shared keys.leaf_s ++ with_mode exclusive keys.intent_x)

-- The columns that the stored function inserts for one element of its arrays.
abbrev pub unpack : StringToArray → EventRow → CopyRow
unpack server r = record {
  copy_type = r.row_type;
  copy_tags = server.string_to_array r.row_tags;
  copy_payload = r.row_payload;
}

-- The columns that an append inserts, row by row.
unfoldable pub rows_of : StringToArray → Route → List AppendCommand → List CopyRow
rows_of server by_function commands = map (unpack server) (serialize_events commands)
rows_of server by_copy commands = copy_rows (all_events_of commands)

-- Where a transaction stands. `locking` has the locks that it holds and those that it still wants,
-- `marked` the high-water mark that it read, `inserting` the rows that it inserted and the columns
-- of those that are left, and `snapped` the high-water mark that the barrier returned.
pub data Stage : Type 0 where
  fresh aborted : Stage
  locking : List Lock → List Lock → Stage
  marked : List Lock → ℕ → Stage
  inserting : List Lock → List StoredRow → List CopyRow → Stage
  committed : List StoredRow → Stage
  snapped : ℕ → Stage

abbrev pub locks_of : Stage → List Lock
locks_of (locking held wanted) = held
locks_of (marked held mark) = held
locks_of (inserting held rows left) = held
locks_of _ = []

-- A transaction that has begun and not ended.
abbrev pub IsOpen : Stage → Type 0
IsOpen (locking held wanted) = Unit
IsOpen (marked held mark) = Unit
IsOpen (inserting held rows left) = Unit
IsOpen _ = ⊥

-- Two locks that two transactions cannot hold at once.
abbrev pub Clash : Lock → Lock → Type 0
Clash a b = (a.key ≡ b.key) × ((a.mode ≡ exclusive) ⊎ (b.mode ≡ exclusive))

-- `table` has the committed rows, and `last_value` is that of the sequence.
pub record Server : Type 0 where
  pub table : List StoredRow
  pub last_value : ℕ
  pub stage : ℕ → Stage

abbrev pub put_stage : ℕ → Stage → (ℕ → Stage) → ℕ → Stage
put_stage i st f j = if i == j then st else f j

abbrev pub Free : Server → ℕ → Lock → Type 0
Free s i l = (j : ℕ) → i ≢ j → (m : Lock) → Memᴰ m (locks_of (s.stage j)) → ¬ Clash l m

-- The row with the next number of the sequence.
abbrev pub next_row : Server → CopyRow → StoredRow
next_row s r = record {
  sequence_position = pos (s.last_value + 1);
  row_type = r.copy_type;
  row_tags = r.copy_tags;
  row_payload = r.copy_payload;
}

-- The number of a row, which the sequence gave it.
abbrev pub number : StoredRow → ℕ
number e = pos_part e.sequence_position

module _ (server : StringToArray) (jobs : ℕ → Job) where
  pub data Step (s : Server) : Server → Type 0 where
    begin :
        (i : ℕ)
        → s.stage i ≡ fresh
        → ((route : Route) (commands : List AppendCommand)
            → jobs i ≡ write route commands
            → validate_commands commands ≡ none)
        → Step s (record s { stage = put_stage i (locking [] (plan (jobs i))) s.stage })
    acquire :
        (i : ℕ) (held : List Lock) (l : Lock) (wanted : List Lock)
        → s.stage i ≡ locking held (l ∷ wanted)
        → Free s i l
        → Step s (record s { stage = put_stage i (locking (held ++ l ∷ []) wanted) s.stage })
    mark :
        (i : ℕ) (route : Route) (commands : List AppendCommand) (held : List Lock)
        → jobs i ≡ write route commands
        → s.stage i ≡ locking held []
        → Step s (record s { stage = put_stage i (marked held s.last_value) s.stage })
    check :
        (i : ℕ) (route : Route) (commands : List AppendCommand) (held : List Lock) (hwm : ℕ)
        → jobs i ≡ write route commands
        → s.stage i ≡ marked held hwm
        → check_conditions server s.table (pos hwm) commands ≡ some none
        → Step s (record s {
          stage = put_stage i (inserting held [] (rows_of server route commands)) s.stage;
        })
    insert :
        (i : ℕ) (held : List Lock) (rows : List StoredRow) (r : CopyRow) (left : List CopyRow)
        → s.stage i ≡ inserting held rows (r ∷ left)
        → Step s (record s {
          last_value = s.last_value + 1;
          stage = put_stage i (inserting held (rows ++ next_row s r ∷ []) left) s.stage;
        })
    commit :
        (i : ℕ) (held : List Lock) (rows : List StoredRow)
        → s.stage i ≡ inserting held rows []
        → Step s
            (record s { table = s.table ++ rows; stage = put_stage i (committed rows) s.stage })
    -- A violation, an error or a lost connection.
    abort : (i : ℕ) → IsOpen (s.stage i) → Step s (record s { stage = put_stage i aborted s.stage })
    snap :
        (i : ℕ) (query : Query) (held : List Lock)
        → jobs i ≡ barrier query
        → s.stage i ≡ locking held []
        → Step s (record s { stage = put_stage i (snapped s.last_value) s.stage })

  pub data Reach (s : Server) : Server → Type 0 where
    here : Reach s s
    next : {t u : Server} → Reach s t → Step t u → Reach s u

-- Before any transaction: a table whose rows the sequence has numbered.
pub record IsStart (s : Server) : Type 0 where
  pub numbered : (e : StoredRow) → Memᴰ e s.table → (0 < number e) × (number e ≤ s.last_value)
  pub unused : (i : ℕ) → s.stage i ≡ fresh
