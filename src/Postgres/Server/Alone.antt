-- ===== src/Postgres/Server/Alone.antt =====
-- A transaction that runs while no other holds a lock.
use dcb_event_store_pg_go.Base.{
  ℕ, ◌+◌, ◌≡◌, ◌≢◌, refl, sym, ◌∙◌, inl, inr, Bool-cases, List, [], ◌∷◌, ◌++◌, append-nil,
  append_assoc, none, some, ◌==◌, ==_iff, pos, Memᴰ, arith, length,
}
use mathlib.Core.Path.{subst}
use dcb_event_store_pg_go.EventStore.Condition.{AppendCommand}
use dcb_event_store_pg_go.Postgres.Append.{CopyRow}
use dcb_event_store_pg_go.EventStore.Query.{Query}
use dcb_event_store_pg_go.Memory.Store.{validate_commands}
use dcb_event_store_pg_go.Postgres.Conditions.{StoredRow, check_conditions}
use dcb_event_store_pg_go.Postgres.Serialize.TagText.{StringToArray}
use dcb_event_store_pg_go.Postgres.Server.{
  Route, rows_of, Lock, Job, write, barrier, Stage, fresh, locking, inserting, committed, snapped,
  locks_of, plan, put_stage, Free, Server, Step, begin, acquire, mark, check, insert, commit, snap,
  Reach, here, next,
}
use dcb_event_store_pg_go.Postgres.Server.Rows.{rows_from}

put_stage_here : (i : ℕ) (st : Stage) (f : ℕ → Stage) → put_stage i st f i ≡ st
put_stage_here i st f = rw ((==_iff i i).1 refl) refl

put_stage_other : (i : ℕ) (st : Stage) (f : ℕ → Stage) (j : ℕ) → i ≢ j → put_stage i st f j ≡ f j
put_stage_other i st f j ne = elim (Bool-cases (i == j)) [
  | inl e ↦ absurd (ne ((==_iff i j).0 e))
  | inr e ↦ rw e refl
]

module _ (server : StringToArray) (jobs : ℕ → Job) (i : ℕ) where
  -- No other transaction holds a lock.
  abbrev pub Alone : Server → Type 0
  Alone s = (j : ℕ) → i ≢ j → locks_of (s.stage j) ≡ []

  -- A run from `s` in which the transaction has come to the stage `st`.
  pub record Run (s : Server) (st : Stage) (table : List StoredRow) (last : ℕ) : Type 0 where
    pub end : Server
    pub run : Reach server jobs s end
    pub at : end.stage i ≡ st
    pub others : (j : ℕ) → i ≢ j → end.stage j ≡ s.stage j
    pub table_is : end.table ≡ table
    pub last_is : end.last_value ≡ last

  -- A step of the transaction itself.
  one_more :
      {s : Server} {st : Stage} {table : List StoredRow} {last : ℕ}
      → Run s st table last
      → (st' : Stage) (table' : List StoredRow) (last' : ℕ)
      → ((f : ℕ → Stage)
          → f i ≡ st
          → ((j : ℕ) → i ≢ j → f j ≡ s.stage j)
          → Step server jobs
              (record { table = table; last_value = last; stage = f })
              (record { table = table'; last_value = last'; stage = put_stage i st' f }))
      → Run s st' table' last'
  one_more {s} {st} {table} {last} r st' table' last' step = record {
    end = after;
    run = next r.run (
        subst
          (λ tb.
            Step server jobs
              (record { table = tb; last_value = r.end.last_value; stage = r.end.stage }) after)
          (sym r.table_is)
          (subst
            (λ l.
              Step server jobs (record { table = table; last_value = l; stage = r.end.stage })
                after)
            (sym r.last_is) (step r.end.stage r.at r.others)));
    at = put_stage_here i st' r.end.stage;
    others = λ j ne. put_stage_other i st' r.end.stage j ne ∙ r.others j ne;
    table_is = refl;
    last_is = refl;
  }
    where
      after : Server
      after = record { table = table'; last_value = last'; stage = put_stage i st' r.end.stage }

  run_here : (s : Server) {st : Stage} → s.stage i ≡ st → Run s st s.table s.last_value
  run_here s at = record {
    end = s;
    run = here;
    at = at;
    others = λ j ne. refl;
    table_is = refl;
    last_is = refl;
  }

  Free-Alone :
      (s t : Server) → Alone s → ((j : ℕ) → i ≢ j → t.stage j ≡ s.stage j) → (l : Lock) → Free t i l
  Free-Alone s t alone others l j ne m p _ = no_member (rw (others j ne, alone j ne) at p)
    where
      no_member : ¬ Memᴰ m []
      no_member p = elim p [ ]

  take_locks :
      {s : Server} {table : List StoredRow} {last : ℕ} (held wanted : List Lock)
      → Alone s
      → Run s (locking held wanted) table last
      → Run s (locking (held ++ wanted) []) table last
  take_locks held [] alone r = rw (append-nil held) r
  take_locks {s} {table} {last} held (l ∷ wanted) alone r =
      let all = take_locks (held ++ l ∷ []) wanted alone (
        one_more r _ _ _ (λ f at others. acquire i held l wanted at (
          Free-Alone s (record { table = table; last_value = last; stage = f }) alone others l))) in
      rw (append_assoc held (l ∷ []) wanted) at all

  insert_all :
      {s : Server} {table : List StoredRow} (held : List Lock) (rows : List StoredRow)
      (events : List CopyRow) (last : ℕ)
      → Run s (inserting held rows events) table last
      → Run s (inserting held (rows ++ rows_from last events) []) table (last + length events)
  insert_all held rows [] last r =
      let e : last + 0 ≡ last = omega arith in rw (append-nil rows, e) r
  insert_all {s} {table} held rows (row_left ∷ events) last r =
      let row : StoredRow = record {
        sequence_position = pos (last + 1);
        row_type = row_left.copy_type;
        row_tags = row_left.copy_tags;
        row_payload = row_left.copy_payload;
      } in
      let all =
        insert_all held (rows ++ row ∷ []) events (last + 1)
          (one_more r _ _ _ (λ f at others. insert i held rows row_left events at)) in
      let e : last + 1 + length events ≡ last + length (row_left ∷ events) = omega arith in
      rw (sym e, sym (append_assoc rows (row ∷ []) (rows_from (last + 1) events))) all

  begin_alone :
      (s : Server)
      → s.stage i ≡ fresh
      → ((route : Route) (commands : List AppendCommand)
          → jobs i ≡ write route commands
          → validate_commands commands ≡ none)
      → Alone s
      → Run s (locking (plan (jobs i)) []) s.table s.last_value
  unfolding run_here
  begin_alone s at valid alone =
      take_locks [] (plan (jobs i)) alone
        (one_more (run_here s at) _ _ _ (λ f at others. begin i at valid))

  pub run_alone :
      (s : Server) (route : Route) (commands : List AppendCommand)
      → jobs i ≡ write route commands
      → s.stage i ≡ fresh
      → Alone s
      → validate_commands commands ≡ none
      → check_conditions server s.table (pos s.last_value) commands ≡ some none
      → Run s
          (committed (rows_from s.last_value (rows_of server route commands)))
          (s.table ++ rows_from s.last_value (rows_of server route commands))
          (s.last_value + length (rows_of server route commands))
  run_alone s route commands job at alone valid clear =
      let marked_ =
        one_more (begin_alone s at validated alone) _ _ _
          (λ f at others. mark i route commands _ job at) in
      let checked =
        one_more marked_ _ _ _ (λ f at others. check i route commands _ _ job at clear) in
      let inserted = insert_all _ [] (rows_of server route commands) s.last_value checked in
      one_more inserted _ _ _ (λ f at others. commit i _ _ at)
    where
      validated :
          (o : Route) (cs : List AppendCommand) → jobs i ≡ write o cs → validate_commands cs ≡ none
      validated o cs e =
          let own : write o cs ≡ write route commands = sym e ∙ job in
          let same : cs ≡ commands = ground arith in rw same valid

  pub snap_alone :
      (s : Server) (query : Query)
      → jobs i ≡ barrier query
      → s.stage i ≡ fresh
      → Alone s
      → Run s (snapped s.last_value) s.table s.last_value
  snap_alone s query job at alone =
      one_more (begin_alone s at (λ o cs e. absurd (cc (e, job))) alone) _ _ _
        (λ f at others. snap i query _ job at)
