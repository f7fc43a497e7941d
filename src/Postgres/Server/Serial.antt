-- ===== src/Postgres/Server/Serial.antt =====
-- Appends whose conditions concern each other happen one after the other.
use dcb_event_store_pg_go.Base.{
  ℕ, ◌<◌, ◌≤◌, ◌≡◌, ◌≢◌, sym, ap, ◌∙◌, ◌⊎◌, inl, inr, Bool-cases, List, [], none, some, ◌==◌,
  ==_iff, Memᴰ, arith,
}
use mathlib.Core.Path.{subst}
use dcb_event_store_pg_go.EventStore.Condition.{AppendCommand, AppendCondition}
use dcb_event_store_pg_go.Postgres.Conditions.{StoredRow}
use dcb_event_store_pg_go.Postgres.Append.{CopyRow}
use dcb_event_store_pg_go.Memory.Store.{validate_commands}
use dcb_event_store_pg_go.Postgres.Conditions.Agreement.{Sendable}
use dcb_event_store_pg_go.Postgres.Serialize.TagText.{StringToArray}
use dcb_event_store_pg_go.Postgres.Server.{
  Route, number, Lock, Job, write, barrier, marked, inserting, committed, locks_of, plan, Server,
  Step, Reach, here, next, IsStart,
}
use dcb_event_store_pg_go.Postgres.Server.Check.{check_conditions_clear}
use dcb_event_store_pg_go.Postgres.Server.Exclusion.{
  Sound, Reach-Sound, Local-at, holders_apart, Validated,
}
use dcb_event_store_pg_go.Postgres.Server.Locks.{Contend, writers-Contend}
use dcb_event_store_pg_go.Postgres.Server.Progress.{InFlight, Step-in_flight, Step-table}
use dcb_event_store_pg_go.Postgres.Server.Rows.{
  RowMatches, RowPast, columns, PlainJob, job_rows, matching_event,
}
use dcb_event_store_pg_go.Postgres.Server.Stages.{Step-marked, Step-inserting, Step-committed}

writers-Contend_job :
    (server : StringToArray) (route : Route) (commands : List AppendCommand) (cmd : AppendCommand)
    (c : AppendCondition) (row : StoredRow) (job : Job)
    → validate_commands commands ≡ none
    → Memᴰ cmd commands
    → cmd.condition ≡ some c
    → PlainJob job
    → Memᴰ (columns row) (job_rows server job)
    → RowMatches c.fail_if_events_match row
    → Contend (write route commands) job
writers-Contend_job server route commands cmd c row (write other_route other) v m e plain n h =
    let (ev, k, matches) =
      matching_event server c.fail_if_events_match other_route other row plain n h in
    writers-Contend route other_route commands other cmd c ev v m e k matches
writers-Contend_job server route commands cmd c row (barrier q) v m e plain n h = elim n [ ]

module _ (server : StringToArray) (jobs : ℕ → Job) (plain : (i : ℕ) → PlainJob (jobs i)) (i : ℕ)
    (route : Route) (commands : List AppendCommand) (cmd : AppendCommand) (c : AppendCondition)
    (job : jobs i ≡ write route commands) (inside : Memᴰ cmd commands)
    (cond : cmd.condition ≡ some c) (sendable : Sendable (some c)) where
  abbrev Violates : StoredRow → Type 0
  Violates row = RowPast c.after row × RowMatches c.fail_if_events_match row

  -- Behind every row of the append.
  abbrev Later : List StoredRow → StoredRow → Type 0
  Later rows row = (own : StoredRow) → Memᴰ own rows → number own < number row

  -- While the append holds its locks, no other transaction has a row in flight that matches.
  others_clear :
      {s : Server}
      → Sound server jobs s
      → locks_of (s.stage i) ≡ plan (jobs i)
      → Validated (jobs i)
      → (j : ℕ) (row : StoredRow) → i ≢ j
      → InFlight s j row
      → ¬ RowMatches c.fail_if_events_match row
  others_clear {s} v mine valid j row ne f h =
      let (theirs, _, _, from, _) = Local-at server jobs v j f.at in
      let validated : validate_commands commands ≡ none = subst Validated job valid in
      holders_apart server jobs v i j ne mine (ap locks_of f.at ∙ theirs) (
        subst (λ a. Contend a (jobs j)) (sym job)
          (writers-Contend_job server route commands cmd c row (jobs j) validated inside cond
            (plain j) (from row f.inside) h))

  inserting_clear :
      {s : Server}
      → Sound server jobs s
      → (held : List Lock) (rows : List StoredRow) (events : List CopyRow)
      → s.stage i ≡ inserting held rows events
      → (j : ℕ) (row : StoredRow) → i ≢ j
      → InFlight s j row
      → ¬ RowMatches c.fail_if_events_match row
  inserting_clear v held rows events at =
      let (mine, valid, _, _, _) = Local-at server jobs v i at in
      others_clear v (ap locks_of at ∙ mine) valid

  record Guarded (s : Server) : Type 0 where
    at_mark :
        (held : List Lock) (hwm : ℕ)
        → s.stage i ≡ marked held hwm
        → (row : StoredRow) → Memᴰ row s.table
        → RowMatches c.fail_if_events_match row
        → number row ≤ hwm
    at_insert :
        (held : List Lock) (rows : List StoredRow) (events : List CopyRow)
        → s.stage i ≡ inserting held rows events
        → (row : StoredRow) → Memᴰ row s.table
        → ¬ Violates row
    at_commit :
        (rows : List StoredRow)
        → s.stage i ≡ committed rows
        → (row : StoredRow) → (Memᴰ row s.table ⊎ ((j : ℕ) × InFlight s j row))
        → Violates row
        → Memᴰ row rows ⊎ Later rows row

  module _ {s u : Server} (st : Step server jobs s u) (v : Sound server jobs s)
      (g : Guarded s) where
    marked_step :
        (held : List Lock) (hwm : ℕ)
        → u.stage i ≡ marked held hwm
        → (row : StoredRow) → Memᴰ row u.table
        → RowMatches c.fail_if_events_match row
        → number row ≤ hwm
    marked_step held hwm at row m h = elim (Step-marked server jobs st i at) [
      | inl before ↦ elim (Step-table server jobs st row m) [
        | inl old ↦ g.at_mark held hwm before row old h
        | inr (j, f, done) ↦
            let (mine, valid, _) = Local-at server jobs v i before in
            absurd (
              others_clear v (ap locks_of before ∙ mine) valid j row
                (λ e. cc (at, done, ap u.stage e)) f h)
      ]
      | inr (now, same) ↦ let (a, b) = v.numbered row (rw same at m) in omega arith
    ]

    insert_step :
        (held : List Lock) (rows : List StoredRow) (events : List CopyRow)
        → u.stage i ≡ inserting held rows events
        → (row : StoredRow) → Memᴰ row u.table
        → ¬ Violates row
    insert_step held rows events at row m (past, h) = elim (Step-inserting server jobs st i at) [
      | inl (rows', events', before) ↦ elim (Step-table server jobs st row m) [
        | inl old ↦ g.at_insert held rows' events' before row old (past, h)
        | inr (j, f, done) ↦
            inserting_clear v held rows' events' before j row (λ e. cc (at, done, ap u.stage e)) f h
      ]
      | inr (route', commands', hwm, job', before, clear, same) ↦
          let stored : Memᴰ row s.table = rw same at m in
          let (a, b) = v.numbered row stored in
          let own : write route' commands' ≡ write route commands = sym job' ∙ job in
          let e : commands' ≡ commands = ground arith in
          check_conditions_clear server s.table hwm commands cmd c row (rw e at clear) inside cond
            sendable stored a (g.at_mark held hwm before row stored h) past h
    ]

    commit_step :
        (rows : List StoredRow)
        → u.stage i ≡ committed rows
        → (row : StoredRow) → (Memᴰ row u.table ⊎ ((j : ℕ) × InFlight u j row))
        → Violates row
        → Memᴰ row rows ⊎ Later rows row
    commit_step rows at row where_ (past, h) = elim (Step-committed server jobs st i at) [
      | inl before ↦ already before where_
      | inr (held, before) ↦ just_now held before where_
    ]
      where
        already :
            s.stage i ≡ committed rows
            → (Memᴰ row u.table ⊎ ((j : ℕ) × InFlight u j row))
            → Memᴰ row rows ⊎ Later rows row
        already before (inl m) = elim (Step-table server jobs st row m) [
          | inl old ↦ g.at_commit rows before row (inl old) (past, h)
          | inr (j, f, done) ↦ g.at_commit rows before row (inr (j, f)) (past, h)
        ]
        already before (inr (j, f)) = elim (Step-in_flight server jobs st j row f) [
          | inl old ↦ g.at_commit rows before row (inr (j, old)) (past, h)
          | inr new ↦
              let (_, num, _) = Local-at server jobs v i before in
              inr (λ own m. let (a, b) = num own m in omega arith)
        ]

        just_now :
            (held : List Lock)
            → s.stage i ≡ inserting held rows []
            → (Memᴰ row u.table ⊎ ((j : ℕ) × InFlight u j row))
            → Memᴰ row rows ⊎ Later rows row
        just_now held before (inl m) = elim (Step-table server jobs st row m) [
          | inl old ↦ absurd (g.at_insert held rows [] before row old (past, h))
          | inr (j, f, done) ↦ elim (Bool-cases (i == j)) [
            | inl e ↦
                let same : committed f.rows ≡ committed rows =
                  sym done ∙ ap u.stage (sym ((==_iff i j).0 e)) ∙ at in
                let rows_same : f.rows ≡ rows = ground arith in inl (rw rows_same at f.inside)
            | inr ne ↦
                absurd
                  (inserting_clear v held rows [] before j row (λ e. cc ((==_iff i j).1 e)) f h)
          ]
        ]
        just_now held before (inr (j, f)) = elim (Step-in_flight server jobs st j row f) [
          | inl old ↦
              absurd (
                inserting_clear v held rows [] before j row (λ e. cc (at, f.at, ap u.stage e)) old
                  h)
          | inr new ↦
              let (_, _, num, _, _) = Local-at server jobs v i before in
              inr (λ own m. let (a, b) = num own m in omega arith)
        ]

  Reach-Guarded : {s u : Server} → IsStart s → Reach server jobs s u → Guarded u
  Reach-Guarded {s} h here = record {
    at_mark = λ held hwm at. absurd (cc (h.unused i, at));
    at_insert = λ held rows events at. absurd (cc (h.unused i, at));
    at_commit = λ rows at. absurd (cc (h.unused i, at));
  }
  Reach-Guarded h (next r st) =
      let v = Reach-Sound server jobs h r in
      let g = Reach-Guarded h r in
      record {
        at_mark = marked_step st v g;
        at_insert = insert_step st v g;
        at_commit = commit_step st v g;
      }

  -- From a start, with no transaction under way and a table whose rows the sequence has numbered,
  -- for the condition of a command that can be sent, and where each tag of an event that the stored
  -- function is sent is not empty and lacks the delimiter: however transactions interleave, once
  -- the append of the command has committed, a stored row that violates the condition and stands at
  -- or before a row of the append is a row of the same append.
  pub condition_holds :
      (s t : Server) (rows : List StoredRow) (own row : StoredRow)
      → IsStart s
      → Reach server jobs s t
      → t.stage i ≡ committed rows
      → Memᴰ own rows
      → Memᴰ row t.table
      → RowPast c.after row
      → RowMatches c.fail_if_events_match row
      → number row ≤ number own
      → Memᴰ row rows
  condition_holds s t rows own row h r at m stored past matches le =
      elim ((Reach-Guarded h r).at_commit rows at row (inl stored) (past, matches)) [
        | inl mine ↦ mine
        | inr later ↦ absurd (omega (arith, later own m))
      ]
