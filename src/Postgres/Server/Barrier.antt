-- ===== src/Postgres/Server/Barrier.antt =====
-- What the read barrier of postgres/read.go guarantees to the scan behind it.
use dcb_event_store_pg_go.Base.{
  ℕ, ◌<◌, ◌≤◌, ◌≡◌, sym, ap, ◌∙◌, ◌↔◌, inl, inr, List, [], append-nil, Memᴰ, arith,
}
use mathlib.Core.Path.{subst}
use dcb_event_store_pg_go.Postgres.Conditions.{StoredRow}
use dcb_event_store_pg_go.EventStore.Query.{Query}
use dcb_event_store_pg_go.Postgres.Serialize.TagText.{StringToArray}
use dcb_event_store_pg_go.Postgres.Server.{
  number, Lock, Job, write, barrier, locking, snapped, locks_of, Server, Step, Reach, here, next,
  IsStart,
}
use dcb_event_store_pg_go.Postgres.Server.Exclusion.{Sound, Reach-Sound, Local-at, holders_apart}
use dcb_event_store_pg_go.Postgres.Server.Locks.{Contend, barrier_contends}
use dcb_event_store_pg_go.Postgres.Server.Progress.{
  InFlight, Step-in_flight, Step-table, Step-table_keeps, Step-last_value,
}
use dcb_event_store_pg_go.Postgres.Server.Rows.{
  RowMatches, columns, PlainJob, job_rows, matching_event,
}
use dcb_event_store_pg_go.Postgres.Server.Stages.{Step-snapped}

barrier_contends_job :
    (server : StringToArray) (query : Query) (e : StoredRow) (job : Job)
    → PlainJob job
    → Memᴰ (columns e) (job_rows server job)
    → RowMatches query e
    → Contend (barrier query) job
barrier_contends_job server query e (write route commands) plain m h =
    let (ev, n, k) = matching_event server query route commands e plain m h in
    barrier_contends query route commands ev n k
barrier_contends_job server query e (barrier q) plain m h = elim m [ ]

module _ (server : StringToArray) (jobs : ℕ → Job) (plain : (i : ℕ) → PlainJob (jobs i)) where
  -- No row that matches is in flight at or below the mark.
  abbrev Clear : Query → ℕ → Server → Type 0
  Clear query hwm s =
      (hwm ≤ s.last_value)
      × ((j : ℕ) (e : StoredRow) → InFlight s j e → RowMatches query e → hwm < number e)

  Step-Clear :
      (query : Query) (hwm : ℕ) {s u : Server}
      → Step server jobs s u
      → Clear query hwm s
      → Clear query hwm u
  Step-Clear query hwm st (le, c) = (
    omega (arith, Step-last_value server jobs st),
    λ j e f h. elim (Step-in_flight server jobs st j e f) [
      | inl g ↦ c j e g h
      | inr new ↦ omega arith
    ],
  )

  -- While a barrier holds its locks, no row that matches is in flight.
  held_clear :
      {s : Server}
      → Sound server jobs s
      → (r : ℕ) (query : Query) (held : List Lock) → jobs r ≡ barrier query
      → s.stage r ≡ locking held []
      → (j : ℕ) (e : StoredRow) → InFlight s j e
      → ¬ RowMatches query e
  held_clear {s} v r query held job at j e f h =
      let (mine, _) = Local-at server jobs v r at in
      let (theirs, _, _, from, _) = Local-at server jobs v j f.at in
      holders_apart server jobs v r j (λ q. cc (at, f.at, ap s.stage q))
        (ap locks_of at ∙ sym (append-nil held) ∙ mine) (ap locks_of f.at ∙ theirs)
        (subst (λ a. Contend a (jobs j)) (sym job)
          (barrier_contends_job server query e (jobs j) (plain j) (from e f.inside) h))

  Reach-Clear :
      {s t : Server}
      → IsStart s
      → Reach server jobs s t
      → (r : ℕ) (query : Query) (hwm : ℕ) → jobs r ≡ barrier query
      → t.stage r ≡ snapped hwm
      → Clear query hwm t
  Reach-Clear h here r query hwm job at = absurd (cc (h.unused r, at))
  Reach-Clear h (next {t} x st) r query hwm job at = elim (Step-snapped server jobs st r at) [
    | inl before ↦ Step-Clear query hwm st (Reach-Clear h x r query hwm job before)
    | inr (held, locked, same) ↦ Step-Clear query hwm st (
      omega arith,
      λ j e f m. absurd (held_clear (Reach-Sound server jobs h x) r query held job locked j e f m),
    )
  ]

  later_table :
      (query : Query) (hwm : ℕ) {t u : Server}
      → Reach server jobs t u
      → Clear query hwm t
      → Clear query hwm u
        × ((e : StoredRow) → RowMatches query e → number e ≤ hwm → Memᴰ e u.table ↔ Memᴰ e t.table)
  later_table query hwm here c = (c, λ e h le. (λ m. m, λ m. m))
  later_table query hwm (next x st) c =
      let (c', stable) = later_table query hwm x c in
      (
        Step-Clear query hwm st c',
        λ e h le. (
          λ m. elim (Step-table server jobs st e m) [
            | inl old ↦ (stable e h le).0 old
            | inr (j, f, _) ↦ absurd (omega (arith, c'.1 j e f h))
          ],
          λ m. Step-table_keeps server jobs st e ((stable e h le).1 m),
        ),
      )

  -- From a start, with no transaction under way and a table whose rows the sequence has numbered,
  -- and where each tag of an event that the stored function is sent is not empty and lacks the
  -- delimiter: once the barrier of a read has returned its high-water mark, the committed rows that
  -- match the query at or below the mark are final. At any later moment the table has exactly those
  -- that it had when the mark was returned.
  pub barrier_settles :
      (s t u : Server) (r : ℕ) (query : Query) (hwm : ℕ) (e : StoredRow)
      → IsStart s
      → Reach server jobs s t
      → jobs r ≡ barrier query
      → t.stage r ≡ snapped hwm
      → Reach server jobs t u
      → RowMatches query e
      → number e ≤ hwm
      → Memᴰ e u.table ↔ Memᴰ e t.table
  barrier_settles s t u r query hwm e h x job at y m le =
      (later_table query hwm y (Reach-Clear h x r query hwm job at)).1 e m le
