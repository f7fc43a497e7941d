-- ===== src/Postgres/Server/Stages.antt =====
-- How one step can bring a transaction to its stage.
use dcb_event_store_pg_go.Base.{
  ℕ, ◌≡◌, refl, sym, ap, ◌∙◌, ◌⊎◌, inl, inr, Bool-cases, List, [], ◌∷◌, ◌++◌, ◌==◌, ==_iff, arith,
  pos, none, some,
}
use dcb_event_store_pg_go.EventStore.Condition.{AppendCommand}
use dcb_event_store_pg_go.Postgres.Append.{CopyRow}
use dcb_event_store_pg_go.Postgres.Conditions.{StoredRow, check_conditions}
use dcb_event_store_pg_go.Postgres.Serialize.TagText.{StringToArray}
use dcb_event_store_pg_go.Postgres.Server.{
  Route, rows_of, Lock, Job, write, plan, Stage, aborted, locking, marked, inserting, committed,
  snapped, Server, put_stage, next_row, Step, begin, acquire, mark, check, insert, commit, abort,
  snap,
}

one_moves :
    {A : Type 0} (k : ℕ) (st : Stage) (f : ℕ → Stage) (i : ℕ)
    → (k ≡ i → put_stage k st f i ≡ st → A)
    → (put_stage k st f i ≡ f i) ⊎ A
one_moves k st f i move = elim (Bool-cases (k == i)) [
  | inl e ↦ inr (move ((==_iff k i).0 e) (rw e))
  | inr e ↦ inl (rw e)
]

module _ (server : StringToArray) (jobs : ℕ → Job) where
  -- How one transaction comes to its stage.
  pub data Moved (s u : Server) (i : ℕ) : Type 0 where
    takes : (held wanted : List Lock) → u.stage i ≡ locking held wanted → Moved s u i
    marks :
        (held : List Lock)
        → s.stage i ≡ locking held []
        → u.stage i ≡ marked held s.last_value
        → u.table ≡ s.table
        → Moved s u i
    checks :
        (route : Route) (commands : List AppendCommand) (held : List Lock) (hwm : ℕ)
        → jobs i ≡ write route commands
        → s.stage i ≡ marked held hwm
        → check_conditions server s.table (pos hwm) commands ≡ some none
        → u.stage i ≡ inserting held [] (rows_of server route commands)
        → u.table ≡ s.table
        → Moved s u i
    inserts :
        (held : List Lock) (rows : List StoredRow) (r : CopyRow) (events : List CopyRow)
        → s.stage i ≡ inserting held rows (r ∷ events)
        → u.stage i ≡ inserting held (rows ++ next_row s r ∷ []) events
        → Moved s u i
    commits :
        (held : List Lock) (rows : List StoredRow)
        → s.stage i ≡ inserting held rows []
        → u.stage i ≡ committed rows
        → Moved s u i
    aborts : u.stage i ≡ aborted → Moved s u i
    snaps :
        (held : List Lock)
        → s.stage i ≡ locking held []
        → u.stage i ≡ snapped s.last_value
        → Moved s u i

  -- One step leaves a transaction where it stands, or moves it.
  pub Step-stage :
      {s u : Server} → Step server jobs s u → (i : ℕ) → (u.stage i ≡ s.stage i) ⊎ Moved s u i
  Step-stage {s} (begin k at valid) i = one_moves k _ s.stage i (λ e p. takes [] (plan (jobs k)) p)
  Step-stage {s} (acquire k held l wanted at free) i =
      one_moves k _ s.stage i (λ e p. takes (held ++ l ∷ []) wanted p)
  Step-stage {s} (mark k route commands held job at) i =
      one_moves k _ s.stage i (λ e p. marks held (ap s.stage (sym e) ∙ at) p refl)
  Step-stage {s} (check k route commands held hwm job at clear) i = one_moves k _ s.stage i (λ e p.
      checks route commands held hwm (ap jobs (sym e) ∙ job) (ap s.stage (sym e) ∙ at) clear p refl)
  Step-stage {s} (insert k held rows r events at) i =
      one_moves k _ s.stage i (λ e p. inserts held rows r events (ap s.stage (sym e) ∙ at) p)
  Step-stage {s} (commit k held rows at) i =
      one_moves k _ s.stage i (λ e p. commits held rows (ap s.stage (sym e) ∙ at) p)
  Step-stage {s} (abort k o) i = one_moves k _ s.stage i (λ e p. aborts p)
  Step-stage {s} (snap k query held job at) i =
      one_moves k _ s.stage i (λ e p. snaps held (ap s.stage (sym e) ∙ at) p)

  module _ {s u : Server} (st : Step server jobs s u) (i : ℕ) where
    pub Step-snapped :
        {hwm : ℕ}
        → u.stage i ≡ snapped hwm
        → (s.stage i ≡ snapped hwm)
          ⊎ ((held : List Lock) × (s.stage i ≡ locking held []) × (hwm ≡ s.last_value))
    Step-snapped h = elim (Step-stage st i) [
      | inl same ↦ inl (sym same ∙ h)
      | inr (takes a b e) ↦ absurd (cc)
      | inr (marks a b e x) ↦ absurd (cc)
      | inr (checks o a b c d e x y z) ↦ absurd (cc)
      | inr (inserts a b c d e x) ↦ absurd (cc)
      | inr (commits a b c d) ↦ absurd (cc)
      | inr (aborts e) ↦ absurd (cc)
      | inr (snaps held at e) ↦ inr (held, at, ground arith)
    ]

    pub Step-marked :
        {held : List Lock} {hwm : ℕ}
        → u.stage i ≡ marked held hwm
        → (s.stage i ≡ marked held hwm) ⊎ ((hwm ≡ s.last_value) × (u.table ≡ s.table))
    Step-marked h = elim (Step-stage st i) [
      | inl same ↦ inl (sym same ∙ h)
      | inr (takes a b e) ↦ absurd (cc)
      | inr (marks a b e x) ↦ inr (ground arith, x)
      | inr (checks o a b c d e x y z) ↦ absurd (cc)
      | inr (inserts a b c d e x) ↦ absurd (cc)
      | inr (commits a b c d) ↦ absurd (cc)
      | inr (aborts e) ↦ absurd (cc)
      | inr (snaps held at e) ↦ absurd (cc)
    ]

    pub Step-inserting :
        {held : List Lock} {rows : List StoredRow} {events : List CopyRow}
        → u.stage i ≡ inserting held rows events
        → ((rows' : List StoredRow) × (events' : List CopyRow) × (s.stage i
              ≡ inserting held rows' events'))
          ⊎ ((route : Route) × (commands : List AppendCommand) × (hwm : ℕ) × (jobs i
                ≡ write route commands)
              × (s.stage i ≡ marked held hwm)
              × (check_conditions server s.table (pos hwm) commands ≡ some none)
              × (u.table ≡ s.table))
    Step-inserting {held} {rows} {events} h = elim (Step-stage st i) [
      | inl same ↦ inl (rows, events, sym same ∙ h)
      | inr (takes a b e) ↦ absurd (cc)
      | inr (marks a b e x) ↦ absurd (cc)
      | inr (checks o a b c d e x y z) ↦
          inr (o, a, c, d, (let q : b ≡ held = ground arith in rw (← q) e), x, z)
      | inr (inserts a b c d e x) ↦ inl (b, c ∷ d, (let q : a ≡ held = ground arith in rw (← q) e))
      | inr (commits a b c d) ↦ absurd (cc)
      | inr (aborts e) ↦ absurd (cc)
      | inr (snaps held at e) ↦ absurd (cc)
    ]

    pub Step-committed :
        {rows : List StoredRow}
        → u.stage i ≡ committed rows
        → (s.stage i ≡ committed rows) ⊎ ((held : List Lock) × (s.stage i ≡ inserting held rows []))
    Step-committed {rows} h = elim (Step-stage st i) [
      | inl same ↦ inl (sym same ∙ h)
      | inr (takes a b e) ↦ absurd (cc)
      | inr (marks a b e x) ↦ absurd (cc)
      | inr (checks o a b c d e x y z) ↦ absurd (cc)
      | inr (inserts a b c d e x) ↦ absurd (cc)
      | inr (commits a b c d) ↦ inr (a, (let q : b ≡ rows = ground arith in rw (← q) c))
      | inr (aborts e) ↦ absurd (cc)
      | inr (snaps held at e) ↦ absurd (cc)
    ]
