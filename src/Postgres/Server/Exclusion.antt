-- ===== src/Postgres/Server/Exclusion.antt =====
-- What holds of the transactions at every moment: no two hold locks that clash, and a transaction
-- that reads the high-water mark or inserts holds all locks of its plan.
use dcb_event_store_pg_go.Base.{
  ℕ, ◌+◌, ◌<◌, ◌≤◌, ◌≡◌, ◌≢◌, refl, sym, ◌∙◌, ◌⊎◌, inl, inr, Bool-cases, List, [], ◌∷◌, ◌++◌,
  append_assoc, append-nil, none, ◌==◌, ==_iff, Memᴰ, arith,
}
use mathlib.Core.Path.{subst}
use dcb_event_store_pg_go.Base.Memᴰ
use dcb_event_store_pg_go.EventStore.Condition.{AppendCommand}
use dcb_event_store_pg_go.Memory.Store.{validate_commands}
use dcb_event_store_pg_go.Postgres.Append.{CopyRow}
use dcb_event_store_pg_go.Postgres.Conditions.{StoredRow}
use dcb_event_store_pg_go.Postgres.Serialize.TagText.{StringToArray}
use dcb_event_store_pg_go.Postgres.Server.{
  Route, rows_of, number, Lock, Job, write, barrier, plan, Stage, fresh, aborted, locking, marked,
  inserting, committed, snapped, locks_of, Clash, Server, put_stage, Free, next_row, Step, begin,
  acquire, mark, check, insert, commit, abort, snap, Reach, here, next, IsStart,
}
use dcb_event_store_pg_go.Postgres.Server.Locks.{Contend}
use dcb_event_store_pg_go.Postgres.Server.Rows.{columns, job_rows}

abbrev pub Numbered : ℕ → List StoredRow → Type 0
Numbered n rows = (row : StoredRow) → Memᴰ row rows → (0 < number row) × (number row ≤ n)

abbrev pub From : StringToArray → Job → List StoredRow → Type 0
From server job rows = (row : StoredRow) → Memᴰ row rows → Memᴰ (columns row) (job_rows server job)

-- The validation before the transaction.
abbrev pub Validated : Job → Type 0
Validated (write route commands) = validate_commands commands ≡ none
Validated (barrier query) = Unit

-- What holds of one transaction.
abbrev pub Local : StringToArray → Job → ℕ → Stage → Type 0
Local server job n fresh = Unit
Local server job n aborted = Unit
Local server job n (locking held wanted) = (held ++ wanted ≡ plan job) × Validated job
Local server job n (marked held hwm) = (held ≡ plan job) × Validated job × (hwm ≤ n)
Local server job n (inserting held rows events) =
    (held ≡ plan job)
    × Validated job
    × Numbered n rows
    × From server job rows
    × ((r : CopyRow) → Memᴰ r events → Memᴰ r (job_rows server job))
Local server job n (committed rows) = Validated job × Numbered n rows × From server job rows
Local server job n (snapped hwm) = hwm ≤ n

pub Numbered-mono : {n n' : ℕ} (rows : List StoredRow) → n ≤ n' → Numbered n rows → Numbered n' rows
Numbered-mono rows le h row m = let (a, b) = h row m in (a, omega arith)

Local-mono :
    (server : StringToArray) (job : Job) {n n' : ℕ} (st : Stage)
    → n ≤ n'
    → Local server job n st
    → Local server job n' st
Local-mono server job fresh le h = tt
Local-mono server job aborted le h = tt
Local-mono server job (locking held wanted) le h = h
Local-mono server job (marked held hwm) le (a, b, c) = (a, b, omega arith)
Local-mono server job (inserting held rows events) le (a, b, c, d, e) =
    (a, b, Numbered-mono rows le c, d, e)
Local-mono server job (committed rows) le (a, b, c) = (a, Numbered-mono rows le b, c)
Local-mono server job (snapped hwm) le h = omega arith

-- A property of every transaction, after one of them moves.
pub put_all :
    (P : ℕ → Stage → Type 0) (i : ℕ) (st : Stage) (f : ℕ → Stage)
    → P i st
    → ((j : ℕ) → P j (f j))
    → (j : ℕ) → P j (put_stage i st f j)
put_all P i st f h g j = elim (Bool-cases (i == j)) [
  | inl e ↦ rw e (subst (λ k. P k st) ((==_iff i j).0 e) h)
  | inr e ↦ rw e (g j)
]

Clash-symm : {a b : Lock} → Clash a b → Clash b a
Clash-symm (e, inl x) = (sym e, inr x)
Clash-symm (e, inr x) = (sym e, inl x)

module _ (server : StringToArray) (jobs : ℕ → Job) where
  pub record Sound (s : Server) : Type 0 where
    pub local : (i : ℕ) → Local server (jobs i) s.last_value (s.stage i)
    pub exclusion :
        (i j : ℕ)
        → i ≢ j
        → (a b : Lock) → Memᴰ a (locks_of (s.stage i))
        → Memᴰ b (locks_of (s.stage j))
        → ¬ Clash a b
    pub numbered : Numbered s.last_value s.table

  IsStart-Sound : {s : Server} → IsStart s → Sound s
  IsStart-Sound {s} h = record {
    local = λ i. rw (h.unused i) tt;
    exclusion = λ i j ne a b m n. elim (rw (h.unused i) at m) [ ];
    numbered = h.numbered;
  }

  -- A step of one transaction that takes no lock.
  moved :
      {s : Server} (i : ℕ) (st : Stage) (n : ℕ) (table : List StoredRow)
      → Sound s
      → s.last_value ≤ n
      → Local server (jobs i) n st
      → ((m : Lock) → Memᴰ m (locks_of st) → Memᴰ m (locks_of (s.stage i)))
      → Numbered n table
      → Sound (record { table = table; last_value = n; stage = put_stage i st s.stage })
  moved {s} i st n table v le own fewer num = record {
    local =
        put_all (λ j x. Local server (jobs j) n x) i st s.stage own
          (λ j. Local-mono server (jobs j) (s.stage j) le (v.local j));
    exclusion = λ j k ne a b p q. v.exclusion j k ne a b (kept j a p) (kept k b q);
    numbered = num;
  }
    where
      kept :
          (j : ℕ) (m : Lock)
          → Memᴰ m (locks_of (put_stage i st s.stage j))
          → Memᴰ m (locks_of (s.stage j))
      kept j m =
          put_all (λ j x. Memᴰ m (locks_of x) → Memᴰ m (locks_of (s.stage j))) i st s.stage
            (fewer m) (λ j p. p) j

  pub Local-at :
      {s : Server}
      → Sound s
      → (i : ℕ) {st : Stage} → s.stage i ≡ st
      → Local server (jobs i) s.last_value st
  Local-at {s} v i e = subst (λ x. Local server (jobs i) s.last_value x) e (v.local i)

  same_locks :
      (s : Server) (i : ℕ) {st : Stage}
      → s.stage i ≡ st
      → (m : Lock) → Memᴰ m (locks_of st)
      → Memᴰ m (locks_of (s.stage i))
  same_locks s i e m p = rw e p

  acquired :
      (s : Server) (i : ℕ) (held : List Lock) (l : Lock) (wanted : List Lock)
      → Sound s
      → s.stage i ≡ locking held (l ∷ wanted)
      → Free s i l
      → Sound (record s { stage = put_stage i (locking (held ++ l ∷ []) wanted) s.stage })
  acquired s i held l wanted v at free = record {
    local = put_all (λ j x. Local server (jobs j) s.last_value x) i taken s.stage own v.local;
    exclusion = λ j k ne a b p q. apart j k ne a b (origin j a p) (origin k b q);
    numbered = v.numbered;
  }
    where
      taken : Stage
      taken = locking (held ++ l ∷ []) wanted

      own : Local server (jobs i) s.last_value (locking (held ++ l ∷ []) wanted)
      own = let (e, valid) = Local-at v i at in (append_assoc held (l ∷ []) wanted ∙ e, valid)

      origin :
          (j : ℕ) (m : Lock)
          → Memᴰ m (locks_of (put_stage i taken s.stage j))
          → Memᴰ m (locks_of (s.stage j)) ⊎ ((i ≡ j) × (m ≡ l))
      origin j m =
          put_all (λ j x. Memᴰ m (locks_of x) → Memᴰ m (locks_of (s.stage j)) ⊎ ((i ≡ j) × (m ≡ l)))
            i taken s.stage (λ p. old_or_new (Memᴰ.append_cases held p)) (λ j p. inl p) j
        where
          old_or_new :
              Memᴰ m held ⊎ Memᴰ m (l ∷ []) → Memᴰ m (locks_of (s.stage i)) ⊎ ((i ≡ i) × (m ≡ l))
          old_or_new (inl p) = inl (same_locks s i at m p)
          old_or_new (inr (Memᴰ.head e)) = inr (refl, e)
          old_or_new (inr (Memᴰ.tail p)) = elim p [ ]

      apart :
          (j k : ℕ)
          → j ≢ k
          → (a b : Lock) → Memᴰ a (locks_of (s.stage j)) ⊎ ((i ≡ j) × (a ≡ l))
          → Memᴰ b (locks_of (s.stage k)) ⊎ ((i ≡ k) × (b ≡ l))
          → ¬ Clash a b
      apart j k ne a b (inl p) (inl q) c = v.exclusion j k ne a b p q c
      apart j k ne a b (inr (e, e')) (inl q) c =
          free k (λ x. ne (sym e ∙ x)) b q (subst (λ x. Clash x b) e' c)
      apart j k ne a b (inl p) (inr (e, e')) c =
          free j (λ x. ne (sym x ∙ e)) a p (Clash-symm (subst (λ x. Clash a x) e' c))
      apart j k ne a b (inr (e, _)) (inr (e', _)) c = ne (sym e ∙ e')

  no_locks_kept : (s : Server) (i : ℕ) (m : Lock) → Memᴰ m [] → Memᴰ m (locks_of (s.stage i))
  no_locks_kept s i m p = elim p [ ]

  validated :
      (i : ℕ)
      → ((route : Route) (commands : List AppendCommand)
          → jobs i ≡ write route commands
          → validate_commands commands ≡ none)
      → (job : Job) → jobs i ≡ job
      → Validated job
  validated i h (write route commands) e = h route commands e
  validated i h (barrier query) e = tt

  inserted :
      (s : Server) (i : ℕ) (held : List Lock) (rows : List StoredRow) (r : CopyRow)
      (events : List CopyRow)
      → Local server (jobs i) s.last_value (inserting held rows (r ∷ events))
      → Local server (jobs i) (s.last_value + 1) (inserting held (rows ++ next_row s r ∷ []) events)
  inserted s i held rows r events (a, b, num, from, left) = (
    a,
    b,
    (λ row m. fresh_number row (Memᴰ.append_cases rows m)),
    (λ row m. fresh_origin row (Memᴰ.append_cases rows m)),
    λ e m. left e (Memᴰ.tail m),
  )
    where
      fresh_number :
          (row : StoredRow)
          → Memᴰ row rows ⊎ Memᴰ row (next_row s r ∷ [])
          → (0 < number row) × (number row ≤ s.last_value + 1)
      fresh_number row (inl m) = let (p, q) = num row m in (p, omega arith)
      fresh_number row (inr (Memᴰ.head e)) = rw e (omega arith, omega arith)
      fresh_number row (inr (Memᴰ.tail m)) = elim m [ ]

      fresh_origin :
          (row : StoredRow)
          → Memᴰ row rows ⊎ Memᴰ row (next_row s r ∷ [])
          → Memᴰ (columns row) (job_rows server (jobs i))
      fresh_origin row (inl m) = from row m
      fresh_origin row (inr (Memᴰ.head e)) = rw e (left r (Memᴰ.head refl))
      fresh_origin row (inr (Memᴰ.tail m)) = elim m [ ]

  pub Step-Sound : {s u : Server} → Step server jobs s u → Sound s → Sound u
  Step-Sound {s} (begin i at valid) v =
      moved i (locking [] (plan (jobs i))) s.last_value s.table v (omega arith)
        (refl, validated i valid (jobs i) refl) (no_locks_kept s i) v.numbered
  Step-Sound {s} (acquire i held l wanted at free) v = acquired s i held l wanted v at free
  Step-Sound {s} (mark i route commands held job at) v =
      let (e, valid) = Local-at v i at in
      moved i (marked held s.last_value) s.last_value s.table v (omega arith)
        (sym (append-nil held) ∙ e, valid, omega arith) (same_locks s i at) v.numbered
  Step-Sound {s} (check i route commands held hwm job at clear) v =
      let (e, valid, le) = Local-at v i at in
      moved i (inserting held [] (rows_of server route commands)) s.last_value s.table v
        (omega arith) (e, valid, (λ row m. elim m [ ]), (λ row m. elim m [ ]), λ r m. rw job m)
        (same_locks s i at) v.numbered
  Step-Sound {s} (insert i held rows r events at) v =
      moved i (inserting held (rows ++ next_row s r ∷ []) events) (s.last_value + 1) s.table v
        (omega arith) (inserted s i held rows r events (Local-at v i at)) (same_locks s i at)
        (Numbered-mono s.table (omega arith) v.numbered)
  Step-Sound {s} (commit i held rows at) v =
      let (e, valid, num, from, left) = Local-at v i at in
      moved i (committed rows) s.last_value (s.table ++ rows) v (omega arith) (valid, num, from)
        (no_locks_kept s i)
        (λ row m. elim (Memᴰ.append_cases s.table m) [
          | inl p ↦ v.numbered row p
          | inr p ↦ num row p
        ])
  Step-Sound {s} (abort i is_open) v =
      moved i aborted s.last_value s.table v (omega arith) tt (no_locks_kept s i) v.numbered
  Step-Sound {s} (snap i query held job at) v =
      moved i (snapped s.last_value) s.last_value s.table v (omega arith) (omega arith)
        (no_locks_kept s i) v.numbered

  pub Reach-Sound : {s u : Server} → IsStart s → Reach server jobs s u → Sound u
  Reach-Sound h here = IsStart-Sound h
  Reach-Sound h (next r st) = Step-Sound st (Reach-Sound h r)

  -- Of two transactions whose plans clash, one that holds its plan keeps the other from holding its.
  pub holders_apart :
      {s : Server}
      → Sound s
      → (i j : ℕ) → i ≢ j
      → locks_of (s.stage i) ≡ plan (jobs i)
      → locks_of (s.stage j) ≡ plan (jobs j)
      → ¬ Contend (jobs i) (jobs j)
  holders_apart {s} v i j ne p q (l, m, a, b, c) = v.exclusion i j ne l m (rw p a) (rw q b) c
