-- ===== src/Postgres/Server/Progress.antt =====
-- What one step of one transaction can change.
use dcb_event_store_pg_go.Base.{
  ℕ, ◌<◌, ◌≤◌, ◌≡◌, ◌≢◌, refl, sym, ap, ◌∙◌, ◌⊎◌, inl, inr, Bool-cases, List, [], ◌∷◌, ◌++◌, ◌==◌,
  ==_iff, Memᴰ, arith,
}
use dcb_event_store_pg_go.Base.Memᴰ
use dcb_event_store_pg_go.Postgres.Append.{CopyRow}
use dcb_event_store_pg_go.Postgres.Conditions.{StoredRow}
use dcb_event_store_pg_go.Postgres.Serialize.TagText.{StringToArray}
use dcb_event_store_pg_go.Postgres.Server.{
  Lock, number, Job, Stage, inserting, committed, Server, put_stage, next_row, Step, begin, acquire,
  mark, check, insert, commit, abort, snap,
}

put_inv :
    (i : ℕ) (st : Stage) (f : ℕ → Stage) (j : ℕ) {x : Stage}
    → put_stage i st f j ≡ x
    → ((i ≡ j) × (st ≡ x)) ⊎ ((i ≢ j) × (f j ≡ x))
put_inv i st f j h = elim (Bool-cases (i == j)) [
  | inl e ↦ inl ((==_iff i j).0 e, ground arith)
  | inr e ↦ inr ((λ q. cc ((==_iff i j).1 q)), ground arith)
]

put_self : (i : ℕ) (st : Stage) (f : ℕ → Stage) → put_stage i st f i ≡ st
put_self i st f = rw ((==_iff i i).1 refl)

-- A row that a transaction has inserted and not committed.
pub record InFlight (s : Server) (j : ℕ) (row : StoredRow) : Type 0 where
  pub held : List Lock
  pub rows : List StoredRow
  pub events : List CopyRow
  pub at : s.stage j ≡ inserting held rows events
  pub inside : Memᴰ row rows

module _ (server : StringToArray) (jobs : ℕ → Job) where
  -- A transaction moves to a stage that inserts nothing.
  idle :
      (s : Server) (i : ℕ) (st : Stage) (n : ℕ) (table : List StoredRow)
      → ((held : List Lock) (rows : List StoredRow) (events : List CopyRow)
          → st ≢ inserting held rows events)
      → {j : ℕ} {row : StoredRow}
      → InFlight (record { table = table; last_value = n; stage = put_stage i st s.stage }) j row
      → InFlight s j row
  idle s i st n table quiet {j} f = elim (put_inv i st s.stage j f.at) [
    | inl (e, q) ↦ absurd (quiet f.held f.rows f.events q)
    | inr (ne, q) ↦ record {
      held = f.held;
      rows = f.rows;
      events = f.events;
      at = q;
      inside = f.inside;
    }
  ]

  pub Step-in_flight :
      {s u : Server}
      → Step server jobs s u
      → (j : ℕ) (row : StoredRow) → InFlight u j row
      → InFlight s j row ⊎ (s.last_value < number row)
  Step-in_flight {s} (begin i at valid) j row f = inl (idle s i _ _ _ (λ a b c q. cc) f)
  Step-in_flight {s} (acquire i held l wanted at free) j row f =
      inl (idle s i _ _ _ (λ a b c q. cc) f)
  Step-in_flight {s} (mark i route commands held job at) j row f =
      inl (idle s i _ _ _ (λ a b c q. cc) f)
  Step-in_flight {s} (commit i held rows at) j row f = inl (idle s i _ _ _ (λ a b c q. cc) f)
  Step-in_flight {s} (abort i o) j row f = inl (idle s i _ _ _ (λ a b c q. cc) f)
  Step-in_flight {s} (snap i query held job at) j row f = inl (idle s i _ _ _ (λ a b c q. cc) f)
  Step-in_flight {s} (check i route commands held hwm job at clear) j row f =
      elim (put_inv i _ s.stage j f.at) [
        | inl (e, q) ↦ let empty : f.rows ≡ [] = ground arith in elim (rw empty at f.inside) [ ]
        | inr (ne, q) ↦
            inl (record {
              held = f.held;
              rows = f.rows;
              events = f.events;
              at = q;
              inside = f.inside;
            })
      ]
  Step-in_flight {s} (insert i held rows r events at) j row f = elim (put_inv i _ s.stage j f.at) [
    | inl (e, q) ↦
        let grown : f.rows ≡ rows ++ next_row s r ∷ [] = ground arith in
        old_or_new (Memᴰ.append_cases rows (rw grown at f.inside)) e
    | inr (ne, q) ↦
        inl (record { held = f.held; rows = f.rows; events = f.events; at = q; inside = f.inside })
  ]
    where
      old_or_new :
          Memᴰ row rows ⊎ Memᴰ row (next_row s r ∷ [])
          → i ≡ j
          → InFlight s j row ⊎ (s.last_value < number row)
      old_or_new (inl m) e = inl (record {
        held = held;
        rows = rows;
        events = r ∷ events;
        at = ap s.stage (sym e) ∙ at;
        inside = m;
      })
      old_or_new (inr (Memᴰ.head e)) _ = inr (rw e (omega arith))
      old_or_new (inr (Memᴰ.tail m)) _ = elim m [ ]

  -- A row of the table was there before, or was in flight in the transaction that commits.
  pub Step-table :
      {s u : Server}
      → Step server jobs s u
      → (row : StoredRow) → Memᴰ row u.table
      → Memᴰ row s.table ⊎ ((j : ℕ) × (f : InFlight s j row) × (u.stage j ≡ committed f.rows))
  Step-table (begin i at valid) row m = inl m
  Step-table (acquire i held l wanted at free) row m = inl m
  Step-table (mark i route commands held job at) row m = inl m
  Step-table (check i route commands held hwm job at clear) row m = inl m
  Step-table (insert i held rows r events at) row m = inl m
  Step-table {s} (commit i held rows at) row m = elim (Memᴰ.append_cases s.table m) [
    | inl p ↦ inl p
    | inr p ↦ inr (
      i,
      record { held = held; rows = rows; events = []; at = at; inside = p },
      put_self i (committed rows) s.stage,
    )
  ]
  Step-table (abort i o) row m = inl m
  Step-table (snap i query held job at) row m = inl m

  -- No row leaves the table.
  pub Step-table_keeps :
      {s u : Server}
      → Step server jobs s u
      → (row : StoredRow) → Memᴰ row s.table
      → Memᴰ row u.table
  Step-table_keeps (begin i at valid) row m = m
  Step-table_keeps (acquire i held l wanted at free) row m = m
  Step-table_keeps (mark i route commands held job at) row m = m
  Step-table_keeps (check i route commands held hwm job at clear) row m = m
  Step-table_keeps (insert i held rows r events at) row m = m
  Step-table_keeps (commit i held rows at) row m = Memᴰ.append_left rows m
  Step-table_keeps (abort i o) row m = m
  Step-table_keeps (snap i query held job at) row m = m

  -- The sequence never goes back.
  pub Step-last_value : {s u : Server} → Step server jobs s u → s.last_value ≤ u.last_value
  Step-last_value (begin i at valid) = omega arith
  Step-last_value (acquire i held l wanted at free) = omega arith
  Step-last_value (mark i route commands held job at) = omega arith
  Step-last_value (check i route commands held hwm job at clear) = omega arith
  Step-last_value (insert i held rows r events at) = omega arith
  Step-last_value (commit i held rows at) = omega arith
  Step-last_value (abort i o) = omega arith
  Step-last_value (snap i query held job at) = omega arith
