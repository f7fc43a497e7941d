-- ===== src/Postgres/Append/Committed.antt =====
-- On the COPY path of postgres/append.go a position is returned only behind a commit.
use dcb_event_store_pg_go.Base.{
  ◌≡◌, refl, sym, ap, List, Option, none, some, Option-cases, inl, inr, Result, ok, err, panic, ℤ,
  arith,
}
use dcb_event_store_pg_go.EventStore.Condition.{AppendCommand}
use dcb_event_store_pg_go.EventStore.Position.{SequencePosition}
use dcb_event_store_pg_go.Postgres.Append.{
  Database, AppendError, and_then, copy_rows, all_events_of, check_in_tx, copy_events,
  unless_violated, check_and_copy, in_tx, append_via_copy, fail_violated, position_of,
  condition_error,
}
use dcb_event_store_pg_go.Postgres.LockKeys.{WriterLockKeys}
use dcb_event_store_pg_go.Postgres.Position.{format_int, int64_to_position}
use dcb_event_store_pg_go.Postgres.Serialize.{ConditionRow, serialize_conditions}

-- A statement followed by others succeeds only if it does and they do.
and_then_ok :
    {D E A B : Type 0} (r : D × Result E A) (f : A → D → D × Result (AppendError E) B) {d' : D}
    {b : B}
    → and_then r f ≡ (d', ok b)
    → (d : D) × (a : A) × (r ≡ (d, ok a)) × (f a d ≡ (d', ok b))
and_then_ok (d, ok a) f h = (d, a, refl, h)
and_then_ok (d, err e) f h = absurd (cc)
and_then_ok (d, panic) f h = absurd (cc)

module _ {D E : Type 0} (db : Database D E) (commands : List AppendCommand) where
  -- The statements from the COPY to the commit, each of which succeeds.
  abbrev pub Commits : D → D → SequencePosition → Type 0
  Commits d d' p =
      (d₁ d₂ d₃ : D) × (n : ℤ) × (db.copy_from (copy_rows (all_events_of commands)) d ≡ (d₁, ok tt))
      × (db.current_value d₁ ≡ (d₂, ok n))
      × (db.notify (format_int n) d₂ ≡ (d₃, ok tt))
      × (db.commit d₃ ≡ (d', ok tt))
      × (int64_to_position n ≡ some p)

  -- The statements of a whole transaction that finds no violation and commits.
  abbrev pub Succeeds : WriterLockKeys → D → D → SequencePosition → Type 0
  Succeeds keys d d' p =
      (d₁ d₂ d₃ d₄ : D) × (hwm : ℤ) × (rows : List ConditionRow) × (db.begin_tx d ≡ (d₁, ok tt))
      × (db.acquire_locks keys d₁ ≡ (d₂, ok tt))
      × (db.last_value d₂ ≡ (d₃, ok hwm))
      × (serialize_conditions commands ≡ some rows)
      × (check_in_tx db rows hwm d₃ ≡ (d₄, ok none))
      × Commits d₄ d' p

  position_of_ok :
      (n : ℤ) {p : SequencePosition} → position_of {E = E} n ≡ ok p → int64_to_position n ≡ some p
  unfolding position_of
  position_of_ok n h = elim (Option-cases (int64_to_position n)) [
    | inl e ↦ absurd (ground arith)
    | inr (q, e) ↦ ground arith
  ]

  fail_violated_ok :
      (idx : ℤ) {p : SequencePosition} → ¬ (fail_violated {E = E} commands idx ≡ ok p)
  unfolding fail_violated
  fail_violated_ok idx h = elim (Option-cases (condition_error commands idx)) [
    | inl e ↦ ground arith
    | inr (q, e) ↦ ground arith
  ]

  copy_events_ok :
      (d : D) {d' : D} {p : SequencePosition}
      → copy_events db commands d ≡ (d', ok p)
      → Commits d d' p
  unfolding copy_events
  copy_events_ok d h =
      let (d₁, u, copied, h₁) =
        and_then_ok (db.copy_from (copy_rows (all_events_of commands)) d) _ h in
      let (d₂, n, valued, h₂) = and_then_ok (db.current_value d₁) _ h₁ in
      let (d₃, v, notified, h₃) = and_then_ok (db.notify (format_int n) d₂) _ h₂ in
      let (d₄, w, committed, h₄) = and_then_ok (db.commit d₃) _ h₃ in
      (d₁, d₂, d₃, n, copied, valued, notified, cc, position_of_ok n cc)

  unless_violated_ok :
      (failed : Option ℤ) (d : D) {d' : D} {p : SequencePosition}
      → unless_violated db commands failed d ≡ (d', ok p)
      → (failed ≡ none) × Commits d d' p
  unfolding unless_violated
  unless_violated_ok (some idx) d h = absurd (fail_violated_ok idx (ap (λ r. r.1) h))
  unless_violated_ok none d h = (refl, copy_events_ok d h)

  checked_ok :
      (hwm : ℤ) (d : D) (rows : Option (List ConditionRow)) {d' : D} {p : SequencePosition}
      → check_and_copy db commands hwm rows d ≡ (d', ok p)
      → (rows' : List ConditionRow) × (d₄ : D) × (rows ≡ some rows')
        × (check_in_tx db rows' hwm d ≡ (d₄, ok none))
        × Commits d₄ d' p
  unfolding check_and_copy
  checked_ok hwm d none h = absurd (cc)
  checked_ok hwm d (some rows) h =
      let (d₄, failed, checked, h₄) =
        and_then_ok (check_in_tx db rows hwm d) (unless_violated db commands) h in
      let (clear, done) = unless_violated_ok failed d₄ h₄ in
      (rows, d₄, refl, rw clear at checked, done)

  -- `appendViaCopy` returns a position only if every statement of its transaction succeeded, in
  -- order: the locks were acquired before the high-water mark was read, the check on the serialized
  -- conditions found no violation, all events of the batch were copied, the position is the
  -- sequence's current value, and the transaction was committed before the deferred rollback.
  pub append_via_copy-Succeeds :
      (keys : WriterLockKeys) (d d' : D) (p : SequencePosition)
      → append_via_copy db commands keys d ≡ (d', ok p)
      → (d'' : D) × (d' ≡ db.rollback d'') × Succeeds keys d d'' p
  unfolding append_via_copy in_tx
  append_via_copy-Succeeds keys d d' p h =
      let (d₁, u, begun, h₁) = and_then_ok (db.begin_tx d) _ h in
      let inside : in_tx db commands keys d₁ ≡ ((in_tx db commands keys d₁).0, ok p) = cc in
      let (d₂, v, locked, h₂) = and_then_ok (db.acquire_locks keys d₁) _ inside in
      let (d₃, hwm, read_, h₃) = and_then_ok (db.last_value d₂) _ h₂ in
      let (rows, d₄, made, checked, done) = checked_ok hwm d₃ (serialize_conditions commands) h₃ in
      (
        (in_tx db commands keys d₁).0,
        ap (λ r. r.0) (sym h₁),
        (d₁, d₂, d₃, d₄, hwm, rows, begun, locked, read_, made, checked, done),
      )
