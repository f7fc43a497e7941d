-- ===== src/Postgres/Server/Check.antt =====
-- A check of conditions that reports nothing, on any table: no row up to the mark violates.
use dcb_event_store_pg_go.Base.{
  ℕ, suc, ◌<◌, ◌≤◌, ◌≡◌, refl, ◌⊎◌, inl, inr, Bool-cases, false, List, [], ◌∷◌, ◌++◌, Option, none,
  some, Option-cases, any_complete, ℤ, pos, Memᴰ, arith,
}
use dcb_event_store_pg_go.Base.Memᴰ
use dcb_event_store_pg_go.EventStore.Condition.{AppendCommand, AppendCondition}
use dcb_event_store_pg_go.EventStore.Position.{SequencePosition}
use dcb_event_store_pg_go.Postgres.Conditions.{
  StoredRow, row_hit, row_failed, least, check_function, query_check, check_conditions,
}
use dcb_event_store_pg_go.Postgres.Conditions.Agreement.{
  Sendable, AfterFits, after_of, after_int64_lem,
}
use dcb_event_store_pg_go.Postgres.Conditions.Rows.{mem-item_rows, row_hit_stored}
use dcb_event_store_pg_go.Postgres.Serialize.{
  ConditionRow, to_int32, item_rows, condition_rows, conditions_from, serialize_conditions,
}
use dcb_event_store_pg_go.Postgres.Serialize.TagText.{StringToArray}
use dcb_event_store_pg_go.Postgres.Server.{number}
use dcb_event_store_pg_go.Postgres.Server.Rows.{RowMatches, RowPast, number_positive}

-- The rows of a command with a condition are among those that are sent.
sent_rows :
    (i : ℕ) (commands : List AppendCommand) {rows : List ConditionRow} {cmd : AppendCommand}
    {c : AppendCondition}
    → conditions_from i commands ≡ some rows
    → Memᴰ cmd commands
    → cmd.condition ≡ some c
    → AfterFits c.after
    → (k : ℤ) × ((row : ConditionRow)
        → Memᴰ row (item_rows k (pos (after_of c.after)) c.fail_if_events_match.items)
        → Memᴰ row rows)
unfolding conditions_from condition_rows
sent_rows i [] made m e fits = elim m [ ]
sent_rows i (x ∷ commands) {rows} {cmd} {c} made m e fits =
    by_rows (Option-cases (condition_rows i x.condition))
      (Option-cases (conditions_from (suc i) commands)) m
      (λ r q n. sent_rows (suc i) commands {rows = r} {cmd = cmd} {c = c} q n e fits)
  where
    Sent : List ConditionRow → Type 0
    Sent rs =
        (k : ℤ) × ((row : ConditionRow)
          → Memᴰ row (item_rows k (pos (after_of c.after)) c.fail_if_events_match.items)
          → Memᴰ row rs)

    by_rows :
        (condition_rows i x.condition ≡ none)
          ⊎ ((own : List ConditionRow) × (condition_rows i x.condition ≡ some own))
        → (conditions_from (suc i) commands ≡ none)
          ⊎ ((later : List ConditionRow) × (conditions_from (suc i) commands ≡ some later))
        → Memᴰ cmd (x ∷ commands)
        → ((r : List ConditionRow)
            → conditions_from (suc i) commands ≡ some r
            → Memᴰ cmd commands
            → Sent r)
        → Sent rows
    by_rows (inl e₁) _ m later_sent = absurd (ground arith)
    by_rows (inr (own, e₁)) (inl e₂) m later_sent = absurd (ground arith)
    by_rows (inr (own, e₁)) (inr (later, e₂)) (Memᴰ.tail n) later_sent =
        let (k, inside) = later_sent later e₂ n in
        let all : rows ≡ own ++ later = ground arith in
        (k, λ row p. rw all (Memᴰ.append_right own (inside row p)))
    by_rows (inr (own, e₁)) (inr (later, e₂)) (Memᴰ.head q) later_sent =
        let all : rows ≡ own ++ later = ground arith in
        let mine : own
            ≡ item_rows (to_int32 i) (pos (after_of c.after)) c.fail_if_events_match.items =
          ground (arith, after_int64_lem c.after fits) in
        (to_int32 i, λ row p. rw all (Memᴰ.append_left later (rw mine p)))

module _ (server : StringToArray) (table : List StoredRow) (hwm : ℤ) where
  none_failed :
      (rows : List ConditionRow) {row : ConditionRow}
      → check_function server table hwm rows ≡ none
      → Memᴰ row rows
      → row_failed server table hwm row ≡ false
  unfolding check_function
  none_failed [] h m = elim m [ ]
  none_failed (c ∷ rows) {row} h m = elim (Bool-cases (row_failed server table hwm c)) [
    | inl hit ↦ absurd (some_least c.cmd_idx (check_function server table hwm rows) (ground arith))
    | inr clear ↦ first_or_later clear (none_failed rows {row = row} (ground arith)) m
  ]
    where
      some_least : (i : ℤ) (o : Option ℤ) → ¬ (least server i o ≡ none)
      some_least i none = unfold least in λ e. cc
      some_least i (some j) = unfold least in λ e. cc

      first_or_later :
          row_failed server table hwm c ≡ false
          → (Memᴰ row rows → row_failed server table hwm row ≡ false)
          → Memᴰ row (c ∷ rows)
          → row_failed server table hwm row ≡ false
      first_or_later clear later (Memᴰ.head e) = rw e clear
      first_or_later clear later (Memᴰ.tail n) = later n

RowPast-after_of :
    (after : Option SequencePosition) (e : StoredRow)
    → 0 < number e
    → RowPast after e
    → after_of after < number e
RowPast-after_of none e first past = first
RowPast-after_of (some p) e first past = past

-- Where the check of a batch reports nothing, no stored row at or below the mark violates a
-- condition of the batch that can be sent.
pub check_conditions_clear :
    (server : StringToArray) (table : List StoredRow) (hwm : ℕ) (commands : List AppendCommand)
    (cmd : AppendCommand) (c : AppendCondition) (e : StoredRow)
    → check_conditions server table (pos hwm) commands ≡ some none
    → Memᴰ cmd commands
    → cmd.condition ≡ some c
    → Sendable (some c)
    → Memᴰ e table
    → 0 < number e
    → number e ≤ hwm
    → RowPast c.after e
    → ¬ RowMatches c.fail_if_events_match e
unfolding check_conditions serialize_conditions row_failed
check_conditions_clear server table hwm commands cmd c e h m q (scoped, plain, fits) b first le past
      (inl a) =
    absurd (cc)
check_conditions_clear server table hwm commands cmd c e h m q (scoped, plain, fits) b first le past
      (inr (item, n, t, sub)) =
    elim (Option-cases (conditions_from 0 commands)) [
      | inl none_ ↦ absurd (ground arith)
      | inr (rows, made) ↦
          let (k, sent) = sent_rows 0 commands {rows = rows} {cmd = cmd} {c = c} made m q fits in
          let (in_item, p) =
            mem-item_rows k (pos (after_of c.after)) c.fail_if_events_match.items plain n t in
          let asked : query_check server table (pos hwm) rows ≡ none = ground arith in
          let clear =
            none_failed server table (pos hwm) rows (queried rows asked) (sent _ in_item) in
          let hit = any_complete (row_hit server (pos hwm) _) e b (
            row_hit_stored server k (after_of c.after) hwm item e.row_type e p (
              refl,
              sub,
              number_positive e.sequence_position first,
              RowPast-after_of c.after e first past,
              le,
            )) in
          cc (clear, hit)
    ]
  where
    queried :
        (rows : List ConditionRow)
        → query_check server table (pos hwm) rows ≡ none
        → check_function server table (pos hwm) rows ≡ none
    queried [] q = unfold check_function in refl
    queried (c ∷ rows) q = unfold query_check in q
