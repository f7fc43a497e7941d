-- ===== src/Postgres/Append/Rejections.antt =====
-- The COPY path of postgres/append.go rejects a batch with the error of the memory store.
use mathlib.Core.Option
use dcb_event_store_pg_go.Base.{
  ℕ, ◌≤◌, ◌^◌, ◌≡◌, refl, ap, ◌∙◌, List, [], ◌∷◌, some, Option-cases, inl, inr, ok, err, ℤ, pos,
  arith, ltb, length, Memᴰ,
}
use dcb_event_store_pg_go.EventStore.Condition.{
  AppendCommand, AppendConditionError, condition_violated,
}
use dcb_event_store_pg_go.EventStore.Event.{SequencedEvent}
use dcb_event_store_pg_go.Memory.Order.{Above}
use dcb_event_store_pg_go.Memory.Store.Append.{first_violation}
use dcb_event_store_pg_go.Postgres.Append.{
  Database, rejected, fail_violated, condition_error, check_in_tx, unless_violated, check_and_copy,
  in_tx, append_via_copy, and_then,
}
use dcb_event_store_pg_go.Postgres.Append.Violations.{condition_error-first_violation}
use dcb_event_store_pg_go.Postgres.Conditions.{check_function, query_check, check_conditions}
use dcb_event_store_pg_go.Postgres.Conditions.Agreement.{
  AllSendable, violated_index, check_conditions-violated_index,
}
use dcb_event_store_pg_go.Postgres.Conditions.Rows.{table_of}
use dcb_event_store_pg_go.Postgres.LockKeys.{WriterLockKeys}
use dcb_event_store_pg_go.Postgres.Serialize.{ConditionRow, serialize_conditions}
use dcb_event_store_pg_go.Postgres.Serialize.TagText.{StringToArray}

-- A transaction on stored events whose statements succeed up to the check: after the locks, the
-- sequence stands at `hwm`, and the stored function is run on the table of the events.
pub record Answers {D E : Type 0} (db : Database D E) (server : StringToArray)
    (existing : List SequencedEvent) (hwm : ℕ) (keys : WriterLockKeys) (d d' : D) : Type 0 where
  pub begun : D
  pub locked : D
  pub begins : db.begin_tx d ≡ (begun, ok tt)
  pub locks : db.acquire_locks keys begun ≡ (locked, ok tt)
  pub mark : db.last_value locked ≡ (d', ok (pos hwm))
  pub checks :
      (rows : List ConditionRow)
      → db.call_check rows (pos hwm) d'
        ≡ (d', ok (check_function server (table_of existing) (pos hwm) rows))

module _ {D E : Type 0} (db : Database D E) (server : StringToArray)
    (existing : List SequencedEvent) (hwm : ℕ) (keys : WriterLockKeys) (d d' : D)
    (answers : Answers db server existing hwm keys d d') where
  check_in_tx-query_check :
      (rows : List ConditionRow)
      → check_in_tx db rows (pos hwm) d'
        ≡ (d', ok (query_check server (table_of existing) (pos hwm) rows))
  unfolding check_in_tx query_check
  check_in_tx-query_check [] = refl
  check_in_tx-query_check (row ∷ rows) = answers.checks (row ∷ rows)

  rejects :
      (commands : List AppendCommand) (idx : ℤ) (e : AppendConditionError)
      → check_conditions server (table_of existing) (pos hwm) commands ≡ some (some idx)
      → condition_error commands idx ≡ some e
      → append_via_copy db commands keys d ≡ (db.rollback d', err (rejected (condition_violated e)))
  unfolding append_via_copy in_tx check_and_copy unless_violated fail_violated check_conditions
  rejects commands idx e found made = elim (Option-cases (serialize_conditions commands)) [
    | inl none_ ↦ absurd (ground arith)
    | inr (rows, made_rows) ↦
        let hit : query_check server (table_of existing) (pos hwm) rows ≡ some idx = ground arith in
        let failed : fail_violated {E = E} commands idx ≡ err (rejected (condition_violated e)) =
          rw (made, fail_violated) refl in
        let inside : in_tx db commands keys answers.begun
            ≡ (d', err (rejected (condition_violated e))) =
          ap
            (λ r. and_then r (λ _ d.
              and_then (db.last_value d)
                (λ n d. check_and_copy db commands n (serialize_conditions commands) d)))
            answers.locks
          ∙ ap
              (λ r.
                and_then r (λ n d. check_and_copy db commands n (serialize_conditions commands) d))
              answers.mark
          ∙ ap (λ o. check_and_copy db commands (pos hwm) o d') made_rows
          ∙ ap (λ r. and_then r (unless_violated db commands))
              (check_in_tx-query_check rows ∙ ap (λ o. (d', ok o)) hit)
          ∙ ap (λ o. (d', o)) failed in
        ap
          (λ r.
            and_then r
              (λ _ d. ((db.rollback (in_tx db commands keys d).0), (in_tx db commands keys d).1)))
          answers.begins
        ∙ ap (λ r. (db.rollback r.0, r.1)) inside
  ]

  -- For a batch that can be sent, stored events numbered from 1 up to the mark, and a transaction
  -- whose statements succeed up to the check: if an event violates a condition, `appendViaCopy`
  -- copies nothing, rolls back, and returns the error that the memory store makes for the same
  -- events and batch.
  pub append_via_copy-first_violation :
      Above 0 existing
      → ((se : SequencedEvent) → Memᴰ se existing → se.position.value ≤ hwm)
      → (commands : List AppendCommand) (k : ℕ) → length commands ≤ 2 ^ 31
      → AllSendable commands
      → violated_index existing 0 commands ≡ some k
      → (e : AppendConditionError) × (append_via_copy db commands keys d
          ≡ (db.rollback d', err (rejected (condition_violated e))))
        × (first_violation existing (ltb 1 (length commands)) 0 commands ≡ some e)
  append_via_copy-first_violation above below commands k short sendable hit =
      let (e, made, same) = condition_error-first_violation existing commands k hit in
      (
        e,
        rejects commands (pos k) e
            (check_conditions-violated_index server existing hwm above below commands short sendable
              ∙ ap (λ o. some (Option.map pos o)) hit)
            made,
        same,
      )
