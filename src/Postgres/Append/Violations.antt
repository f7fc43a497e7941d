-- ===== src/Postgres/Append/Violations.antt =====
-- The error that postgres/append.go makes of an index is the one that memory/store.go makes, and the
-- index comes back from the text in which the stored procedure reports it.
use dcb_event_store_pg_go.Base.{
  ℕ, suc, ◌+◌, ◌<◌, ◌^◌, ◌≡◌, refl, Bool, true, false, List, [], ◌∷◌, ◌++◌, Option, none, some,
  Bytes, arith, ltb, length, get_elem?, Bool-cases, inl, inr, pos,
}
use dcb_event_store_pg_go.EventStore.Condition.{
  AppendCommand, AppendCondition, AppendConditionError,
}
use dcb_event_store_pg_go.EventStore.Event.{SequencedEvent}
use dcb_event_store_pg_go.Memory.Store.{violation}
use dcb_event_store_pg_go.Memory.Store.Append.{first_violation}
use dcb_event_store_pg_go.Postgres.Append.{
  violation_prefix, after_prefix, parse_condition_violation, violated_command, condition_error,
}
use dcb_event_store_pg_go.Postgres.Conditions.Agreement.{is_violated, violated_index}
use dcb_event_store_pg_go.Postgres.Position.{format_int, parse_int-format_uint, with_sign}

module _ (existing : List SequencedEvent) (multi : Bool) where
  -- One command, at its index.
  found_here :
      (i : ℕ) (cmd : AppendCommand)
      → is_violated existing cmd.condition ≡ true
      → (e : AppendConditionError) × (violated_command multi i (some cmd) ≡ some e)
        × (violation existing multi i cmd.condition ≡ some e)
  unfolding violated_command violation
  found_here i cmd h = at cmd.condition h
    where
      at :
          (condition : Option AppendCondition)
          → is_violated existing condition ≡ true
          → (e : AppendConditionError) × (violated_command multi i
                (some (record cmd { condition = condition }))
              ≡ some e)
            × (violation existing multi i condition ≡ some e)
      at none h = absurd (ground arith)
      at (some c) h = (_, refl, rw h refl)

  clear_here :
      (i : ℕ) (condition : Option AppendCondition)
      → is_violated existing condition ≡ false
      → violation existing multi i condition ≡ none
  unfolding violation
  clear_here i none h = refl
  clear_here i (some c) h = rw h refl

  found_from :
      (i : ℕ) (commands : List AppendCommand) {k : ℕ}
      → violated_index existing i commands ≡ some k
      → (n : ℕ) × (k ≡ i + n)
        × (e : AppendConditionError) × (violated_command multi k (get_elem? commands n) ≡ some e)
        × (first_violation existing multi i commands ≡ some e)
  found_from i [] h = absurd (ground arith)
  found_from i (cmd ∷ commands) {k} h = elim (Bool-cases (is_violated existing cmd.condition)) [
    | inl hit ↦
        let same : i ≡ k = ground arith in
        let (e, a, b) = found_here i cmd hit in
        (0, omega (arith, same), e, rw (← same) a, rw (b, first_violation) refl)
    | inr clear ↦
        let (n, at, e, a, b) = found_from (suc i) commands {k = k} (ground arith) in
        (suc n, omega (arith, at), e, a, rw (clear_here i cmd.condition clear, first_violation) b)
  ]

-- Where `k` is the index of the first command whose condition a stored event violates, the error
-- that `conditionError` makes of it is the error of the memory store on the same events and batch,
-- with no panic.
pub condition_error-first_violation :
    (existing : List SequencedEvent) (commands : List AppendCommand) (k : ℕ)
    → violated_index existing 0 commands ≡ some k
    → (e : AppendConditionError) × (condition_error commands (pos k) ≡ some e)
      × (first_violation existing (ltb 1 (length commands)) 0 commands ≡ some e)
unfolding condition_error
condition_error-first_violation existing commands k h =
    let (n, at, e, a, b) = found_from existing (ltb 1 (length commands)) 0 commands {k = k} h in
    let same : k ≡ n = omega (arith, at) in (e, rw (← same) at a, b)

after_prefix_lem : (prefix s : Bytes) → after_prefix prefix (prefix ++ s) ≡ some s
unfolding after_prefix
after_prefix_lem [] s = refl
after_prefix_lem (c ∷ prefix) s = ground (arith, after_prefix_lem prefix s)

-- The message that the stored procedure raises for a command's index gives that index back.
pub parse_condition_violation-prefix :
    (k : ℕ)
    → k < 2 ^ 31
    → parse_condition_violation (some (violation_prefix ++ format_int (pos k))) ≡ some (pos k)
unfolding parse_condition_violation format_int with_sign
parse_condition_violation-prefix k h =
    rw
      (
        after_prefix_lem violation_prefix (format_int (pos k)),
        parse_int-format_uint k (omega arith),
      )
      (ground arith)
