-- ===== src/Postgres/Append.antt =====
-- postgres/append.go over an interface to the database with states in `D` and errors in `E`.
pub mod Violations
pub mod Batches
pub mod Committed
pub mod Rejections
use dcb_event_store_pg_go.Base.{
  ℕ, ◌+◌, ◌≡◌, Bool, true, false, List, [], ◌∷◌, ◌++◌, Option, none, some, Bytes, codes,
  if◌then◌else◌, ltb, leb, ◌==◌, length, get_elem?, Result, ok, err, panic, ℤ, pos, negsuc,
}
use dcb_event_store_pg_go.EventStore.Condition.{
  AppendCommand, AppendCondition, AppendConditionError, StoreError, scope_error, zero_events,
  condition_violated,
}
use dcb_event_store_pg_go.EventStore.Event.{Event}
use dcb_event_store_pg_go.EventStore.Position.{SequencePosition}
use dcb_event_store_pg_go.EventStore.Tags.{values}
use dcb_event_store_pg_go.Memory.Store.{validate_commands}
use dcb_event_store_pg_go.Postgres.LockKeys.{
  WriterLockKeys, compute_writer_lock_keys, add_key, keys_of,
}
use dcb_event_store_pg_go.Postgres.Position.{parse_int, format_int, int64_to_position}
use dcb_event_store_pg_go.Postgres.Serialize.{
  EventRow, serialize_events, serialize_payload, ConditionRow, serialize_conditions,
}

-- A row of the COPY, whose tags are an array.
pub record CopyRow : Type 0 where
  pub copy_type : Bytes
  pub copy_tags : List Bytes
  pub copy_payload : Bytes

-- What the code calls of the database. `message` is the text of an error that is a `PgError`.
pub record Database (D E : Type 0) : Type 0 where
  pub message : E → Option Bytes
  pub call_append : WriterLockKeys → List EventRow → List ConditionRow → D → D × Result E ℤ
  pub begin_tx : D → D × Result E (Unit {0})
  pub rollback : D → D
  pub acquire_locks : WriterLockKeys → D → D × Result E (Unit {0})
  pub last_value : D → D × Result E ℤ
  pub call_check : List ConditionRow → ℤ → D → D × Result E (Option ℤ)
  pub copy_from : List CopyRow → D → D × Result E (Unit {0})
  pub current_value : D → D × Result E ℤ
  pub notify : Bytes → D → D × Result E (Unit {0})
  pub commit : D → D × Result E (Unit {0})

-- The errors of `Append`: those of any store, and the database's.
pub data AppendError (E : Type 0) : Type 0 where
  rejected : StoreError → AppendError E
  database_error : E → AppendError E

-- The two sets that collect the keys of all commands.
unfoldable pub add_keys : List ℤ → List ℤ → List ℤ
add_keys [] set = set
add_keys (k ∷ keys) set = add_keys keys (add_key k set)

unfoldable pub collect_keys : List AppendCommand → List ℤ → List ℤ → WriterLockKeys
collect_keys [] leaf intent = record { leaf_x = keys_of leaf; intent_s = keys_of intent }
collect_keys (cmd ∷ commands) leaf intent =
    let keys = compute_writer_lock_keys cmd.events cmd.condition in
    collect_keys commands (add_keys keys.leaf_x leaf) (add_keys keys.intent_s intent)

unfoldable pub total_events : List AppendCommand → ℕ
total_events [] = 0
total_events (cmd ∷ commands) = length cmd.events + total_events commands

abbrev pub violation_prefix : Bytes
violation_prefix = codes "APPEND_CONDITION_VIOLATED:cmd="

-- `strings.HasPrefix` and `strings.TrimPrefix`.
unfoldable pub after_prefix : Bytes → Bytes → Option Bytes
after_prefix [] s = some s
after_prefix (c ∷ prefix) [] = none
after_prefix (c ∷ prefix) (b ∷ s) = if c == b then after_prefix prefix s else none

unfoldable pub index_of_text : Option Bytes → Option ℤ
index_of_text none = none
index_of_text (some text) = parse_int text

-- `parseConditionViolation` on the message of a `PgError`, if the error is one.
unfoldable pub parse_condition_violation : Option Bytes → Option ℤ
unfolding index_of_text
parse_condition_violation none = none
parse_condition_violation (some text) = index_of_text (after_prefix violation_prefix text)

unfoldable pub violated_command : Bool → ℕ → Option AppendCommand → Option AppendConditionError
violated_command multi_command i none = none
violated_command multi_command i (some cmd) = elim cmd.condition [
  | none ↦ none
  | some condition ↦ some (record {
    append_condition = condition;
    command_index = if multi_command then some i else none;
  })
]

-- `conditionError`; `none` is a panic, at an index out of range or a nil condition.
unfoldable pub condition_error : List AppendCommand → ℤ → Option AppendConditionError
unfolding violated_command
condition_error commands (negsuc i) = none
condition_error commands (pos i) =
    violated_command (ltb 1 (length commands)) i (get_elem? commands i)

module _ {E : Type 0} where
  unfoldable pub fail_violated : List AppendCommand → ℤ → Result (AppendError E) SequencePosition
  fail_violated commands idx = elim (condition_error commands idx) [
    | none ↦ panic
    | some e ↦ err (rejected (condition_violated e))
  ]

  unfoldable pub position_of : ℤ → Result (AppendError E) SequencePosition
  position_of n = elim (int64_to_position n) [ none ↦ panic | some p ↦ ok p ]

-- A statement whose error ends the function.
abbrev pub and_then :
    {D E A B : Type 0}
    → D × Result E A
    → (A → D → D × Result (AppendError E) B)
    → D × Result (AppendError E) B
and_then (d, ok a) f = f a d
and_then (d, err e) f = (d, err (database_error e))
and_then (d, panic) f = (d, panic)

unfoldable pub copy_rows : List Event → List CopyRow
copy_rows [] = []
copy_rows (ev ∷ events) =
    record {
      copy_type = ev.event_type;
      copy_tags = values ev.tags;
      copy_payload = serialize_payload ev;
    }
    ∷ copy_rows events

-- The slice that `appendViaCopy` makes of all events.
unfoldable pub all_events_of : List AppendCommand → List Event
all_events_of [] = []
all_events_of (cmd ∷ commands) = cmd.events ++ all_events_of commands

module _ {D E : Type 0} (db : Database D E) where
  -- The outcome of the stored procedure.
  unfoldable pub settle_call :
      List AppendCommand → D × Result E ℤ → D × Result (AppendError E) SequencePosition
  settle_call commands (d, ok p) = (d, position_of p)
  settle_call commands (d, panic) = (d, panic)
  settle_call commands (d, err e) = elim (parse_condition_violation (db.message e)) [
    | some idx ↦ (d, fail_violated commands idx)
    | none ↦ (d, err (database_error e))
  ]

  unfoldable pub append_via_function :
      List AppendCommand → WriterLockKeys → D → D × Result (AppendError E) SequencePosition
  unfolding settle_call
  append_via_function commands keys d = elim (serialize_conditions commands) [
    | none ↦ (d, panic)
    | some rows ↦ settle_call commands (db.call_append keys (serialize_events commands) rows d)
  ]

  -- `checkConditions` in the transaction: no call if no condition gives a row.
  unfoldable pub check_in_tx : List ConditionRow → ℤ → D → D × Result E (Option ℤ)
  check_in_tx [] hwm d = (d, ok none)
  check_in_tx (row ∷ rows) hwm d = db.call_check (row ∷ rows) hwm d

  -- From the COPY on.
  unfoldable pub copy_events : List AppendCommand → D → D × Result (AppendError E) SequencePosition
  copy_events commands d = and_then (db.copy_from (copy_rows (all_events_of commands)) d) (λ _ d.
      and_then (db.current_value d) (λ p d.
        and_then (db.notify (format_int p) d)
          (λ _ d. and_then (db.commit d) (λ _ d. (d, position_of p)))))

  unfoldable pub unless_violated :
      List AppendCommand → Option ℤ → D → D × Result (AppendError E) SequencePosition
  unfolding copy_events
  unless_violated commands (some idx) d = (d, fail_violated commands idx)
  unless_violated commands none d = copy_events commands d

  -- From `checkConditions` on, whose serialization may panic.
  unfoldable pub check_and_copy :
      List AppendCommand
      → ℤ
      → Option (List ConditionRow)
      → D
      → D × Result (AppendError E) SequencePosition
  unfolding check_in_tx unless_violated
  check_and_copy commands hwm none d = (d, panic)
  check_and_copy commands hwm (some rows) d =
      and_then (check_in_tx rows hwm d) (unless_violated commands)

  unfoldable pub in_tx :
      List AppendCommand → WriterLockKeys → D → D × Result (AppendError E) SequencePosition
  unfolding check_and_copy
  in_tx commands keys d = and_then (db.acquire_locks keys d) (λ _ d.
      and_then (db.last_value d)
        (λ hwm d. check_and_copy commands hwm (serialize_conditions commands) d))

  -- The deferred `Rollback`, which runs on every way out.
  unfoldable pub append_via_copy :
      List AppendCommand → WriterLockKeys → D → D × Result (AppendError E) SequencePosition
  unfolding in_tx
  append_via_copy commands keys d =
      and_then (db.begin_tx d) (λ _ d. let (d', r) = in_tx commands keys d in (db.rollback d', r))

  unfoldable pub route : ℕ → List AppendCommand → D → D × Result (AppendError E) SequencePosition
  unfolding append_via_function append_via_copy
  route copy_threshold commands d =
      if leb (total_events commands) copy_threshold
      then append_via_function commands (collect_keys commands [] []) d
      else append_via_copy commands (collect_keys commands [] []) d

  unfoldable pub append : ℕ → List AppendCommand → D → D × Result (AppendError E) SequencePosition
  unfolding route
  append copy_threshold commands d = elim (validate_commands commands) [
    | some e ↦ (d, err (rejected (scope_error e)))
    | none ↦
        if total_events commands == 0
        then (d, err (rejected zero_events))
        else route copy_threshold commands d
  ]
