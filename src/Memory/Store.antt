-- ===== src/Memory/Store.antt =====
-- memory/store.go. The mutex makes each method one step on the state. A channel is its number in
-- the order of `make`; `made` counts them and `closed` lists the closed ones.
pub mod Append
pub mod Contract
pub mod Violations
pub mod Promises
use dcb_event_store_pg_go.Base.{
  ℕ, suc, ◌+◌, ◌%◌, ◌<◌, ◌≡◌, Bool, true, false, List, [], ◌∷◌, ◌++◌, Option, none, some,
  if◌then◌else◌, ltb, ◌==◌, any, length, Result, ok, err, panic, ◌>>=◌,
}
use dcb_event_store_pg_go.EventStore.Condition.{
  AppendCondition, AppendCommand, ScopeError, StoreError, scope_error, context_error, zero_events,
  condition_violated, ContextError, AppendConditionError, ReadOptions, validate_append_condition,
}
use dcb_event_store_pg_go.EventStore.Decimal.{u64_mod}
use dcb_event_store_pg_go.EventStore.Event.{Event, SequencedEvent}
use dcb_event_store_pg_go.EventStore.Position.{SequencePosition, sequence_position_initial}
use dcb_event_store_pg_go.EventStore.Query.{Query}
use dcb_event_store_pg_go.Memory.Matching.{any_match_after, matching_events}
use dcb_event_store_pg_go.Memory.Position.{
  last_from, last_position, counter_from, position_from_counter,
}

pub record Store : Type 0 where
  pub events : List SequencedEvent
  pub broadcast : ℕ
  pub made : ℕ
  pub closed : List ℕ

-- `New`.
abbrev pub new : List SequencedEvent → Store
new initial_events = record { events = initial_events; broadcast = 0; made = 1; closed = [] }

abbrev pub is_closed : Store → ℕ → Bool
is_closed s ch = any (λ c. ch == c) s.closed

-- The validation of one command; the scope error of its condition, if it has one.
unfoldable pub scope_of : Option AppendCondition → Option ScopeError
scope_of none = none
scope_of (some condition) = validate_append_condition condition

-- The first loop of `Append`.
unfoldable pub validate_commands : List AppendCommand → Option ScopeError
unfolding scope_of
validate_commands [] = none
validate_commands (cmd ∷ commands) = elim (scope_of cmd.condition) [
  | some e ↦ some e
  | none ↦ validate_commands commands
]

-- The check of one command's condition against the events stored before the call.
unfoldable pub violation :
    List SequencedEvent → Bool → ℕ → Option AppendCondition → Option AppendConditionError
violation existing multi_command i none = none
violation existing multi_command i (some condition) =
    if any_match_after existing condition.fail_if_events_match condition.after
    then some (record {
      append_condition = condition;
      command_index = if multi_command then some i else none;
    })
    else none

-- The inner loop: `counter++` wraps around at 64 bits.
unfoldable pub number_events :
    List Event → ℕ → List SequencedEvent → Result StoreError (ℕ × List SequencedEvent)
number_events [] counter new_events = ok (counter, new_events)
number_events (ev ∷ events) counter new_events = do
  position ← position_from_counter ((counter + 1) % u64_mod)
  number_events events ((counter + 1) % u64_mod)
      (new_events ++ record { event = ev; position = position } ∷ [])

-- The second loop: each command is checked, then its events are numbered.
unfoldable pub build_events :
    List SequencedEvent
    → Bool
    → ℕ
    → List AppendCommand
    → ℕ
    → List SequencedEvent
    → Result StoreError (List SequencedEvent)
build_events existing multi_command i [] counter new_events = ok new_events
build_events existing multi_command i (cmd ∷ commands) counter new_events =
    elim (violation existing multi_command i cmd.condition) [
      | some e ↦ err (condition_violated e)
      | none ↦ do
        (counter', new_events') ← number_events cmd.events counter new_events
        build_events existing multi_command (suc i) commands counter' new_events'
    ]

-- `close(s.broadcast)`, which panics on a closed channel, and the assignment of a new channel.
unfoldable pub wake : Store → Result StoreError Store
wake s =
    if is_closed s s.broadcast
    then panic
    else ok (record s { broadcast = s.made; made = s.made + 1; closed = s.broadcast ∷ s.closed })

-- The end of `Append`, from the test for zero events on.
unfoldable pub commit : Store → List SequencedEvent → Store × Result StoreError SequencePosition
unfolding wake
commit s [] = (s, err zero_events)
commit s (se ∷ new_events) =
    let s' : Store = record s { events = s.events ++ se ∷ new_events } in
    elim (wake s') [
      | ok s'' ↦ (s'', ok (last_from se.position new_events))
      | err e ↦ (s', err e)
      | panic ↦ (s', panic)
    ]

-- What the locked part of `Append` does with the outcome of its loop.
unfoldable pub settle :
    Store → Result StoreError (List SequencedEvent) → Store × Result StoreError SequencePosition
settle s (ok new_events) = commit s new_events
settle s (err e) = (s, err e)
settle s panic = (s, panic)

unfoldable pub append_locked :
    List AppendCommand → Store → Store × Result StoreError SequencePosition
unfolding settle
append_locked commands s = settle s (do
  counter ← counter_from (last_position s.events)
  build_events s.events (ltb 1 (length commands)) 0 commands counter [])

-- `ctx` is what `ctx.Err()` returns at the start of the call.
unfoldable pub append :
    Option ContextError → List AppendCommand → Store → Store × Result StoreError SequencePosition
append (some e) commands s = (s, err (context_error e))
append none commands s = elim (validate_commands commands) [
  | some e ↦ (s, err (scope_error e))
  | none ↦ append_locked commands s
]

-- The events that the iterator of `Read` holds.
unfoldable pub read :
    Option ContextError → Query → ReadOptions → Store → Result StoreError (List SequencedEvent)
read (some e) query opts s = err (context_error e)
read none query opts s = ok (matching_events s.events query opts)
