-- ===== src/Memory/Store/Append.antt =====
-- `Append` of the memory store does what an append promises: it is atomic, its conditions look at
-- the events stored before the call, and the new events are numbered on from the last one.
use dcb_event_store_pg_go.Base.{
  ℕ, suc, ◌+◌, ◌%◌, ◌<◌, ◌≡◌, refl, sym, ap, Bool, List, [], ◌∷◌, ◌++◌, append-nil, append_assoc,
  Option, none, some, arith, length, length-append, Result, ok, err, Option-cases, inl, inr,
}
use dcb_event_store_pg_go.EventStore.Condition.{
  AppendCommand, StoreError, condition_violated, AppendConditionError,
}
use dcb_event_store_pg_go.EventStore.Decimal.{u64_mod}
use dcb_event_store_pg_go.EventStore.Event.{Event, SequencedEvent}
use dcb_event_store_pg_go.Memory.Position.{position_from_counter_lem}
use dcb_event_store_pg_go.Memory.Store.{violation, number_events, build_events}

-- The events of a batch, in order.
abbrev pub batch_events : List AppendCommand → List Event
batch_events [] = []
batch_events (cmd ∷ commands) = cmd.events ++ batch_events commands

-- The events at the positions that follow `n`, one each.
abbrev pub numbered : ℕ → List Event → List SequencedEvent
numbered n [] = []
numbered n (ev ∷ events) =
    record { event = ev; position = record { value = n + 1 } } ∷ numbered (n + 1) events

-- The first command, from index `i` on, whose condition the stored events violate.
abbrev pub first_violation :
    List SequencedEvent → Bool → ℕ → List AppendCommand → Option AppendConditionError
first_violation existing multi_command i [] = none
first_violation existing multi_command i (cmd ∷ commands) =
    elim (violation existing multi_command i cmd.condition) [
      | some e ↦ some e
      | none ↦ first_violation existing multi_command (suc i) commands
    ]

shift_zero : (n : ℕ) → n + 0 ≡ n
shift_zero n = omega arith

shift_suc : (n k : ℕ) → n + 1 + k ≡ n + suc k
shift_suc n k = omega arith

numbered-append :
    (n : ℕ) (xs ys : List Event)
    → numbered n (xs ++ ys) ≡ numbered n xs ++ numbered (n + length xs) ys
numbered-append n [] ys = rw (shift_zero n)
numbered-append n (x ∷ xs) ys = rw (numbered-append (n + 1) xs ys, shift_suc n (length xs))

number_events_lem :
    (events : List Event) (counter : ℕ) (new_events : List SequencedEvent)
    → counter + length events < u64_mod
    → number_events events counter new_events
      ≡ ok (counter + length events, new_events ++ numbered counter events)
unfolding number_events
number_events_lem [] counter new_events h = rw (append-nil, shift_zero counter)
number_events_lem (ev ∷ events) counter new_events h =
    let e : (counter + 1) % u64_mod ≡ counter + 1 = omega arith in
    rw
      (
        e,
        position_from_counter_lem (counter + 1) (omega arith),
        number_events_lem events (counter + 1) _ (omega arith),
        append_assoc,
      )
      (rw (shift_suc counter (length events)))

-- What the check of a batch leads to.
abbrev pub outcome {ℓ} : {A : Type ℓ} → Option AppendConditionError → A → Result StoreError A
outcome none a = ok a
outcome (some e) a = err (condition_violated e)

pub build_events_lem :
    (existing : List SequencedEvent) (multi : Bool) (i : ℕ) (commands : List AppendCommand)
    (counter : ℕ) (new_events : List SequencedEvent)
    → counter + length (batch_events commands) < u64_mod
    → build_events existing multi i commands counter new_events
      ≡ outcome
          (first_violation existing multi i commands)
          (new_events ++ numbered counter (batch_events commands))
unfolding build_events
build_events_lem existing multi i [] counter new_events h = ap ok (sym (append-nil new_events))
build_events_lem existing multi i (cmd ∷ commands) counter new_events h =
    elim (Option-cases (violation existing multi i cmd.condition)) [
      | inr (e, p) ↦ rw (p, build_events, first_violation)
      | inl p ↦
          rw
            (
              p,
              build_events,
              first_violation,
              number_events_lem cmd.events counter new_events
                  (omega (arith, length-append cmd.events (batch_events commands))),
              build_events_lem existing multi (suc i) commands (counter + length cmd.events) _
                  (omega (arith, length-append cmd.events (batch_events commands))),
              numbered-append,
              append_assoc,
            )
            refl
    ]
