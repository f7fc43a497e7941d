-- ===== src/Memory/Store/Promises.antt =====
-- What a client of `Append` can rely on.
use dcb_event_store_pg_go.Base.{
  ℕ, ◌+◌, ◌<◌, ◌≡◌, ◌≢◌, refl, ◌↔◌, ◌⊎◌, inl, inr, List, [], ◌∷◌, ◌++◌, Option, none, some, arith,
  ltb, length, ok, err, Memᴰ,
}
use dcb_event_store_pg_go.Base.Memᴰ
use dcb_event_store_pg_go.EventStore.Condition.{
  AppendCommand, ScopeError, condition_violated, AppendConditionError,
}
use dcb_event_store_pg_go.EventStore.Decimal.{u64_mod}
use dcb_event_store_pg_go.EventStore.Event.{Event, SequencedEvent}
use dcb_event_store_pg_go.EventStore.Position.{SequencePosition, sequence_position_initial}
use dcb_event_store_pg_go.Memory.Order.{Above, Ascending-append_last}
use dcb_event_store_pg_go.Memory.Position.{last_from, last_position}
use dcb_event_store_pg_go.Memory.Store.{Store, validate_commands, append}
use dcb_event_store_pg_go.Memory.Store.Append.{batch_events, numbered, first_violation}
use dcb_event_store_pg_go.Memory.Store.Contract.{
  IsValid, HasRoom, stored, decide, append-append_spec,
}
use dcb_event_store_pg_go.Memory.Store.Violations.{
  AllAllowed, FirstViolation, first_violation_iff, first_violation_sound,
}

-- Where the numbers end.
last_from-numbered :
    (p : SequencePosition) (events : List Event)
    → (last_from p (numbered p.value events)).value ≡ p.value + length events
last_from-numbered p [] = omega arith
last_from-numbered p (ev ∷ events) =
    omega (arith, last_from-numbered (record { value = p.value + 1 }) events)

pub numbered-Above : (n : ℕ) (events : List Event) → Above n (numbered n events)
numbered-Above n [] = tt
numbered-Above n (ev ∷ events) = (omega arith, numbered-Above (n + 1) events)

last_from-append :
    (p : SequencePosition) (xs ys : List SequencedEvent)
    → last_from p (xs ++ ys) ≡ last_from (last_from p xs) ys
last_from-append p [] ys = refl
last_from-append p (x ∷ xs) ys = last_from-append x.position xs ys

module _ (s : Store) where
  -- The positions that new events take.
  abbrev next_events : List Event → List SequencedEvent
  next_events events = numbered (last_position s.events).value events

  decide_success :
      (events : List Event) (scope : Option ScopeError) (violated : Option AppendConditionError)
      (p : SequencePosition)
      → ((decide s (next_events events) scope violated).1 ≡ ok p) ↔ (
          (scope ≡ none)
          × (violated ≡ none)
          × (events ≢ [])
          × (p.value ≡ (last_position s.events).value + length events))
  decide_success events (some e) violated p =
      (λ h. absurd (ground arith), λ h. absurd (ground arith))
  decide_success events none (some e) p = (λ h. absurd (ground arith), λ h. absurd (ground arith))
  decide_success [] none none p = (λ h. absurd (ground arith), λ h. absurd (h.2 refl))
  decide_success (ev ∷ events) none none p = (
    λ h. (
      refl,
      refl,
      (λ e. cc),
      ground (arith, last_from-numbered (last_position s.events) (ev ∷ events)),
    ),
    λ h. ground (arith, last_from-numbered (last_position s.events) (ev ∷ events)),
  )

  decide_violated :
      (events : List Event) (scope : Option ScopeError) (violated : Option AppendConditionError)
      (e : AppendConditionError)
      → (decide s (next_events events) scope violated).1 ≡ err (condition_violated e)
      → violated ≡ some e
  decide_violated events (some x) violated e h = absurd (ground arith)
  decide_violated events none (some x) e h = ground arith
  decide_violated [] none none e h = absurd (ground arith)
  decide_violated (ev ∷ events) none none e h = absurd (ground arith)

  decide_atomic :
      (events : List Event) (scope : Option ScopeError) (violated : Option AppendConditionError)
      → (((decide s (next_events events) scope violated).0 ≡ s)
          × ((p : SequencePosition) → (decide s (next_events events) scope violated).1 ≢ ok p))
        ⊎ ((p : SequencePosition) × ((decide s (next_events events) scope violated).1 ≡ ok p)
            × ((decide s (next_events events) scope violated).0 ≡ stored s (next_events events)))
  decide_atomic events (some e) violated = inl (refl, (λ p h. ground arith))
  decide_atomic events none (some e) = inl (refl, (λ p h. ground arith))
  decide_atomic [] none none = inl (refl, (λ p h. ground arith))
  decide_atomic (ev ∷ events) none none = inr (_, refl, refl)

  stored-IsValid :
      (events : List Event)
      → IsValid s
      → (last_position s.events).value + length events < u64_mod
      → IsValid (stored s (next_events events))
  unfolding last_position
  stored-IsValid events v room = record {
    ascending =
        Ascending-append_last s.events (next_events events) v.ascending (numbered-Above _ events);
    fits =
        rw (last_from-append sequence_position_initial s.events (next_events events))
          (omega (arith, last_from-numbered (last_position s.events) events));
    older = λ ch m. grows (Memᴰ.cases_cons m);
    current = omega (arith, v.current);
  }
    where
      grows : {ch : ℕ} → (ch ≡ s.broadcast) ⊎ Memᴰ ch s.closed → ch < s.made
      grows (inl e) = omega (arith, v.current)
      grows {ch} (inr m) = omega (arith, v.current, v.older ch m)

  decide-IsValid :
      (events : List Event) (scope : Option ScopeError) (violated : Option AppendConditionError)
      → IsValid s
      → (last_position s.events).value + length events < u64_mod
      → IsValid (decide s (next_events events) scope violated).0
  decide-IsValid events (some e) violated v room = v
  decide-IsValid events none (some e) v room = v
  decide-IsValid [] none none v room = v
  decide-IsValid (ev ∷ events) none none v room = stored-IsValid (ev ∷ events) v room

module _ (s : Store) (commands : List AppendCommand) (valid : IsValid s)
    (room : HasRoom s commands) where
  -- On a valid store with room for the batch, and a live context, `Append` returns a position exactly if every condition is scoped, no event stored before the
  -- call violates a condition, and the batch has an event. The position is as far behind the last
  -- one as the batch has events.
  pub append_success_iff :
      (p : SequencePosition)
      → ((append none commands s).1 ≡ ok p) ↔ (
          (validate_commands commands ≡ none)
          × AllAllowed s.events commands
          × (batch_events commands ≢ [])
          × (p.value ≡ (last_position s.events).value + length (batch_events commands)))
  append_success_iff p =
      let multi = ltb 1 (length commands) in
      let (sound, complete) =
        decide_success s (batch_events commands) (validate_commands commands)
          (first_violation s.events multi 0 commands) p in
      let (allowed, clear) = first_violation_iff s.events multi 0 commands in
      rw (append-append_spec s commands valid room) (
        λ h. let (a, b, c, d) = sound h in (a, allowed b, c, d),
        λ h. complete (h.0, clear h.1, h.2, h.3),
      )

  -- On a valid store with room for the batch, and a live context: a call that returns no position leaves the store as it was. A call that returns one stores the
  -- whole batch behind the old events, and closes the current channel for a new one.
  pub append_atomic :
      (((append none commands s).0 ≡ s)
        × ((p : SequencePosition) → (append none commands s).1 ≢ ok p))
      ⊎ ((p : SequencePosition) × ((append none commands s).1 ≡ ok p)
          × ((append none commands s).0
              ≡ stored s (numbered (last_position s.events).value (batch_events commands))))
  append_atomic = rw (append-append_spec s commands valid room) (
      decide_atomic s (batch_events commands) (validate_commands commands)
        (first_violation s.events (ltb 1 (length commands)) 0 commands))

  -- On a store with room for the batch, and with a live context, `Append` keeps the store valid: positions ascend and fit 64 bits, and the current channel is open.
  pub append-IsValid : IsValid (append none commands s).0
  append-IsValid = rw (append-append_spec s commands valid room) (
      decide-IsValid s (batch_events commands) (validate_commands commands)
        (first_violation s.events (ltb 1 (length commands)) 0 commands) valid room)

  -- On a valid store with room for the batch, a violation that `Append` reports is that of the first command whose condition a stored event
  -- violates; the error names its index if the batch has several commands, and none if it has one.
  pub append_violation :
      (e : AppendConditionError)
      → (append none commands s).1 ≡ err (condition_violated e)
      → FirstViolation s.events (ltb 1 (length commands)) 0 commands e
  append_violation e h = first_violation_sound s.events (ltb 1 (length commands)) 0 commands (
      decide_violated s (batch_events commands) (validate_commands commands) _ e
        (rw (append-append_spec s commands valid room) at h))
