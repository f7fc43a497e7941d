-- ===== src/Memory/Store/Contract.antt =====
-- The promises of `Append` for the memory store, from its equation with a specification that first
-- checks and then stores.
use dcb_event_store_pg_go.Base.{
  ℕ, suc, ◌+◌, ◌<◌, ◌≡◌, refl, inl, inr, false, List, [], ◌∷◌, ◌++◌, Option, none, some, arith, ltb,
  ◌==◌, ==_iff, any_sound, length, Result, ok, err, Option-cases, Bool-cases, Memᴰ,
}
use dcb_event_store_pg_go.EventStore.Condition.{
  AppendCommand, ScopeError, StoreError, scope_error, zero_events, condition_violated,
  AppendConditionError,
}
use dcb_event_store_pg_go.EventStore.Decimal.{u64_mod}
use dcb_event_store_pg_go.EventStore.Event.{SequencedEvent}
use dcb_event_store_pg_go.EventStore.Position.{SequencePosition, Fits}
use dcb_event_store_pg_go.Memory.Order.{Ascending}
use dcb_event_store_pg_go.Memory.Position.{last_from, last_position, counter_from_lem}
use dcb_event_store_pg_go.Memory.Store.{
  Store, validate_commands, commit, settle, append_locked, append, is_closed,
}
use dcb_event_store_pg_go.Memory.Store.Append.{
  batch_events, numbered, first_violation, outcome, build_events_lem,
}

-- What holds of a store between calls. Every channel but the current one is closed.
pub record IsValid (s : Store) : Type 0 where
  pub ascending : Ascending s.events
  pub fits : Fits (last_position s.events)
  pub older : (ch : ℕ) → Memᴰ ch s.closed → ch < s.broadcast
  pub current : s.made ≡ suc s.broadcast

-- The positions that a batch takes fit 64 bits.
abbrev pub HasRoom : Store → List AppendCommand → Type 0
HasRoom s commands = (last_position s.events).value + length (batch_events commands) < u64_mod

-- The store with new events behind the others and the waiting readers woken.
abbrev pub stored : Store → List SequencedEvent → Store
stored s new_events = record s {
  events = s.events ++ new_events;
  broadcast = s.made;
  made = s.made + 1;
  closed = s.broadcast ∷ s.closed;
}

abbrev pub accept : Store → List SequencedEvent → Store × Result StoreError SequencePosition
accept s [] = (s, err zero_events)
accept s (se ∷ new_events) = (stored s (se ∷ new_events), ok (last_from se.position new_events))

abbrev pub decide :
    Store
    → List SequencedEvent
    → Option ScopeError
    → Option AppendConditionError
    → Store × Result StoreError SequencePosition
decide s new_events (some e) v = (s, err (scope_error e))
decide s new_events none (some e) = (s, err (condition_violated e))
decide s new_events none none = accept s new_events

-- The specification: all checks are made on the state before the call, then all events are stored.
abbrev pub append_spec : List AppendCommand → Store → Store × Result StoreError SequencePosition
append_spec commands s =
    decide s (numbered (last_position s.events).value (batch_events commands))
      (validate_commands commands) (first_violation s.events (ltb 1 (length commands)) 0 commands)

open_channel : (s : Store) → IsValid s → is_closed s s.broadcast ≡ false
open_channel s v = elim (Bool-cases (is_closed s s.broadcast)) [
  | inl e ↦
      let (ch, m, h) = any_sound (λ c. s.broadcast == c) s.closed e in
      absurd (omega (arith, v.older ch m, (==_iff s.broadcast ch).0 h))
  | inr e ↦ e
]

commit-accept :
    (s : Store) (new_events : List SequencedEvent)
    → IsValid s
    → commit s new_events ≡ accept s new_events
unfolding commit
commit-accept s [] v = refl
commit-accept s (se ∷ new_events) v = rw (open_channel s v, commit) refl

append_locked-decide :
    (s : Store) (commands : List AppendCommand)
    → IsValid s
    → HasRoom s commands
    → append_locked commands s
      ≡ decide s
          (numbered (last_position s.events).value (batch_events commands))
          none
          (first_violation s.events (ltb 1 (length commands)) 0 commands)
unfolding append_locked
append_locked-decide s commands v room =
    rw
      (
        counter_from_lem (last_position s.events) v.fits,
        build_events_lem s.events (ltb 1 (length commands)) 0 commands
            (last_position s.events).value [] room,
      )
      (settled (first_violation s.events (ltb 1 (length commands)) 0 commands))
  where
    new_events : List SequencedEvent
    new_events = numbered (last_position s.events).value (batch_events commands)

    settled :
        (v : Option AppendConditionError)
        → settle s (outcome v new_events) ≡ decide s new_events none v
    settled none = commit-accept s new_events v
    settled (some e) = refl

-- A call whose context is alive is the specification: on a valid store with room for the batch,
-- `Append` interleaves checks and numbering with the same state, result and error.
pub append-append_spec :
    (s : Store) (commands : List AppendCommand)
    → IsValid s
    → HasRoom s commands
    → append none commands s ≡ append_spec commands s
unfolding append
append-append_spec s commands v room = elim (Option-cases (validate_commands commands)) [
  | inl e ↦ rw (e, append) (append_locked-decide s commands v room)
  | inr (e, p) ↦ rw (p, append)
]
