-- ===== src/Memory/Subscription.antt =====
-- `Subscribe` of memory/store.go and `subscribeIterator` of memory/iterator.go. The iterator's own
-- fields are a record; the store that it points to is passed beside it.
pub mod Undelivered
pub mod System
pub mod Invariant
pub mod Delivery
use dcb_event_store_pg_go.Base.{
  ℕ, Bool, true, false, List, [], ◌∷◌, Option, none, some, Result, ok, err, pos,
}
use dcb_event_store_pg_go.EventStore.Condition.{
  StoreError, context_error, ContextError, ReadOptions,
}
use dcb_event_store_pg_go.EventStore.Event.{SequencedEvent}
use dcb_event_store_pg_go.EventStore.Position.{SequencePosition, sequence_position_initial}
use dcb_event_store_pg_go.EventStore.Query.{Query}
use dcb_event_store_pg_go.Memory.Matching.{matching_events}
use dcb_event_store_pg_go.Memory.Store.{Store}

-- `current` is `none` before the first event, where the code has the zero event.
pub record SubscribeIterator : Type 0 where
  pub query : Query
  pub position : SequencePosition
  pub pending : List SequencedEvent
  pub current : Option SequencedEvent

abbrev pub start_position : Option SequencePosition → SequencePosition
start_position none = sequence_position_initial
start_position (some p) = p

-- `ctx` is what `ctx.Err()` returns; `after` is the option of that name.
unfoldable pub subscribe :
    Option ContextError → Query → Option SequencePosition → Result StoreError SubscribeIterator
subscribe (some e) query after = err (context_error e)
subscribe none query after =
    ok (record { query = query; position = start_position after; pending = []; current = none })

abbrev pub behind : SequencePosition → ReadOptions
behind p = record { backwards = false; after = some p; limit = pos 0 }

-- What one round of the loop of `Next` does: it returns true, goes round again, or comes to the
-- `select` on a channel.
pub data Round : Type 0 where
  deliver : SubscribeIterator → Round
  again : SubscribeIterator → Round
  wait : ℕ → Round

-- The round where nothing is pending: the events and the channel are read under the lock.
unfoldable pub refill : Store → SubscribeIterator → List SequencedEvent → Round
refill s it [] = wait s.broadcast
refill s it (se ∷ events) = again (record it { pending = se ∷ events })

unfoldable pub round_from : Store → SubscribeIterator → List SequencedEvent → Round
unfolding refill
round_from s it (se ∷ pending) =
    deliver (record it { current = some se; pending = pending; position = se.position })
round_from s it [] = refill s it (matching_events s.events it.query (behind it.position))

unfoldable pub round : Store → SubscribeIterator → Round
unfolding round_from
round s it = round_from s it it.pending
