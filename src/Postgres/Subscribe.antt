-- ===== src/Postgres/Subscribe.antt =====
-- postgres/subscribe.go, over the interface of a read and one to the listening connection. The state
-- `D` holds all that goes on outside the iterator; it may change at every call.
pub mod Delivery
pub mod Draining
pub mod Arrival
use dcb_event_store_pg_go.Base.{
  ℕ, zero, suc, Bool, true, false, List, [], ◌∷◌, Option, none, some, Bytes, if◌then◌else◌, ◌||◌,
  is_some, ℤ, pos, is_positive, Result, ok, err, panic,
}
use dcb_event_store_pg_go.EventStore.Condition.{ReadOptions}
use dcb_event_store_pg_go.EventStore.Event.{SequencedEvent}
use dcb_event_store_pg_go.EventStore.Iterator.{collect}
use dcb_event_store_pg_go.EventStore.Position.{SequencePosition, sequence_position_initial}
use dcb_event_store_pg_go.EventStore.Query.{Query}
use dcb_event_store_pg_go.Postgres.Cursor.{Connection, CursorIterator, cursor_iterator}
use dcb_event_store_pg_go.Postgres.Read.{Pool, read, or_else}

-- How `WaitForNotification` ends: with a notification, with the end of the poll interval, or with
-- another error.
pub data Waited (E : Type 0) : Type 0 where
  notified elapsed : Waited E
  broken : E → Waited E

-- What the iterator calls of its context and its connection. `ended` is whether `ctx.Err()` is not nil.
pub record Listener (D E : Type 0) : Type 0 where
  pub ended : D → D × Bool
  pub listen : D → D × Result E (Unit {0})
  pub wait : ℤ → D → D × Waited E
  pub unlisten : D → D

pub record SubscribeIterator (D E : Type 0) : Type 0 where
  pub outside : D
  pub query : Query
  pub position : SequencePosition
  pub poll_interval : ℤ
  pub pending : List SequencedEvent
  pub current : Option SequencedEvent
  pub error : Option E
  pub closed : Bool

-- The result of one pass of the loop in `Next`.
pub data Pass (D E : Type 0) : Type 0 where
  return_ : Bool → SubscribeIterator D E → Pass D E
  again : SubscribeIterator D E → Pass D E

-- 100 milliseconds.
abbrev pub default_poll_interval : ℤ
default_poll_interval = pos 100000000

module _ {D E : Type 0} (pool : Pool D E) (server : Connection D E) (listener : Listener D E)
    (table_name : Bytes) where
  -- `Subscribe`.
  unfoldable pub subscribe :
      Query → Option SequencePosition → ℤ → D → D × Result E (SubscribeIterator D E)
  subscribe query after poll_interval d =
      or_else (pool.acquire d) (λ d. d)
        (λ _ d. or_else (listener.listen d) pool.release (λ _ d. (
          d,
          ok (record {
            outside = d;
            query = query;
            position = elim after [ none ↦ sequence_position_initial | some p ↦ p ];
            poll_interval =
                if is_positive poll_interval then poll_interval else default_poll_interval;
            pending = [];
            current = none;
            error = none;
            closed = false;
          }),
        )))

  -- What `Collect` returns.
  abbrev pub collected :
      List SequencedEvent × Option E × CursorIterator D E → D × Result E (List SequencedEvent)
  collected (events, none, it) = (it.conn, ok events)
  collected (events, some e, it) = (it.conn, err e)

  -- `Collect` of what `Read` returned, with fuel for the calls of `Next`.
  unfoldable pub collect_read :
      ℕ → D × Result E (CursorIterator D E) → Option (D × Result E (List SequencedEvent))
  collect_read fuel (d, ok it) = elim (collect (cursor_iterator server) fuel it) [
    | none ↦ none
    | some r ↦ some (collected r)
  ]
  collect_read fuel (d, err e) = some (d, err e)
  collect_read fuel (d, panic) = none

  -- `drain`; `none` is a panic, or fuel that ran out.
  unfoldable pub drain :
      ℕ → Query → SequencePosition → D → Option (D × Result E (List SequencedEvent))
  unfolding collect_read
  drain fuel query position d = collect_read fuel (
      read pool table_name query
        (record { backwards = false; after = some position; limit = pos 0 }) d)

  -- The end of a pass with an error, which is no error if the context has ended.
  unfoldable pub fail : E → SubscribeIterator D E → Pass D E
  fail e it =
      let (d, over) = listener.ended it.outside in
      if over
      then return_ false (record it { outside = d })
      else return_ false (record it { outside = d; error = some e })

  unfoldable pub waited : SubscribeIterator D E → D × Waited E → Pass D E
  unfolding fail
  waited it (d, notified) = again (record it { outside = d })
  waited it (d, elapsed) =
      let (d', over) = listener.ended d in
      if over
      then return_ false (record it { outside = d' })
      else again (record it { outside = d' })
  waited it (d, broken e) = fail e (record it { outside = d })

  unfoldable pub drained :
      SubscribeIterator D E → D × Result E (List SequencedEvent) → Option (Pass D E)
  unfolding waited
  drained it (d, err e) = some (fail e (record it { outside = d }))
  drained it (d, panic) = none
  drained it (d, ok []) =
      some (waited (record it { outside = d }) (listener.wait it.poll_interval d))
  drained it (d, ok (se ∷ events)) = some (again (record it { outside = d; pending = se ∷ events }))

  -- One pass of the loop.
  unfoldable pub pass_from : ℕ → List SequencedEvent → SubscribeIterator D E → Option (Pass D E)
  unfolding drain drained
  pass_from fuel (se ∷ events) it =
      some
        (return_ true (record it { current = some se; pending = events; position = se.position }))
  pass_from fuel [] it =
      let (d, over) = listener.ended it.outside in
      if over
      then some (return_ false (record it { outside = d }))
      else elim (drain fuel it.query it.position d) [ none ↦ none | some r ↦ drained it r ]

  -- The loop, with fuel for its passes.
  unfoldable pub loop : ℕ → ℕ → SubscribeIterator D E → Option (Bool × SubscribeIterator D E)
  unfolding pass_from
  loop fuel zero it = none
  loop fuel (suc n) it = elim (pass_from fuel it.pending it) [
    | none ↦ none
    | some (return_ more it') ↦ some (more, it')
    | some (again it') ↦ loop fuel n it'
  ]

  unfoldable pub next : ℕ → ℕ → SubscribeIterator D E → Option (Bool × SubscribeIterator D E)
  unfolding loop
  next fuel n it = if is_some it.error || it.closed then some (false, it) else loop fuel n it

  unfoldable pub close : SubscribeIterator D E → SubscribeIterator D E
  close it =
      if it.closed
      then it
      else record it { closed = true; outside = pool.release (listener.unlisten it.outside) }
