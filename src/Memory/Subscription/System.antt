-- ===== src/Memory/Subscription/System.antt =====
-- A subscriber and the appends of other goroutines, as interleaved steps. Each step is what one
-- goroutine does between two points where it holds or asks for the store's lock.
use dcb_event_store_pg_go.Base.{ℕ, ◌≡◌, Bool, true, false, List, [], ◌∷◌, ◌++◌, Option, none, some}
use dcb_event_store_pg_go.EventStore.Condition.{AppendCommand, ContextError}
use dcb_event_store_pg_go.EventStore.Event.{SequencedEvent}
use dcb_event_store_pg_go.EventStore.Position.{SequencePosition}
use dcb_event_store_pg_go.EventStore.Query.{Query}
use dcb_event_store_pg_go.Memory.Store.{Store, append, is_closed}
use dcb_event_store_pg_go.Memory.Store.Contract.{HasRoom}
use dcb_event_store_pg_go.Memory.Subscription.{
  SubscribeIterator, deliver, again, wait, round, start_position,
}

-- Where the subscriber stands: outside `Next`, at the head of its loop, or in its `select`.
pub data Phase : Type 0 where
  idle looping : Phase
  waiting : ℕ → Phase

-- `delivered` is what `Event` returned after each call of `Next` that returned true.
pub record System : Type 0 where
  pub store : Store
  pub it : SubscribeIterator
  pub phase : Phase
  pub canceled : Bool
  pub delivered : List SequencedEvent

pub data Step : System → System → Type 0 where
  call : (t : System) → t.phase ≡ idle → Step t (record t { phase = looping })
  returned :
      (t : System) (it : SubscribeIterator) (se : SequencedEvent)
      → t.phase ≡ looping
      → round t.store t.it ≡ deliver it
      → it.current ≡ some se
      → Step t (record t { it = it; phase = idle; delivered = t.delivered ++ se ∷ [] })
  refilled :
      (t : System) (it : SubscribeIterator)
      → t.phase ≡ looping
      → round t.store t.it ≡ again it
      → Step t (record t { it = it })
  blocked :
      (t : System) (ch : ℕ)
      → t.phase ≡ looping
      → round t.store t.it ≡ wait ch
      → Step t (record t { phase = waiting ch })
  woken :
      (t : System) (ch : ℕ)
      → t.phase ≡ waiting ch
      → is_closed t.store ch ≡ true
      → Step t (record t { phase = looping })
  stopped :
      (t : System) (ch : ℕ)
      → t.phase ≡ waiting ch
      → t.canceled ≡ true
      → Step t (record t { phase = idle })
  cancel : (t : System) → Step t (record t { canceled = true })
  appended :
      (t : System) (ctx : Option ContextError) (commands : List AppendCommand)
      → HasRoom t.store commands
      → Step t (record t { store = (append ctx commands t.store).0 })

pub data Reach (s : System) : System → Type 0 where
  here : Reach s s
  next : {t u : System} → Reach s t → Step t u → Reach s u

-- Right after `Subscribe`.
abbrev pub start_system : Store → Query → Option SequencePosition → System
start_system s query after = record {
  store = s;
  it = record { query = query; position = start_position after; pending = []; current = none };
  phase = idle;
  canceled = false;
  delivered = [];
}
