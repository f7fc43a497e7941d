-- ===== src/Postgres/Append/Batches.antt =====
-- `Append` of postgres/append.go locks, for a batch, every key of each of its commands, so that
-- batches exclude each other as single commands do.
use dcb_event_store_pg_go.Base.{◌≡◌, List, [], ◌∷◌, none, some, ℤ, Memᴰ, inl, inr}
use dcb_event_store_pg_go.EventStore.Condition.{
  AppendCommand, AppendCondition, validate_append_condition,
}
use dcb_event_store_pg_go.EventStore.Event.{Event}
use dcb_event_store_pg_go.EventStore.Query.{Query}
use dcb_event_store_pg_go.Memory.Matching.Meaning.{Matches}
use dcb_event_store_pg_go.Postgres.Append.{add_keys, collect_keys}
use dcb_event_store_pg_go.Postgres.LockKeys.{
  add_key, compute_reader_lock_keys, compute_writer_lock_keys,
}
use dcb_event_store_pg_go.Postgres.LockKeys.Coverage.{Meet, barrier_meets_writer, writers_exclude}
use dcb_event_store_pg_go.Postgres.LockKeys.Sets.{add_key_keeps, mem-add_key}

module _ {k : ℤ} where
  add_keys_keeps : (keys set : List ℤ) → Memᴰ k set → Memᴰ k (add_keys keys set)
  unfolding add_keys
  add_keys_keeps [] set m = m
  add_keys_keeps (j ∷ keys) set m = add_keys_keeps keys _ (add_key_keeps j set m)

  mem-add_keys : (keys set : List ℤ) → Memᴰ k keys → Memᴰ k (add_keys keys set)
  unfolding add_keys
  mem-add_keys [] set m = elim m [ ]
  mem-add_keys (j ∷ keys) set (Memᴰ.head e) =
      add_keys_keeps keys (add_key j set) (rw e (mem-add_key j set))
  mem-add_keys (j ∷ keys) set (Memᴰ.tail m) = mem-add_keys keys _ m

  collect_keys_keeps :
      (commands : List AppendCommand) (leaf intent : List ℤ)
      → Memᴰ k leaf
      → Memᴰ k (collect_keys commands leaf intent).leaf_x
  unfolding collect_keys
  collect_keys_keeps [] leaf intent m = m
  collect_keys_keeps (cmd ∷ commands) leaf intent m =
      collect_keys_keeps commands _ _ (add_keys_keeps _ leaf m)

  mem-collect_keys :
      (commands : List AppendCommand) (leaf intent : List ℤ) {cmd : AppendCommand}
      → Memᴰ cmd commands
      → Memᴰ k (compute_writer_lock_keys cmd.events cmd.condition).leaf_x
      → Memᴰ k (collect_keys commands leaf intent).leaf_x
  unfolding collect_keys
  mem-collect_keys [] leaf intent n m = elim n [ ]
  mem-collect_keys (x ∷ commands) leaf intent (Memᴰ.head e) m =
      collect_keys_keeps commands _ _ (mem-add_keys _ leaf (rw e at m))
  mem-collect_keys (x ∷ commands) leaf intent (Memᴰ.tail n) m = mem-collect_keys commands _ _ n m

module _ {k : ℤ} where
  collect_keys_keeps_intent :
      (commands : List AppendCommand) (leaf intent : List ℤ)
      → Memᴰ k intent
      → Memᴰ k (collect_keys commands leaf intent).intent_s
  unfolding collect_keys
  collect_keys_keeps_intent [] leaf intent m = m
  collect_keys_keeps_intent (cmd ∷ commands) leaf intent m =
      collect_keys_keeps_intent commands _ _ (add_keys_keeps _ intent m)

  mem-collect_keys_intent :
      (commands : List AppendCommand) (leaf intent : List ℤ) {cmd : AppendCommand}
      → Memᴰ cmd commands
      → Memᴰ k (compute_writer_lock_keys cmd.events cmd.condition).intent_s
      → Memᴰ k (collect_keys commands leaf intent).intent_s
  unfolding collect_keys
  mem-collect_keys_intent [] leaf intent n m = elim n [ ]
  mem-collect_keys_intent (x ∷ commands) leaf intent (Memᴰ.head e) m =
      collect_keys_keeps_intent commands _ _ (mem-add_keys _ intent (rw e at m))
  mem-collect_keys_intent (x ∷ commands) leaf intent (Memᴰ.tail n) m =
      mem-collect_keys_intent commands _ _ n m

-- The barrier of a read meets the locks of every batch with an event that matches the query.
pub barrier_meets_batch :
    (query : Query) (commands : List AppendCommand) (cmd : AppendCommand) (ev : Event)
    → Memᴰ cmd commands
    → Memᴰ ev cmd.events
    → Matches query ev
    → Meet (compute_reader_lock_keys query) (collect_keys commands [] [])
barrier_meets_batch query commands cmd ev m n h =
    lifted (barrier_meets_writer query cmd.events cmd.condition ev n h)
  where
    lifted :
        Meet (compute_reader_lock_keys query) (compute_writer_lock_keys cmd.events cmd.condition)
        → Meet (compute_reader_lock_keys query) (collect_keys commands [] [])
    lifted (k, inl (a, b)) = (k, inl (a, mem-collect_keys commands [] [] {cmd = cmd} m b))
    lifted (k, inr (a, b)) = (k, inr (a, mem-collect_keys_intent commands [] [] {cmd = cmd} m b))

-- If a command of one batch has a validated condition that an event of another batch matches, then
-- both batches lock a common leaf key exclusively.
pub batches_exclude :
    (commands other_commands : List AppendCommand) (cmd other : AppendCommand)
    (condition : AppendCondition) (ev : Event)
    → Memᴰ cmd commands
    → cmd.condition ≡ some condition
    → validate_append_condition condition ≡ none
    → Memᴰ other other_commands
    → Memᴰ ev other.events
    → Matches condition.fail_if_events_match ev
    → (k : ℤ) × Memᴰ k (collect_keys commands [] []).leaf_x
      × Memᴰ k (collect_keys other_commands [] []).leaf_x
batches_exclude commands other_commands cmd other condition ev m c valid n e matches =
    let (k, a, b) =
      writers_exclude cmd.events other.events condition other.condition ev valid e matches in
    (
      k,
      mem-collect_keys commands [] [] {cmd = cmd} m (rw c a),
      mem-collect_keys other_commands [] [] {cmd = other} n b,
    )
