-- ===== src/Tests/Server.antt =====
-- Witnesses of the transactions on the server.
use dcb_event_store_pg_go.Base.{
  ℕ, ◌+◌, ◌<◌, ◌≤◌, ◌≡◌, ◌≢◌, refl, ap, ◌∙◌, ◌↔◌, List, [], ◌∷◌, ◌++◌, none, some, ok, pos, Memᴰ,
  arith, ℤ, if◌then◌else◌, ◌==◌, false, any, any_complete, length, lt_bytes, eq_bytes, ==_iff,
  Bool-cases, inl, inr,
}
use dcb_event_store_pg_go.EventStore.Event.{SequencedEvent}
use dcb_event_store_pg_go.EventStore.Condition.{validate_append_condition}
use dcb_event_store_pg_go.EventStore.Position.{is_after}
use dcb_event_store_pg_go.EventStore.Tags.{values, len}
use dcb_event_store_pg_go.Memory.Store.{append, validate_commands}
use dcb_event_store_pg_go.Memory.Store.Append.{numbered}
use dcb_event_store_pg_go.Postgres.Append.{all_events_of, collect_keys, add_keys}
use dcb_event_store_pg_go.Postgres.LockKeys.{
  hash_key, leaf_key, type_intent_key, global_intent_key, add_key, compute_writer_lock_keys,
  compute_reader_lock_keys, eq_ℤ,
}
use dcb_event_store_pg_go.Postgres.Server.{
  Job, by_function, by_copy, rows_of, write, barrier, fresh, committed, snapped, locks_of, number,
  Server, Reach, IsStart,
}
use dcb_event_store_pg_go.Postgres.Server.Alone.{Run, run_alone, snap_alone}
use dcb_event_store_pg_go.Postgres.Server.Barrier.{barrier_settles}
use dcb_event_store_pg_go.Postgres.Server.Rows.{
  RowMatches, PlainJob, routes_agree, rows_of-copy_rows, rows_from, rows_from-copy_rows,
}
use dcb_event_store_pg_go.Memory.Matching.Meaning.{mem-values}
use dcb_event_store_pg_go.Postgres.Server.Serial.{condition_holds}
use dcb_event_store_pg_go.Postgres.Server.Refinement.{commits_as_memory}
use dcb_event_store_pg_go.Postgres.Conditions.Agreement.{AllSendable}
use dcb_event_store_pg_go.Postgres.Server.Deadlock.{NoCollision, Disjoint, Chain, no_deadlock}
use dcb_event_store_pg_go.Postgres.LockKeys.{
  add_event_leaf, add_leaf_tags, condition_leaf, add_leaf_items, add_leaf_types, add_global,
  add_event_intent, read_items, read_item,
}
use dcb_event_store_pg_go.Postgres.LockKeys.Distinct.{eq_ℤ_refl}
use dcb_event_store_pg_go.Postgres.Conditions.{StoredRow, check_conditions}
use dcb_event_store_pg_go.Postgres.Conditions.Agreement.{check_conditions-violated_index}
use dcb_event_store_pg_go.Postgres.Conditions.Rows.{row_of, table_of}
use dcb_event_store_pg_go.Memory.Store.{violation}
use dcb_event_store_pg_go.Memory.Matching.{
  any_match_after, matches_query, is_past, matches_query_item, is_tag_subset,
}
use dcb_event_store_pg_go.Memory.Position.{last_position}
use dcb_event_store_pg_go.Memory.Store.Contract.{append-append_spec}
use mathlib.Core.Path.{subst}
use dcb_event_store_pg_go.Tests.Memory.{two_events-IsValid, join_again-HasRoom}
use dcb_event_store_pg_go.Tests.Postgres.{server, plain_course, below_two}
use dcb_event_store_pg_go.Tests.Samples.{
  refused, joined_item, second, two_events, joins, joined_event, join_again, none_since,
}

abbrev jobs : ℕ → Job
jobs i = if i == 0 then write by_function join_again else barrier joins

plain : (i : ℕ) → PlainJob (jobs i)
unfolding all_events_of values lt_bytes
plain i = elim (Bool-cases (i == 0)) [
  | inl e ↦ rw e (((λ e. cc), plain_course, ((λ e. cc), (ground arith, tt), tt)), tt)
  | inr e ↦ rw e tt
]

routes_agree_example : rows_of server by_function refused ≡ rows_of server by_copy refused
unfolding all_events_of values lt_bytes
routes_agree_example = routes_agree server refused (
  ((λ e. cc), plain_course, tt),
  (((λ e. cc), plain_course, ((λ e. cc), (ground arith, tt), tt)), tt),
)

abbrev idle : Server
idle = record { table = table_of two_events.events; last_value = 2; stage = λ _. fresh }

idle-IsStart : IsStart idle
idle-IsStart = record { numbered = bounds; unused = λ i. refl }
  where
    bounds : (e : StoredRow) → Memᴰ e idle.table → (0 < number e) × (number e ≤ idle.last_value)
    bounds e (Memᴰ.head q) = rw q (omega arith, omega arith)
    bounds e (Memᴰ.tail (Memᴰ.head q)) = rw q (omega arith, omega arith)
    bounds e (Memᴰ.tail (Memᴰ.tail m)) = elim m [ ]

join_again-AllSendable : AllSendable join_again
unfolding values
join_again-AllSendable = ((refl, (((λ e. cc), plain_course, tt), tt), omega arith), tt)

join_again-accepted : (append none join_again two_events).1 ≡ ok (record { value = 3 })
unfolding validate_commands validate_append_condition len violation any_match_after matches_query
    is_past matches_query_item is_tag_subset values lt_bytes eq_bytes last_position is_after
join_again-accepted =
    ap (λ r. r.1) (append-append_spec two_events join_again two_events-IsValid join_again-HasRoom)

-- The check finds no violation of `join_again`.
join_again-clear :
    check_conditions server (table_of two_events.events) (pos 2) join_again ≡ some none
unfolding any_match_after matches_query is_past matches_query_item is_tag_subset values lt_bytes
    eq_bytes is_after
join_again-clear =
    check_conditions-violated_index server two_events.events 2 (omega arith, (omega arith, tt))
      below_two join_again (omega arith) join_again-AllSendable

commits_as_memory_example :
    (t : Server) × Reach server jobs idle t
    × (t.stage 0 ≡ committed (table_of (numbered 2 (all_events_of join_again))))
    × (t.table ≡ table_of (append none join_again two_events).0.events)
    × (t.last_value ≡ 3)
unfolding last_position
commits_as_memory_example =
    commits_as_memory server jobs 0 idle two_events by_function join_again (record { value = 3 })
      idle-IsStart refl (plain 0) two_events-IsValid join_again-HasRoom refl refl (omega arith)
      join_again-AllSendable join_again-accepted

-- The append of `join_again`, alone.
written :
    Run server jobs 0 idle
      (committed (rows_from 2 (rows_of server by_function join_again)))
      (idle.table ++ rows_from 2 (rows_of server by_function join_again))
      (2 + length (rows_of server by_function join_again))
unfolding validate_commands validate_append_condition len
written =
    run_alone server jobs 0 idle by_function join_again refl refl (λ j _. refl) refl
      join_again-clear

disjoint_lem : (xs ys : List ℤ) → any (λ x. any (eq_ℤ x) ys) xs ≡ false → Disjoint xs ys
disjoint_lem xs ys h k m n =
    cc (h, any_complete (λ x. any (eq_ℤ x) ys) k m (any_complete (eq_ℤ k) k n (eq_ℤ_refl k)))

keys_apart : NoCollision (write by_function join_again)
unfolding collect_keys add_keys compute_writer_lock_keys add_key hash_key values add_event_leaf
    add_leaf_tags lt_bytes condition_leaf add_leaf_items add_leaf_types leaf_key add_global
    add_event_intent global_intent_key type_intent_key
keys_apart = disjoint_lem _ _ refl

no_collision : (i : ℕ) → NoCollision (jobs i)
unfolding compute_reader_lock_keys read_items read_item values lt_bytes
no_collision i = elim (Bool-cases (i == 0)) [
  | inl e ↦ rw e keys_apart
  | inr e ↦ rw e (λ k m n. elim n [ ])
]

no_deadlock_example : ¬ Chain written.end 0 0
no_deadlock_example =
    no_deadlock server jobs no_collision idle written.end idle-IsStart written.run 0

-- The barrier of `joins`, alone, and the append of `join_again` after it.
settled : Run server jobs 1 idle (snapped 2) idle.table 2
settled = snap_alone server jobs 1 idle joins refl refl (λ j _. refl)

alone_after : (j : ℕ) → 0 ≢ j → locks_of (settled.end.stage j) ≡ []
alone_after j ne = elim (Bool-cases (1 == j)) [
  | inl e ↦
      subst (λ k. locks_of (settled.end.stage k) ≡ []) ((==_iff 1 j).0 e) (ap locks_of settled.at)
  | inr e ↦ ap locks_of (settled.others j (λ p. cc (e, (==_iff 1 j).1 p)))
]

written_after :
    Run server jobs 0 settled.end
      (committed (rows_from 2 (rows_of server by_function join_again)))
      (idle.table ++ rows_from 2 (rows_of server by_function join_again))
      (2 + length (rows_of server by_function join_again))
unfolding validate_commands validate_append_condition len
written_after =
    let r =
      run_alone server jobs 0 settled.end by_function join_again refl
        (settled.others 0 (omega arith)) alone_after refl
        (rw (settled.table_is, settled.last_is) join_again-clear) in
    rw (settled.table_is, settled.last_is) at r

course-RowMatches :
    (n : ℕ)
    → RowMatches joins (row_of (record { event = joined_event; position = record { value = n } }))
unfolding values
course-RowMatches n = inr (
  joined_item,
  Memᴰ.head refl,
  Memᴰ.head refl,
  λ v m. (mem-values joined_event.tags v).1 (Memᴰ.tail m),
)

barrier_settles_example :
    Memᴰ (row_of second) written_after.end.table ↔ Memᴰ (row_of second) settled.end.table
barrier_settles_example =
    barrier_settles server jobs plain idle settled.end written_after.end 1 joins 2 (row_of second)
      idle-IsStart settled.run refl settled.at written_after.run (course-RowMatches 2) (omega arith)

abbrev third : SequencedEvent
third = record { event = joined_event; position = record { value = 3 } }

third_rows : rows_from 2 (rows_of server by_function join_again) ≡ row_of third ∷ []
unfolding all_events_of
third_rows =
    ap (rows_from 2) (rows_of-copy_rows server by_function join_again (plain 0))
    ∙ rows_from-copy_rows 2 (all_events_of join_again)

third_stored : Memᴰ (row_of third) written.end.table
third_stored = rw (written.table_is, third_rows) (Memᴰ.tail (Memᴰ.tail (Memᴰ.head refl)))

condition_holds_example : Memᴰ (row_of third) (row_of third ∷ [])
unfolding values
condition_holds_example =
    condition_holds server jobs plain 0 by_function join_again
      (record { events = joined_event ∷ []; condition = some none_since }) none_since refl
      (Memᴰ.head refl) refl (refl, (((λ e. cc), plain_course, tt), tt), omega arith) idle
      written.end (row_of third ∷ []) (row_of third) (row_of third) idle-IsStart written.run
      (written.at ∙ ap committed third_rows) (Memᴰ.head refl) third_stored (omega arith)
      (course-RowMatches 3) (omega arith)
