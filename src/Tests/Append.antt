-- ===== src/Tests/Append.antt =====
-- Witnesses of postgres/append.go.
use dcb_event_store_pg_go.Base.{
  ℕ, ◌+◌, ◌≡◌, refl, List, [], ◌∷◌, none, some, Bytes, lt_bytes, eq_bytes, arith, ltb, length, ok,
  err, ℤ, pos, Memᴰ,
}
use dcb_event_store_pg_go.EventStore.Condition.{
  AppendCommand, AppendConditionError, condition_violated, validate_append_condition,
}
use dcb_event_store_pg_go.EventStore.Decimal.{digits, format_uint, parse_uint}
use dcb_event_store_pg_go.EventStore.Position.{parse_sequence_position}
use dcb_event_store_pg_go.EventStore.Tags.{len, values}
use dcb_event_store_pg_go.Memory.Matching.{
  any_match_after, matches_query, is_past, matches_query_item, is_tag_subset,
}
use dcb_event_store_pg_go.Memory.Store.Append.{first_violation}
use dcb_event_store_pg_go.Postgres.Append.{
  Database, rejected, collect_keys, append_via_copy, copy_rows, position_of, all_events_of,
}
use dcb_event_store_pg_go.Postgres.Append.Batches.{batches_exclude}
use dcb_event_store_pg_go.Postgres.Append.Committed.{Succeeds, append_via_copy-Succeeds}
use dcb_event_store_pg_go.Postgres.Append.Rejections.{Answers, append_via_copy-first_violation}
use dcb_event_store_pg_go.Postgres.Conditions.{check_function}
use dcb_event_store_pg_go.Postgres.Conditions.Rows.{table_of}
use dcb_event_store_pg_go.Postgres.LockKeys.{WriterLockKeys}
use dcb_event_store_pg_go.Postgres.Position.{format_int, int64_to_position}
use dcb_event_store_pg_go.Postgres.Serialize.{serialize_conditions, condition_rows}
use dcb_event_store_pg_go.Tests.Postgres.{second-Matches, server, below_two, refused-AllSendable}
use dcb_event_store_pg_go.Tests.Samples.{two_events, joined_event, none_since, join_again, refused}

abbrev open_batch : List AppendCommand
open_batch = record { events = joined_event ∷ []; condition = none } ∷ []

batches_exclude_example :
    (k : ℤ) × Memᴰ k (collect_keys join_again [] []).leaf_x
    × Memᴰ k (collect_keys open_batch [] []).leaf_x
unfolding validate_append_condition len
batches_exclude_example =
    batches_exclude join_again open_batch
      (record { events = joined_event ∷ []; condition = some none_since })
      (record { events = joined_event ∷ []; condition = none }) none_since joined_event
      (Memᴰ.head refl) refl refl (Memᴰ.head refl) (Memᴰ.head refl) second-Matches

-- A database that counts the rows copied since the start, over two stored ones.
abbrev counting : Database ℕ Bytes
counting = record {
  message = λ e. some e;
  call_append = λ keys rows conds d. (d, err []);
  begin_tx = λ d. (d, ok tt);
  rollback = λ d. d;
  acquire_locks = λ keys d. (d, ok tt);
  last_value = λ d. (d, ok (pos d));
  call_check = λ rows hwm d. (d, ok none);
  copy_from = λ rows d. (d + length rows, ok tt);
  current_value = λ d. (d, ok (pos d));
  notify = λ text d. (d, ok tt);
  commit = λ d. (d, ok tt);
}

abbrev no_keys : WriterLockKeys
no_keys = record { leaf_x = []; intent_s = [] }

copied : append_via_copy counting open_batch no_keys 2 ≡ (3, ok (record { value = 3 }))
unfolding append_via_copy serialize_conditions condition_rows copy_rows position_of all_events_of
    int64_to_position parse_sequence_position parse_uint format_int format_uint digits eq_bytes
copied = refl

append_via_copy-Succeeds_example :
    (d'' : ℕ) × (3 ≡ d'') × Succeeds counting open_batch no_keys 2 d'' (record { value = 3 })
append_via_copy-Succeeds_example =
    append_via_copy-Succeeds counting open_batch no_keys 2 3 (record { value = 3 }) copied

-- The database whose stored function runs on the table of two events.
abbrev checking : Database ℕ Bytes
checking = record counting {
  call_check = λ rows hwm d. (d, ok (check_function server (table_of two_events.events) hwm rows));
}

checking-Answers : Answers checking server two_events.events 2 no_keys 2 2
checking-Answers = record {
  begun = 2;
  locked = 2;
  begins = refl;
  locks = refl;
  mark = refl;
  checks = λ rows. refl;
}

append_via_copy-first_violation_example :
    (e : AppendConditionError) × (append_via_copy checking refused no_keys 2
      ≡ (2, err (rejected (condition_violated e))))
    × (first_violation two_events.events (ltb 1 (length refused)) 0 refused ≡ some e)
unfolding any_match_after is_past matches_query matches_query_item is_tag_subset values lt_bytes
    eq_bytes
append_via_copy-first_violation_example =
    append_via_copy-first_violation checking server two_events.events 2 no_keys 2 2 checking-Answers
      (omega arith, (omega arith, tt)) below_two refused 1 (omega arith) refused-AllSendable refl
