-- ===== src/Tests/Reads.antt =====
-- Witnesses of reads and subscriptions on postgres.
use dcb_event_store_pg_go.Base.{
  ◌↔◌, ℕ, ◌+◌, ◌-◌, ◌≡◌, refl, sym, ap, ◌∙◌, inr, true, false, List, [], ◌∷◌, all, select, none,
  some, Bytes, codes, arith, ok, err, pos, lt_bytes, eq_bytes,
}
use dcb_event_store_pg_go.EventStore.Event.{SequencedEvent}
use dcb_event_store_pg_go.EventStore.Iterator.{collect}
use dcb_event_store_pg_go.EventStore.Position.{SequencePosition, to_string, is_after}
use dcb_event_store_pg_go.EventStore.Tags.{values, insert_sorted, sort_strings}
use dcb_event_store_pg_go.Memory.Matching.{
  matching_events, limited, in_order, collect_matching, in_range, matches_query, matches_query_item,
  is_tag_subset,
}
use dcb_event_store_pg_go.Postgres.Conditions.Rows.{row_of, table_of}
use dcb_event_store_pg_go.Postgres.Cursor.{
  cursor_next, read_batch_size, cursor_event, cursor_close, CursorIterator, cursor_iterator,
  cursor_start,
}
use dcb_event_store_pg_go.Postgres.Open.{Options, PostgresStore}
use dcb_event_store_pg_go.Postgres.Read.{Pool, read}
use dcb_event_store_pg_go.Postgres.Read.Complete.{Serves, read_collects}
use dcb_event_store_pg_go.Postgres.Read.Release.{Counts, read_holds}
use dcb_event_store_pg_go.Postgres.ReadSql.{
  Arg, number, text, text_array, build_read_sql, after_filter, where_text, limit_text, compared,
  add, join, query_filter, placeholder, criteria_clause, item_clauses, bound_filter,
  item_filter_clause, alternatives, tag_parts, enclosed, type_parts, type_placeholders, join_tail,
  read_text,
}
use dcb_event_store_pg_go.Postgres.Position.{position_to_int64, parse_int, format_int, with_sign}
use dcb_event_store_pg_go.EventStore.Decimal.{format_uint, digits, parse_uint, scan_uint}
use dcb_event_store_pg_go.Postgres.ReadSql.Evaluation.{within, IsMade}
use dcb_event_store_pg_go.Postgres.ReadSql.Reading.{reads_as_memory, selects_iff, Chosen}
use dcb_event_store_pg_go.Postgres.ReadSql.Rendering.{statement, arguments}
use dcb_event_store_pg_go.Postgres.ReadSql.Selection.{AllOneTag}
use dcb_event_store_pg_go.Postgres.ReadSql.Statement.{render, run, filter_holds}
use dcb_event_store_pg_go.Postgres.Subscribe.{Listener, SubscribeIterator, notified, drain, next}
use dcb_event_store_pg_go.Postgres.Subscribe.Draining.{later_than, Scans}
use dcb_event_store_pg_go.Postgres.Subscribe.Delivery.{Outcome, next_delivers_first}
use dcb_event_store_pg_go.Postgres.Subscribe.Arrival.{next_delivers_read, next-Outcome}
use dcb_event_store_pg_go.Tests.Cursor.{list_connection, list_connection-Fetches}
use dcb_event_store_pg_go.Tests.Samples.{second, two_events, joins, joined_event, from_start}

abbrev events_table : Bytes
events_table = codes "events"

sample_text :
    build_read_sql events_table joins
      (record { backwards = true; after = some (record { value = 7 }); limit = pos 2 })
      none
    ≡ some (
      codes
          "DECLARE \"event_cursor\" CURSOR FOR SELECT e.sequence_position, e.type, e.payload, e.tags FROM events e WHERE e.sequence_position < $1 AND (type IN ($2) AND tags && $3::text[]) ORDER BY e.sequence_position DESC LIMIT $4",
      number (pos 7) ∷ text (codes "Joined") ∷ text_array (codes "c" ∷ []) ∷ number (pos 2) ∷ [],
    )
unfolding build_read_sql after_filter position_to_int64 parse_int to_string format_uint digits
    parse_uint where_text limit_text compared add join query_filter placeholder criteria_clause
    format_int item_clauses bound_filter item_filter_clause alternatives tag_parts enclosed
    type_parts type_placeholders lt_bytes scan_uint insert_sorted sort_strings values with_sign
    join_tail read_text
sample_text = refl

joins-IsMade : IsMade joins
joins-IsMade = inr ((λ e. cc), ((λ e. cc), tt))

joins-AllOneTag : AllOneTag joins.items
unfolding values
joins-AllOneTag = (tt, tt)

reads_as_memory_example :
    (build_read_sql events_table joins from_start (some (pos 2))
      ≡ some (
        render events_table (statement joins from_start (some (pos 2))),
        arguments joins from_start (some (pos 2)),
      ))
    × (run
          (arguments joins from_start (some (pos 2)))
          (statement joins from_start (some (pos 2)))
          (table_of two_events.events)
        ≡ table_of
            (matching_events (select (within (some (pos 2))) two_events.events) joins from_start))
reads_as_memory_example =
    reads_as_memory events_table joins from_start (some (pos 2)) joins-IsMade tt two_events.events
      joins-AllOneTag (omega arith, tt)

selects_iff_example :
    (build_read_sql events_table joins from_start (some (pos 2))
      ≡ some (
        render events_table (statement joins from_start (some (pos 2))),
        arguments joins from_start (some (pos 2)),
      ))
    × ((all
            (filter_holds (arguments joins from_start (some (pos 2))) (row_of second))
            (statement joins from_start (some (pos 2))).filters
          ≡ true)
        ↔ (Unit {0} × (within (some (pos 2)) second ≡ true) × Chosen joins joined_event))
selects_iff_example =
    selects_iff events_table joins from_start (some (pos 2)) joins-IsMade tt second

-- A pool on the rows that a cursor has left.
abbrev list_pool : Pool (List SequencedEvent) ⊥
list_pool = record {
  call_barrier = λ keys rows. (rows, ok (pos 2));
  acquire = λ rows. (rows, ok tt);
  begin_tx = λ rows. (rows, ok tt);
  exec = λ sql args rows. (rows, ok tt);
  rollback = λ rows. rows;
  release = λ rows. rows;
}

list_pool-Serves :
    Serves list_pool
      (λ rows. rows)
      events_table
      joins
      from_start
      two_events.events
      (pos 2)
      (second ∷ [])
      (second ∷ [])
unfolding values lt_bytes eq_bytes
list_pool-Serves = record {
  settled = second ∷ [];
  acquired = second ∷ [];
  begun = second ∷ [];
  settles = refl;
  acquires = refl;
  begins = refl;
  declares = refl;
  selects = refl;
}

read_collects_example :
    (found : List SequencedEvent) × (it : CursorIterator (List SequencedEvent) ⊥) × (read list_pool
        events_table joins from_start
        (second ∷ [])
      ≡ (second ∷ [], ok (cursor_start (second ∷ []))))
    × (collect (cursor_iterator list_connection) 2 (cursor_start (second ∷ []))
        ≡ some (found, none, it))
    × (table_of found
        ≡ table_of
            (matching_events (select (within (some (pos 2))) two_events.events) joins from_start))
read_collects_example =
    read_collects list_pool list_connection (λ rows. rows) list_connection-Fetches events_table
      joins from_start two_events.events (pos 2) (second ∷ []) (second ∷ []) list_pool-Serves 2 refl
      joins-IsMade joins-AllOneTag tt (omega arith, tt) (omega arith)

-- A pool whose state counts the connections that are out, and whose statements fail.
abbrev counting_pool : Pool ℕ (Unit {0})
counting_pool = record {
  call_barrier = λ keys n. (n, ok (pos 2));
  acquire = λ n. (n + 1, ok tt);
  begin_tx = λ n. (n, ok tt);
  exec = λ sql args n. (n, err tt);
  rollback = λ n. n;
  release = λ n. n - 1;
}

counting_pool-Counts : Counts counting_pool (λ n. n)
counting_pool-Counts = record {
  barrier_holds = λ keys n. refl;
  acquire_holds = λ n. refl;
  begin_holds = λ n. refl;
  exec_holds = λ sql args n. refl;
  rollback_holds = λ n. refl;
  release_holds = λ d n e. omega arith;
}

read_holds_example : (read counting_pool events_table joins from_start 3).0 ≡ 3
unfolding read build_read_sql after_filter
read_holds_example =
    read_holds counting_pool (λ n. n) counting_pool-Counts events_table joins from_start 3

abbrev shop_options : Options
shop_options = record { table_prefix = codes "Shop"; copy_threshold = pos 0 }

abbrev shop_store : PostgresStore
shop_store = record {
  table_name = codes "Shop_events";
  append_function_name = codes "Shop_events_append";
  check_function_name = codes "Shop_events_check_conditions";
  barrier_function_name = codes "Shop_events_barrier_hwm";
  notify_channel = codes "Shop_events";
  copy_threshold = pos 10000;
}

abbrev calm : Listener (List SequencedEvent) ⊥
calm = record {
  ended = λ d. (d, false);
  listen = λ d. (d, ok tt);
  wait = λ interval d. (d, notified);
  unlisten = λ d. d;
}

abbrev at_zero : SequencePosition
at_zero = record { value = 0 }

abbrev caught_up : SubscribeIterator (List SequencedEvent) ⊥
caught_up = record {
  outside = second ∷ [];
  query = joins;
  position = at_zero;
  poll_interval = pos 1;
  pending = [];
  current = none;
  error = none;
  closed = false;
}

list_pool-Serves_later :
    Serves list_pool
      (λ rows. rows)
      events_table
      joins
      (later_than at_zero)
      two_events.events
      (pos 2)
      (second ∷ [])
      (second ∷ [])
unfolding values lt_bytes eq_bytes
list_pool-Serves_later = record {
  settled = second ∷ [];
  acquired = second ∷ [];
  begun = second ∷ [];
  settles = refl;
  acquires = refl;
  begins = refl;
  declares = refl;
  selects = refl;
}

reads_second :
    matching_events (select (within (some (pos 2))) two_events.events) joins (later_than at_zero)
    ≡ second ∷ []
unfolding matching_events limited in_order collect_matching in_range matches_query
    matches_query_item is_tag_subset values lt_bytes eq_bytes is_after
reads_second = refl

next_delivers_read_example :
    (d' : List SequencedEvent) × (se : SequencedEvent) × (pending : List SequencedEvent) × (next
        list_pool list_connection calm events_table 2 2 caught_up
      ≡ some (
        true,
        record caught_up {
          outside = d';
          pending = pending;
          current = some se;
          position = se.position;
        },
      ))
    × (row_of se ≡ row_of second)
    × (table_of pending ≡ table_of [])
next_delivers_read_example =
    next_delivers_read list_pool list_connection calm (λ rows. rows) list_connection-Fetches
      events_table 2 0 caught_up two_events.events (pos 2) (second ∷ []) (second ∷ []) second []
      refl refl refl refl joins-IsMade joins-AllOneTag (omega arith) list_pool-Serves_later
      (omega arith, tt) (omega arith) reads_second

-- The rows that a read behind `at_zero` with these arguments selects of the two events.
abbrev asked : List Arg → List SequencedEvent
asked (number after ∷ number hwm ∷ args) =
    matching_events (select (within (some hwm)) two_events.events) joins (later_than at_zero)
asked _ = []

abbrev scan_pool : Pool (List SequencedEvent) ⊥
scan_pool = record list_pool { exec = λ sql args rows. (asked args, ok tt) }

scan_pool-Scans :
    Scans scan_pool list_connection calm
      (λ rows. rows)
      list_connection-Fetches
      events_table
      joins
      at_zero
      (λ rows. two_events.events)
scan_pool-Scans = record {
  ascending = λ d. (omega arith, tt);
  selects = λ d opened hwm h.
      let same : opened ≡ asked (arguments joins (later_than at_zero) (some hwm)) = cc (h) in
      let (_, selected) =
        reads_as_memory events_table joins (later_than at_zero) (some hwm) joins-IsMade
          (omega arith) two_events.events joins-AllOneTag (omega arith, tt) in
      ap table_of same ∙ sym selected;
}

abbrev second_taken : SubscribeIterator (List SequencedEvent) ⊥
second_taken = record caught_up {
  outside = [];
  pending = [];
  current = some second;
  position = second.position;
}

drains_second :
    drain scan_pool list_connection calm events_table 2 joins at_zero (second ∷ [])
    ≡ some ([], ok (second ∷ []))
unfolding drain read build_read_sql after_filter position_to_int64 parse_int to_string format_uint
    parse_uint collect cursor_next read_batch_size cursor_event cursor_close matching_events limited
    in_order collect_matching in_range matches_query matches_query_item is_tag_subset values
    lt_bytes eq_bytes is_after limit_text query_filter criteria_clause item_clauses
    item_filter_clause tag_parts add type_parts type_placeholders bound_filter compared
drains_second = refl

takes_second :
    next scan_pool list_connection calm events_table 2 2 caught_up ≡ some (true, second_taken)
takes_second =
    next_delivers_first scan_pool list_connection calm events_table 2 0 caught_up (second ∷ []) []
      second [] refl refl refl refl drains_second

next-Outcome_example :
    Outcome scan_pool list_connection calm events_table 2 caught_up true second_taken
next-Outcome_example =
    next-Outcome scan_pool list_connection calm (λ rows. rows) list_connection-Fetches events_table
      2 2 caught_up second_taken true (λ rows. two_events.events) scan_pool-Scans joins-IsMade
      joins-AllOneTag (omega arith) tt takes_second
