-- ===== src/Postgres/Server/Rows.antt =====
-- The rows of an append and of the table, against the events that they store.
use dcb_event_store_pg_go.Base.{
  ℕ, suc, length, ◌+◌, ◌<◌, Bytes, ◌≡◌, refl, sym, ap, ◌∙◌, ◌⊎◌, inl, inr, true, List, [], ◌∷◌,
  ◌++◌, append_assoc, append-nil, Option, none, some, map, pos, ℤ, negsuc, pos_part, Memᴰ, arith,
}
use mathlib.Core.Path.{subst}
use dcb_event_store_pg_go.EventStore.Condition.{AppendCommand}
use dcb_event_store_pg_go.EventStore.Event.{Event, SequencedEvent}
use dcb_event_store_pg_go.EventStore.Position.{SequencePosition}
use dcb_event_store_pg_go.EventStore.Query.{Query, QueryItem, is_all}
use dcb_event_store_pg_go.EventStore.Tags.{values}
use dcb_event_store_pg_go.Memory.Matching.Meaning.{Matches, mem-values}
use dcb_event_store_pg_go.Postgres.Append.{CopyRow, copy_rows, all_events_of}
use dcb_event_store_pg_go.Postgres.Conditions.{StoredRow}
use dcb_event_store_pg_go.Memory.Store.Append.{numbered}
use dcb_event_store_pg_go.Postgres.Conditions.Rows.{row_of, table_of, mem_of_table}
use dcb_event_store_pg_go.Postgres.Serialize.{
  EventRow, event_rows, serialize_from, serialize_events,
}
use dcb_event_store_pg_go.Postgres.Serialize.TagText.{
  StringToArray, AllPlain, string_to_array-join_tags,
}
use dcb_event_store_pg_go.Postgres.Server.{
  Route, by_function, by_copy, Job, write, barrier, unpack, rows_of, number,
}

-- The contract of `Query`, of a row: every row, or one of the items has its type, and tags that are
-- all among the row's.
abbrev pub RowMatches : Query → StoredRow → Type 0
RowMatches query e =
    (is_all query ≡ true)
    ⊎ ((item : QueryItem) × Memᴰ item query.items
        × Memᴰ e.row_type item.types
        × ((v : Bytes) → Memᴰ v item.tags.values → Memᴰ v e.row_tags))

-- A row behind a position, where there is one.
abbrev pub RowPast : Option SequencePosition → StoredRow → Type 0
RowPast none e = Unit
RowPast (some p) e = p.value < number e

-- The columns of a row but its number.
abbrev pub columns : StoredRow → CopyRow
columns e = record { copy_type = e.row_type; copy_tags = e.row_tags; copy_payload = e.row_payload }

-- No tag of an event is empty or has the delimiter.
abbrev pub PlainEvents : List Event → Type 0
PlainEvents [] = Unit
PlainEvents (ev ∷ events) = AllPlain (values ev.tags) × PlainEvents events

-- An append by the stored function sends no tag that is empty or has the delimiter.
abbrev pub PlainJob : Job → Type 0
PlainJob (write by_function commands) = PlainEvents (all_events_of commands)
PlainJob _ = Unit

-- The columns that a transaction may insert.
abbrev pub job_rows : StringToArray → Job → List CopyRow
job_rows server (write route commands) = rows_of server route commands
job_rows server (barrier query) = []

-- The rows that the sequence numbers from the next number on.
abbrev pub rows_from : ℕ → List CopyRow → List StoredRow
rows_from n [] = []
rows_from n (r ∷ rs) =
    record {
      sequence_position = pos (n + 1);
      row_type = r.copy_type;
      row_tags = r.copy_tags;
      row_payload = r.copy_payload;
    }
    ∷ rows_from (n + 1) rs

-- The columns of events that are stored are those of their rows.
pub rows_from-copy_rows :
    (n : ℕ) (events : List Event) → rows_from n (copy_rows events) ≡ table_of (numbered n events)
unfolding copy_rows
rows_from-copy_rows n [] = refl
rows_from-copy_rows n (ev ∷ events) = rw (rows_from-copy_rows (n + 1) events) refl

pub length-copy_rows : (events : List Event) → length (copy_rows events) ≡ length events
unfolding copy_rows
length-copy_rows [] = refl
length-copy_rows (ev ∷ events) = ap suc (length-copy_rows events)

PlainEvents-split : (xs ys : List Event) → PlainEvents (xs ++ ys) → PlainEvents xs × PlainEvents ys
PlainEvents-split [] ys h = (tt, h)
PlainEvents-split (x ∷ xs) ys (a, h) = let (b, c) = PlainEvents-split xs ys h in ((a, b), c)

copy_rows-append : (xs ys : List Event) → copy_rows (xs ++ ys) ≡ copy_rows xs ++ copy_rows ys
unfolding copy_rows
copy_rows-append [] ys = refl
copy_rows-append (x ∷ xs) ys = rw (copy_rows-append xs ys) refl

map-append : {A B : Type 0} (f : A → B) (xs ys : List A) → map f (xs ++ ys) ≡ map f xs ++ map f ys
map-append f [] ys = refl
map-append f (x ∷ xs) ys = ap (◌∷◌ (f x)) (map-append f xs ys)

module _ (server : StringToArray) where
  unpack-event_rows :
      (events : List Event) (rows : List EventRow)
      → PlainEvents events
      → map (unpack server) (event_rows events rows) ≡ map (unpack server) rows ++ copy_rows events
  unfolding event_rows copy_rows
  unpack-event_rows [] rows h = sym (append-nil _)
  unpack-event_rows (ev ∷ events) rows (plain, h) =
      unpack-event_rows events _ h
      ∙ rw
          (
            map-append (unpack server) rows,
            string_to_array-join_tags server ev.tags plain,
            append_assoc,
          )
          refl

  unpack-serialize_from :
      (commands : List AppendCommand) (rows : List EventRow)
      → PlainEvents (all_events_of commands)
      → map (unpack server) (serialize_from commands rows)
        ≡ map (unpack server) rows ++ copy_rows (all_events_of commands)
  unfolding serialize_from all_events_of
  unpack-serialize_from [] rows h = unfold copy_rows in sym (append-nil _)
  unpack-serialize_from (cmd ∷ commands) rows h =
      let (a, b) = PlainEvents-split cmd.events (all_events_of commands) h in
      unpack-serialize_from commands _ b
      ∙ rw (unpack-event_rows cmd.events rows a, copy_rows-append, append_assoc) refl

  -- Where no tag is empty or has the delimiter, the stored function inserts what the COPY does.
  pub rows_of-copy_rows :
      (route : Route) (commands : List AppendCommand)
      → PlainJob (write route commands)
      → rows_of server route commands ≡ copy_rows (all_events_of commands)
  unfolding rows_of serialize_events
  rows_of-copy_rows by_function commands h = unpack-serialize_from commands [] h
  rows_of-copy_rows by_copy commands h = refl

-- For any batch whose events have no tag that is empty or has the delimiter, the two routes of an
-- append insert the same rows: those that the stored function makes of the arrays of serializeEvents,
-- each text of tags split at the delimiter, are the rows of the COPY, in the same order.
pub routes_agree :
    (server : StringToArray) (commands : List AppendCommand)
    → PlainEvents (all_events_of commands)
    → rows_of server by_function commands ≡ rows_of server by_copy commands
unfolding rows_of
routes_agree server commands plain = rows_of-copy_rows server by_function commands plain

mem_of_copy_rows :
    (events : List Event) {r : CopyRow}
    → Memᴰ r (copy_rows events)
    → (ev : Event) × Memᴰ ev events × (r.copy_type ≡ ev.event_type) × (r.copy_tags ≡ values ev.tags)
unfolding copy_rows
mem_of_copy_rows [] m = elim m [ ]
mem_of_copy_rows (x ∷ events) (Memᴰ.head e) =
    (x, Memᴰ.head refl, ap (λ r. r.copy_type) e, ap (λ r. r.copy_tags) e)
mem_of_copy_rows (x ∷ events) (Memᴰ.tail m) =
    let (ev, n, t, vs) = mem_of_copy_rows events m in (ev, Memᴰ.tail n, t, vs)

-- A row that an append may insert stores one of its events, and matches what the event matches.
pub matching_event :
    (server : StringToArray) (query : Query) (route : Route) (commands : List AppendCommand)
    (e : StoredRow)
    → PlainJob (write route commands)
    → Memᴰ (columns e) (rows_of server route commands)
    → RowMatches query e
    → (ev : Event) × Memᴰ ev (all_events_of commands) × Matches query ev
matching_event server query route commands e plain m h =
    let (ev, n, t, vs) =
      mem_of_copy_rows (all_events_of commands)
        (rw (rows_of-copy_rows server route commands plain) at m) in
    (ev, n, by_case ev t vs h)
  where
    by_case :
        (ev : Event)
        → e.row_type ≡ ev.event_type
        → e.row_tags ≡ values ev.tags
        → RowMatches query e
        → Matches query ev
    by_case ev t vs (inl all_) = inl all_
    by_case ev t vs (inr (item, n, a, sub)) = inr (
      item,
      n,
      (
        subst (λ x. Memᴰ x item.types) t a,
        λ v k. (mem-values ev.tags v).0 (subst (λ l. Memᴰ v l) vs (sub v k)),
      ),
    )

pub number_positive : (z : ℤ) → 0 < pos_part z → z ≡ pos (pos_part z)
number_positive (pos n) h = refl
number_positive (negsuc n) h = absurd (omega arith)

pub table_of-append :
    (xs ys : List SequencedEvent) → table_of (xs ++ ys) ≡ table_of xs ++ table_of ys
table_of-append xs ys = map-append row_of xs ys

-- What holds of the rows of a table of events.
pub mem_of_events :
    (events : List SequencedEvent) (e : StoredRow)
    → Memᴰ e (table_of events)
    → (se : SequencedEvent) × Memᴰ se events × (number e ≡ se.position.value)
mem_of_events events e m = let (se, n, same) = mem_of_table events m in (se, n, ap number same)
