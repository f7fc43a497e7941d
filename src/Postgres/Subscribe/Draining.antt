-- ===== src/Postgres/Subscribe/Draining.antt =====
-- The drain of postgres/subscribe.go on a server that scans its table as declared.
use dcb_event_store_pg_go.Base.{
  ℕ, suc, ◌<◌, ◌^◌, ◌≡◌, refl, sym, ap, ◌∙◌, false, List, [], ◌∷◌, Option, none, some, Bytes, ℤ,
  pos, pos_part, Result, ok, err, panic, Memᴰ, length, select, arith,
}
use mathlib.Core.Path.{subst}
use dcb_event_store_pg_go.EventStore.Condition.{ReadOptions}
use dcb_event_store_pg_go.EventStore.Event.{SequencedEvent}
use dcb_event_store_pg_go.EventStore.Iterator.{collect}
use dcb_event_store_pg_go.EventStore.Iterator.Loops.{collect_unique}
use dcb_event_store_pg_go.EventStore.Position.{SequencePosition}
use dcb_event_store_pg_go.EventStore.Query.{Query}
use dcb_event_store_pg_go.Memory.Matching.{matching_events}
use dcb_event_store_pg_go.Memory.Matching.Reading.{mem-matching_events, matching_events-Ordered}
use dcb_event_store_pg_go.Memory.Order.{Above, Ascending, Ascending-select}
use dcb_event_store_pg_go.Postgres.Conditions.Rows.{row_of, table_of}
use dcb_event_store_pg_go.Postgres.Cursor.{
  Connection, CursorIterator, cursor_iterator, cursor_start,
}
use dcb_event_store_pg_go.Postgres.Cursor.Complete.{Fetches}
use dcb_event_store_pg_go.Postgres.Read.{
  Pool, or_else, barrier_snapshot, declare, open_cursor, read,
}
use dcb_event_store_pg_go.Postgres.Read.Complete.{Serves, read_collects}
use dcb_event_store_pg_go.Postgres.ReadSql.Evaluation.{within, IsMade}
use dcb_event_store_pg_go.Postgres.ReadSql.Reading.{reads_as_memory}
use dcb_event_store_pg_go.Postgres.ReadSql.Rendering.{statement, arguments}
use dcb_event_store_pg_go.Postgres.ReadSql.Selection.{AllOneTag}
use dcb_event_store_pg_go.Postgres.ReadSql.Statement.{render, run}
use dcb_event_store_pg_go.Postgres.Subscribe.{Listener, collected, collect_read, drain}
use dcb_event_store_pg_go.Postgres.Subscribe.Delivery.{Drains}

-- What a drain behind a position asks for.
abbrev pub later_than : SequencePosition → ReadOptions
later_than p = record { backwards = false; after = some p; limit = pos 0 }

-- Events with the rows of events behind a position.
Above-table :
    (p : ℕ) (xs ys : List SequencedEvent) → table_of xs ≡ table_of ys → Above p ys → Above p xs
Above-table p [] ys e h = tt
Above-table p (x ∷ xs) [] e h = absurd (cc (e))
Above-table p (x ∷ xs) (y ∷ ys) e (lt, h) =
    let first : row_of x ≡ row_of y = cc (e) in
    let rest : table_of xs ≡ table_of ys = cc (e) in
    let same : x.position.value ≡ y.position.value = ap (λ r. pos_part r.sequence_position) first in
    (omega arith, subst (λ n. Above n xs) (sym same) (Above-table y.position.value xs ys rest h))

-- A read behind a position gives events behind it, in ascending order.
matching_events-Above :
    (events : List SequencedEvent) (query : Query) (p : SequencePosition)
    → Ascending events
    → Above p.value (matching_events events query (later_than p))
matching_events-Above events query p ascending =
    above (matching_events events query (later_than p))
      (matching_events-Ordered events query (later_than p) ascending)
      (λ se m.
        let (_, past, _) = (mem-matching_events events query (later_than p) se refl).0 m in past)
  where
    above :
        (found : List SequencedEvent)
        → Ascending found
        → ((se : SequencedEvent) → Memᴰ se found → p.value < se.position.value)
        → Above p.value found
    above [] a h = tt
    above (se ∷ found) a h = (h se (Memᴰ.head refl), a)

or_else_ok :
    {D E A B : Type 0} (r : D × Result E A) (last : D → D) (f : A → D → D × Result E B) {d' : D}
    {b : B}
    → or_else r last f ≡ (d', ok b)
    → (d : D) × (a : A) × (r ≡ (d, ok a)) × (f a d ≡ (d', ok b))
or_else_ok (d, ok a) last f h = (d, a, refl, h)
or_else_ok (d, err e) last f h = absurd (cc (h))
or_else_ok (d, panic) last f h = absurd (cc (h))

-- Of two lists with the same rows, the first is made like the second.
pub table-cons :
    (xs : List SequencedEvent) (y : SequencedEvent) (ys : List SequencedEvent)
    → table_of xs ≡ table_of (y ∷ ys)
    → (x : SequencedEvent) × (rest : List SequencedEvent) × (xs ≡ x ∷ rest)
      × (row_of x ≡ row_of y)
      × (table_of rest ≡ table_of ys)
table-cons [] y ys e = absurd (cc (e))
table-cons (x ∷ xs) y ys e = (x, xs, refl, cc (e), cc (e))

module _ {D E : Type 0} (pool : Pool D E) (server : Connection D E) (listener : Listener D E)
    (rows : D → List SequencedEvent) (fetches : Fetches server rows) (table_name : Bytes) where
  -- A declaration that succeeds opens a cursor whose rows are those that the statement selects of
  -- the table at that moment, whose events ascend.
  pub record Scans (query : Query) (p : SequencePosition) (events : D → List SequencedEvent)
      : Type 0 where
    pub ascending : (d : D) → Ascending (events d)
    pub selects :
        (d opened : D) (hwm : ℤ)
        → pool.exec
            (render table_name (statement query (later_than p) (some hwm)))
            (arguments query (later_than p) (some hwm))
            d
          ≡ (opened, ok tt)
        → table_of (rows opened)
          ≡ run
              (arguments query (later_than p) (some hwm))
              (statement query (later_than p) (some hwm))
              (table_of (events d))

  module _ (query : Query) (p : SequencePosition) (made : IsMade query)
      (one : AllOneTag query.items) (fits : p.value < 2 ^ 63) where
    -- Where the calls of a read are answered, the drain gives the rows of its cursor.
    pub drain_collects :
        (events : List SequencedEvent) (hwm : ℤ) (d opened : D) (f : ℕ)
        → Serves pool rows table_name query (later_than p) events hwm d opened
        → Ascending events
        → length (rows opened) < f
        → (d' : D) × (found : List SequencedEvent) × (drain pool server listener table_name f query
              p d
            ≡ some (d', ok found))
          × (table_of found
              ≡ table_of (matching_events (select (within (some hwm)) events) query (later_than p)))
    unfolding drain collect_read
    drain_collects events hwm d opened f serves ascending enough =
        let (found, it, opens, collected_, same) =
          read_collects pool server rows fetches table_name query (later_than p) events hwm d opened
            serves f refl made one fits ascending enough in
        (it.conn, found, rw (opens, collect_read, collected_) refl, same)

    -- What a read that opens a cursor has done.
    Serves-read :
        (events : D → List SequencedEvent)
        → Scans query p events
        → (d d' : D) (it : CursorIterator D E)
        → read pool table_name query (later_than p) d ≡ (d', ok it)
        → (begun : D) × (hwm : ℤ) × (opened : D) × Serves pool rows table_name query
            (later_than p)
            (events begun)
            hwm
            d
            opened
    unfolding read open_cursor declare barrier_snapshot
    Serves-read events scans d d' it h =
        let (settled, hwm, e₁, h₁) = or_else_ok _ _ _ h in
        let (acquired, _, e₂, h₂) = or_else_ok _ _ _ h₁ in
        let (begun, _, e₃, h₃) = or_else_ok _ _ _ h₂ in
        let (text_is, _) =
          reads_as_memory table_name query (later_than p) (some hwm) made fits (events begun) one
            (scans.ascending begun) in
        let (opened, _, e₄, h₄) = or_else_ok _ _ _ (rw (text_is, declare) at h₃) in
        (
          begun,
          hwm,
          opened,
          record {
            settled = settled;
            acquired = acquired;
            begun = begun;
            settles = e₁;
            acquires = e₂;
            begins = e₃;
            declares = e₄;
            selects = scans.selects begun opened hwm e₄;
          },
        )

    collect_read_ok :
        (f : ℕ) (r : D × Result E (CursorIterator D E)) (d' : D) (found : List SequencedEvent)
        → collect_read pool server listener table_name f r ≡ some (d', ok found)
        → (d : D) × (it : CursorIterator D E) × (r ≡ (d, ok it))
    unfolding collect_read
    collect_read_ok f (d, ok it) d' found h = (d, it, refl)
    collect_read_ok f (d, err e) d' found h = absurd (cc (h))
    collect_read_ok f (d, panic) d' found h = absurd (cc (h))

    ok_found :
        (found : List SequencedEvent) (it : CursorIterator D E)
        (r : List SequencedEvent × Option E × CursorIterator D E) (d' : D)
        (mine : List SequencedEvent)
        → ◌≡◌ {A = Option (List SequencedEvent × Option E × CursorIterator D E)}
            (some (found, none, it))
            (some r)
        → ◌≡◌ {A = Option (D × Result E (List SequencedEvent))}
            (some (collected pool server listener table_name r))
            (some (d', ok mine))
        → mine ≡ found
    ok_found found it (events, none, it') d' mine h k = cc (h)
    ok_found found it (events, some e, it') d' mine h k = absurd (cc)

    collect_read_found :
        (f g : ℕ) (d d' : D) (it end : CursorIterator D E) (found mine : List SequencedEvent)
        → collect (cursor_iterator server) g it ≡ some (found, none, end)
        → collect_read pool server listener table_name f (d, ok it) ≡ some (d', ok mine)
        → mine ≡ found
    unfolding collect_read
    collect_read_found f g d d' it end found mine h k =
        by_collect (collect (cursor_iterator server) f it) refl k
      where
        by_collect :
            (o : Option (List SequencedEvent × Option E × CursorIterator D E))
            → collect (cursor_iterator server) f it ≡ o
            → ◌≡◌ {A = Option (D × Result E (List SequencedEvent))}
                (elim o [
                  | none ↦ none
                  | some r ↦ some (collected pool server listener table_name r)
                ])
                (some (d', ok mine))
            → mine ≡ found
        by_collect none e k = absurd (cc (k))
        by_collect (some r) e k =
            ok_found found end r d' mine (collect_unique (cursor_iterator server) g f it h e) k

    -- A drain that succeeds gives events behind the position.
    pub Drains-Scans :
        (events : D → List SequencedEvent) (f : ℕ)
        → Scans query p events
        → Drains pool server listener table_name f query p
    unfolding drain
    Drains-Scans events f scans d d' found h =
        let (d₁, it, e) = collect_read_ok f _ d' found h in
        let (begun, hwm, opened, serves) = Serves-read events scans d d₁ it e in
        let enough = suc (length (rows opened)) in
        let (all, end, opens, collected_, same) =
          read_collects pool server rows fetches table_name query (later_than p) (events begun) hwm
            d opened serves enough refl made one fits (scans.ascending begun) (omega arith) in
        let same_found =
          collect_read_found f enough opened d' (cursor_start opened) end all found collected_
            (rw opens at h) in
        Above-table p.value found
          (matching_events (select (within (some hwm)) (events begun)) query (later_than p))
          (ap table_of same_found ∙ same)
          (matching_events-Above _ query p
            (Ascending-select (within (some hwm)) (events begun) (scans.ascending begun)))
