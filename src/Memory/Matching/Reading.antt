-- ===== src/Memory/Matching/Reading.antt =====
-- What `matchingEvents` returns: the loop is a filter, and the options order and cut its result.
use dcb_event_store_pg_go.Base.{
  ℕ, ◌<◌, ◌≡◌, refl, sym, ◌↔◌, Bool, true, false, ◌&&◌, List, [], ◌∷◌, ◌++◌, Option, none, some,
  arith, select, append-nil, append_assoc, Memᴰ, mem-select, mem_of_mem-select, length, take,
  take_of_length-le, ℤ, pos, is_positive, pos_part, Bool-cases, inl, inr, ltb,
}
use dcb_event_store_pg_go.EventStore.Condition.{ReadOptions}
use dcb_event_store_pg_go.EventStore.Event.{SequencedEvent}
use dcb_event_store_pg_go.EventStore.Position.{SequencePosition, is_after, is_before}
use dcb_event_store_pg_go.EventStore.Query.{Query}
use dcb_event_store_pg_go.Memory.Matching.{
  matches_query, in_range, collect_matching, in_order, limited, matching_events,
}
use dcb_event_store_pg_go.Memory.Matching.Meaning.{Matches, matches_query_iff}
use dcb_event_store_pg_go.Memory.Order.{
  Ascending, Descending, Ascending-select, Descending-reverse, mem_of_mem-reverse,
  mem-reverse_events, Ascending-take, Descending-take,
}

abbrev pub wanted : Query → ReadOptions → SequencedEvent → Bool
wanted query opts se = in_range opts se && matches_query query se.event

collect_matching-select :
    (query : Query) (opts : ReadOptions) (events result : List SequencedEvent)
    → collect_matching query opts events result ≡ result ++ select (wanted query opts) events
unfolding collect_matching
collect_matching-select query opts [] result = sym (append-nil result)
collect_matching-select query opts (se ∷ events) result = ground (
  arith,
  collect_matching-select query opts events result,
  collect_matching-select query opts events (result ++ se ∷ []),
  append_assoc result (se ∷ []) (select (wanted query opts) events),
)

pub matching_events-select :
    (events : List SequencedEvent) (query : Query) (opts : ReadOptions)
    → matching_events events query opts
      ≡ limited opts.limit (in_order opts.backwards (select (wanted query opts) events))
unfolding matching_events
matching_events-select events query opts = rw collect_matching-select

-- The bound of a read: behind it, or before it in a backwards read.
abbrev pub InRange : Bool → Option SequencePosition → SequencedEvent → Type 0
InRange backwards none se = Unit
InRange true (some p) se = se.position.value < p.value
InRange false (some p) se = p.value < se.position.value

pub in_range_iff :
    (opts : ReadOptions) (se : SequencedEvent)
    → (in_range opts se ≡ true) ↔ InRange opts.backwards opts.after se
unfolding in_range is_after is_before
in_range_iff opts se = by_parts opts.backwards opts.after opts.limit
  where
    by_parts :
        (b : Bool) (a : Option SequencePosition) (l : ℤ)
        → (in_range (record { backwards = b; after = a; limit = l }) se ≡ true) ↔ InRange b a se
    by_parts b none l = (λ _. tt, λ _. refl)
    by_parts true (some p) l = ground arith
    by_parts false (some p) l = ground arith

mem-in_order :
    (backwards : Bool) (events : List SequencedEvent) {se : SequencedEvent}
    → Memᴰ se (in_order backwards events) ↔ Memᴰ se events
unfolding in_order
mem-in_order true events = (mem_of_mem-reverse events, mem-reverse_events events)
mem-in_order false events = ((λ m. m), (λ m. m))

-- A read with no limit returns exactly the stored events in the range that match the query.
pub mem-matching_events :
    (events : List SequencedEvent) (query : Query) (opts : ReadOptions) (se : SequencedEvent)
    → is_positive opts.limit ≡ false
    → Memᴰ se (matching_events events query opts)
      ↔ (Memᴰ se events × InRange opts.backwards opts.after se × Matches query se.event)
unfolding limited
mem-matching_events events query opts se nolimit =
    rw (matching_events-select, limited, nolimit) (sound, complete)
  where
    chosen : List SequencedEvent
    chosen = select (wanted query opts) events

    sound :
        Memᴰ se (in_order opts.backwards chosen)
        → Memᴰ se events × InRange opts.backwards opts.after se × Matches query se.event
    sound m =
        let (stored, h) =
          mem_of_mem-select (wanted query opts) events ((mem-in_order opts.backwards chosen).0 m) in
        (
          stored,
          (in_range_iff opts se).0 (ground arith),
          (matches_query_iff query se.event).0 (ground arith),
        )

    complete :
        Memᴰ se events × InRange opts.backwards opts.after se × Matches query se.event
        → Memᴰ se (in_order opts.backwards chosen)
    complete (stored, r, q) = (mem-in_order opts.backwards chosen).1 (
        mem-select (wanted query opts) events stored
          (rw ((in_range_iff opts se).1 r, (matches_query_iff query se.event).1 q)))

-- The order of a read.
abbrev pub Ordered : Bool → List SequencedEvent → Type 0
Ordered true events = Descending events
Ordered false events = Ascending events

in_order-Ordered :
    (backwards : Bool) (events : List SequencedEvent)
    → Ascending events
    → Ordered backwards (in_order backwards events)
unfolding in_order
in_order-Ordered true events a = Descending-reverse events a
in_order-Ordered false events a = a

Ordered-take :
    (backwards : Bool) (n : ℕ) (events : List SequencedEvent)
    → Ordered backwards events
    → Ordered backwards (take n events)
Ordered-take true n events d = Descending-take n events d
Ordered-take false n events a = Ascending-take n events a

limited-Ordered :
    (limit : ℤ) (backwards : Bool) (events : List SequencedEvent)
    → Ordered backwards events
    → Ordered backwards (limited limit events)
unfolding limited
limited-Ordered limit backwards events o =
    elim (Bool-cases (is_positive limit && ltb (pos_part limit) (length events))) [
      | inl e ↦ rw e (Ordered-take backwards (pos_part limit) events o)
      | inr e ↦ rw e o
    ]

-- On events in ascending order a read is in ascending order, and a backwards read in descending
-- order, whatever the query and the limit.
pub matching_events-Ordered :
    (events : List SequencedEvent) (query : Query) (opts : ReadOptions)
    → Ascending events
    → Ordered opts.backwards (matching_events events query opts)
matching_events-Ordered events query opts a = rw (matching_events-select events query opts) (
    limited-Ordered opts.limit opts.backwards _
      (in_order-Ordered opts.backwards _ (Ascending-select (wanted query opts) events a)))

limited-take :
    (limit : ℤ) (events : List SequencedEvent)
    → is_positive limit ≡ true
    → limited limit events ≡ take (pos_part limit) events
unfolding limited
limited-take limit events h = ground (arith, take_of_length-le (pos_part limit) events)

-- A positive limit keeps that many of the first events that the read without the limit returns: the
-- newest ones, if the read is backwards.
pub matching_events-take :
    (events : List SequencedEvent) (query : Query) (opts : ReadOptions)
    → is_positive opts.limit ≡ true
    → matching_events events query opts
      ≡ take (pos_part opts.limit) (matching_events events query (record opts { limit = pos 0 }))
unfolding limited in_range
matching_events-take events query opts h =
    rw (matching_events-select, limited-take _ _ h, matching_events-select) refl
