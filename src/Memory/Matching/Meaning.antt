-- ===== src/Memory/Matching/Meaning.antt =====
-- What it means to match a query, without the code's searches, and that the code decides it.
use dcb_event_store_pg_go.Base.{
  ◌≡◌, refl, ◌↔◌, ◌⊎◌, inl, inr, Bool, true, List, [], ◌∷◌, Option, none, some, arith, Bytes, any,
  any_sound, any_complete, all_sound, all_complete, Memᴰ, Bool-cases, ◌<◌, ◌&&◌,
}
use dcb_event_store_pg_go.EventStore.Event.{Event, SequencedEvent}
use dcb_event_store_pg_go.EventStore.Position.{SequencePosition, is_after}
use dcb_event_store_pg_go.EventStore.Query.{Query, QueryItem, is_all}
use dcb_event_store_pg_go.EventStore.Tags.{Tags, contains, values}
use dcb_event_store_pg_go.EventStore.Tags.Members.{mem_of_contains, contains_of_mem}
use dcb_event_store_pg_go.EventStore.Tags.Sorting.{mem-sort_strings}
use dcb_event_store_pg_go.Memory.Matching.{
  is_tag_subset, matches_query_item, matches_query, is_past, any_match_after,
}

-- The contract of `QueryItem`: the event's type is one of the types, and its tags are a superset.
abbrev pub MatchesItem : QueryItem → Event → Type 0
MatchesItem item ev =
    Memᴰ ev.event_type item.types × ((v : Bytes) → Memᴰ v item.tags.values → Memᴰ v ev.tags.values)

-- The contract of `Query`: every event, or the union of the items.
abbrev pub Matches : Query → Event → Type 0
Matches query ev =
    (is_all query ≡ true) ⊎ ((item : QueryItem) × Memᴰ item query.items × MatchesItem item ev)

pub mem-values : (t : Tags) (v : Bytes) → Memᴰ v (values t) ↔ Memᴰ v t.values
unfolding values
mem-values t v = mem-sort_strings t.values v

pub is_tag_subset_iff :
    (filter tags : Tags)
    → (is_tag_subset filter tags ≡ true) ↔ ((v : Bytes) → Memᴰ v filter.values → Memᴰ v tags.values)
unfolding is_tag_subset
is_tag_subset_iff filter tags = (
  λ h v m. (mem-values tags v).0 (
      mem_of_contains (values tags) v
        (all_sound (λ v. contains (values tags) v) (values filter) h ((mem-values filter v).1 m))),
  λ h.
      all_complete (λ v. contains (values tags) v) (values filter)
        (λ v m. contains_of_mem v ((mem-values tags v).1 (h v ((mem-values filter v).0 m)))),
)

pub matches_query_item_iff :
    (item : QueryItem) (ev : Event) → (matches_query_item item ev ≡ true) ↔ MatchesItem item ev
unfolding matches_query_item
matches_query_item_iff item ev = (sound, complete)
  where
    sound : matches_query_item item ev ≡ true → MatchesItem item ev
    sound h = (
      mem_of_contains item.types ev.event_type (ground arith),
      (is_tag_subset_iff item.tags ev.tags).0 (ground arith),
    )

    complete : MatchesItem item ev → matches_query_item item ev ≡ true
    complete (m, sub) =
        rw (contains_of_mem ev.event_type m, (is_tag_subset_iff item.tags ev.tags).1 sub)

-- `matchesQuery` decides the contract of `Query`.
pub matches_query_iff :
    (query : Query) (ev : Event) → (matches_query query ev ≡ true) ↔ Matches query ev
unfolding matches_query
matches_query_iff query ev = (sound, complete)
  where
    test : QueryItem → Bool
    test item = matches_query_item item ev

    sound : matches_query query ev ≡ true → Matches query ev
    sound h = elim (Bool-cases (is_all query)) [
      | inl e ↦ inl e
      | inr e ↦
          let (item, m, p) =
            any_sound (λ item. matches_query_item item ev) query.items (rw e at h) in
          inr (item, m, (matches_query_item_iff item ev).0 p)
    ]

    complete : Matches query ev → matches_query query ev ≡ true
    complete (inl e) = rw e
    complete (inr (item, m, p)) = ground (
      arith,
      any_complete (λ (item : QueryItem). matches_query_item item ev) item m
          ((matches_query_item_iff item ev).1 p),
    )

-- An event behind a position, where there is one.
abbrev pub IsPast : Option SequencePosition → SequencedEvent → Type 0
IsPast none se = Unit
IsPast (some p) se = p.value < se.position.value

pub is_past_iff :
    (after : Option SequencePosition) (se : SequencedEvent)
    → (is_past after se ≡ true) ↔ IsPast after se
unfolding is_past is_after
is_past_iff none se = (λ _. tt, λ _. refl)
is_past_iff (some p) se = ground arith

pub any_match_after-any :
    (events : List SequencedEvent) (query : Query) (after : Option SequencePosition)
    → any_match_after events query after
      ≡ any (λ se. is_past after se && matches_query query se.event) events
unfolding any_match_after
any_match_after-any [] query after = refl
any_match_after-any (se ∷ events) query after =
    ground (arith, any_match_after-any events query after)

-- `anyMatchAfter` holds exactly if some event that matches the query lies behind the position.
pub any_match_after_iff :
    (events : List SequencedEvent) (query : Query) (after : Option SequencePosition)
    → (any_match_after events query after ≡ true)
      ↔ ((se : SequencedEvent) × Memᴰ se events × IsPast after se × Matches query se.event)
any_match_after_iff events query after = rw any_match_after-any (sound, complete)
  where
    test : SequencedEvent → Bool
    test se = is_past after se && matches_query query se.event

    sound :
        any (λ se. is_past after se && matches_query query se.event) events ≡ true
        → (se : SequencedEvent) × Memᴰ se events × IsPast after se × Matches query se.event
    sound h =
        let (se, m, p) =
          any_sound (λ se. is_past after se && matches_query query se.event) events h in
        (
          se,
          m,
          (is_past_iff after se).0 (ground arith),
          (matches_query_iff query se.event).0 (ground arith),
        )

    complete :
        ((se : SequencedEvent) × Memᴰ se events × IsPast after se × Matches query se.event)
        → any (λ se. is_past after se && matches_query query se.event) events ≡ true
    complete (se, m, p, q) =
        any_complete (λ se. is_past after se && matches_query query se.event) se m
          (rw ((is_past_iff after se).1 p, (matches_query_iff query se.event).1 q))
