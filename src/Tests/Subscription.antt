-- ===== src/Tests/Subscription.antt =====
-- Witnesses of the memory store's subscription: a reader of `joins` from the start takes the second
-- event and then waits.
use dcb_event_store_pg_go.Base.{
  ◌≡◌, refl, ◌⊎◌, false, [], ◌∷◌, ◌++◌, none, some, lt_bytes, eq_bytes,
}
use dcb_event_store_pg_go.EventStore.Position.{sequence_position_initial, is_after}
use dcb_event_store_pg_go.EventStore.Tags.{values}
use dcb_event_store_pg_go.Memory.Matching.{
  matches_query, matches_query_item, is_tag_subset, in_range, collect_matching, matching_events,
}
use dcb_event_store_pg_go.Memory.Subscription.{
  SubscribeIterator, deliver, again, wait, round, start_position,
}
use dcb_event_store_pg_go.Memory.Subscription.Delivery.{
  delivered_in_order, no_missed_append, next_delivers,
}
use dcb_event_store_pg_go.Memory.Subscription.System.{
  System, idle, looping, waiting, Reach, here, next, call, refilled, returned, blocked,
  start_system,
}
use dcb_event_store_pg_go.Memory.Subscription.Undelivered.{undelivered}
use dcb_event_store_pg_go.Tests.Memory.{two_events-IsValid}
use dcb_event_store_pg_go.Tests.Samples.{second, two_events, joins}

abbrev fresh : SubscribeIterator
fresh = record { query = joins; position = record { value = 0 }; pending = []; current = none }

abbrev loaded : SubscribeIterator
loaded = record {
  query = joins;
  position = record { value = 0 };
  pending = second ∷ [];
  current = none;
}

abbrev past_second : SubscribeIterator
past_second = record {
  query = joins;
  position = record { value = 2 };
  pending = [];
  current = some second;
}

round-fresh : round two_events fresh ≡ again loaded
unfolding round matching_events collect_matching in_range is_after matches_query matches_query_item
    is_tag_subset values lt_bytes eq_bytes
round-fresh = refl

round-loaded : round two_events loaded ≡ deliver past_second
unfolding round
round-loaded = refl

round-past : round two_events past_second ≡ wait 2
unfolding round matching_events collect_matching in_range is_after
round-past = refl

abbrev start : System
start = start_system two_events joins none

-- After the first `Next`.
abbrev delivered_one : System
delivered_one = record {
  store = two_events;
  it = past_second;
  phase = idle;
  canceled = false;
  delivered = second ∷ [];
}

-- In the second `Next`.
abbrev at_rest : System
at_rest = record delivered_one { phase = waiting 2 }

takes_second : Reach start delivered_one
takes_second =
    next
      (next (next here (call start refl))
        (refilled (record start { phase = looping }) loaded refl round-fresh))
      (returned (record start { phase = looping; it = loaded }) past_second second refl round-loaded
        refl)

comes_to_rest : Reach start at_rest
comes_to_rest =
    next (next takes_second (call delivered_one refl))
      (blocked (record delivered_one { phase = looping }) 2 refl round-past)

delivered_in_order_example :
    undelivered joins (start_position none) two_events.events
    ≡ (second ∷ []) ++ [] ++ undelivered joins (record { value = 2 }) two_events.events
delivered_in_order_example =
    delivered_in_order two_events two_events-IsValid joins none takes_second

no_missed_append_example :
    (2 ≡ two_events.broadcast)
    × (undelivered joins (start_position none) two_events.events ≡ second ∷ [])
no_missed_append_example =
    no_missed_append two_events two_events-IsValid joins none comes_to_rest 2 refl refl

due_at_start : undelivered joins sequence_position_initial two_events.events ≡ second ∷ []
unfolding matches_query matches_query_item is_tag_subset values lt_bytes eq_bytes
due_at_start = refl

next_delivers_example :
    ((it : SubscribeIterator) × (round two_events fresh ≡ deliver it) × (it.current ≡ some second))
    ⊎ ((it it' : SubscribeIterator) × (round two_events fresh ≡ again it)
        × (round two_events it ≡ deliver it')
        × (it'.current ≡ some second))
next_delivers_example =
    next_delivers two_events two_events-IsValid joins none (next here (call start refl)) second []
      due_at_start
