-- ===== src/Memory/Subscription/Invariant.antt =====
-- The invariant of a subscriber beside appends, and that every step keeps it.
use dcb_event_store_pg_go.Base.{
  ℕ, ◌≡◌, ◌≢◌, refl, sym, ap, ◌∙◌, ◌⊎◌, inl, inr, true, List, [], ◌∷◌, ◌++◌, Option, none, some,
  Result, ok, arith,
}
use mathlib.Core.Path.{subst, subst₂}
use dcb_event_store_pg_go.EventStore.Condition.{AppendCommand, ContextError, StoreError}
use dcb_event_store_pg_go.EventStore.Event.{SequencedEvent}
use dcb_event_store_pg_go.EventStore.Position.{SequencePosition}
use dcb_event_store_pg_go.EventStore.Query.{Query}
use dcb_event_store_pg_go.Memory.Matching.{matching_events}
use dcb_event_store_pg_go.Memory.Order.{Above}
use dcb_event_store_pg_go.Memory.Position.{last_from, last_position}
use dcb_event_store_pg_go.Memory.Store.{Store, append, is_closed}
use dcb_event_store_pg_go.Memory.Store.Append.{batch_events, numbered}
use dcb_event_store_pg_go.Memory.Store.Contract.{IsValid, HasRoom, stored}
use dcb_event_store_pg_go.Memory.Store.Promises.{append_atomic, append-IsValid, numbered-Above}
use dcb_event_store_pg_go.Memory.Subscription.{
  SubscribeIterator, deliver, again, wait, round, round_from, refill, behind,
}
use dcb_event_store_pg_go.Memory.Subscription.System.{
  idle, looping, waiting, System, Step, call, returned, refilled, blocked, woken, stopped, cancel,
  appended, Reach, here, next,
}
use dcb_event_store_pg_go.Memory.Subscription.Undelivered.{
  undelivered, Splits, Splits-deliver, Splits-refill, Splits-append, matching_events-undelivered,
}

module _ (query : Query) (start : SequencePosition) where
  -- What holds between steps. A reader that waits on an open channel waits on the current one, and
  -- has delivered every matching event.
  pub record Sound (t : System) : Type 0 where
    pub valid : IsValid t.store
    pub same_query : t.it.query ≡ query
    pub place : t.it.position ≡ last_from start t.delivered
    pub done : Splits query start t.delivered t.store.events
    pub ahead : Splits query t.it.position t.it.pending t.store.events
    pub quiet :
        (ch : ℕ)
        → t.phase ≡ waiting ch
        → (is_closed t.store ch ≡ true)
          ⊎ ((ch ≡ t.store.broadcast)
              × (t.it.pending ≡ [])
              × (undelivered query t.it.position t.store.events ≡ []))

  -- A refill never returns from `Next`.
  refill-ne-deliver :
      (s : Store) (it it' : SubscribeIterator) (events : List SequencedEvent)
      → refill s it events ≢ deliver it'
  unfolding refill
  refill-ne-deliver s it it' [] h = cc
  refill-ne-deliver s it it' (x ∷ events) h = cc

  refill-again :
      (s : Store) (it it' : SubscribeIterator) (events : List SequencedEvent)
      → refill s it events ≡ again it'
      → it' ≡ record it { pending = events }
  unfolding refill
  refill-again s it it' [] h = absurd (ground arith)
  refill-again s it it' (x ∷ events) h = ground arith

  refill-wait :
      (s : Store) (it : SubscribeIterator) (ch : ℕ) (events : List SequencedEvent)
      → refill s it events ≡ wait ch
      → (events ≡ []) × (ch ≡ s.broadcast)
  unfolding refill
  refill-wait s it ch [] h = (refl, ground arith)
  refill-wait s it ch (x ∷ events) h = absurd (ground arith)

  module _ (t : System) (v : Sound t) where
    returned-Sound :
        (pending : List SequencedEvent) (it : SubscribeIterator) (se : SequencedEvent)
        → t.it.pending ≡ pending
        → round_from t.store t.it pending ≡ deliver it
        → it.current ≡ some se
        → Sound (record t { it = it; phase = idle; delivered = t.delivered ++ se ∷ [] })
    unfolding round_from
    returned-Sound [] it se p h c = absurd (
        refill-ne-deliver t.store t.it it
          (matching_events t.store.events t.it.query (behind t.it.position)) h)
    returned-Sound (x ∷ rest) it se p h c =
        let e : record t.it { current = some x; pending = rest; position = x.position } ≡ it = cc in
        let x_se : x ≡ se = cc in
        let ahead' : Splits query (last_from start t.delivered) (x ∷ rest) t.store.events =
          subst (λ q. Splits query q (x ∷ rest) t.store.events) v.place
            (subst (λ xs. Splits query t.it.position xs t.store.events) p v.ahead) in
        let (place', done', ahead'') =
          Splits-deliver query start t.delivered rest x t.store.events v.valid.ascending v.done
            ahead' in
        subst₂ (λ i y. Sound (record t { it = i; phase = idle; delivered = t.delivered ++ y ∷ [] }))
          e x_se
          (record {
            valid = v.valid;
            same_query = v.same_query;
            place = sym place';
            done = done';
            ahead = ahead'';
            quiet = λ ch w. absurd (cc);
          })

    refilled-Sound :
        (pending : List SequencedEvent) (it : SubscribeIterator)
        → t.it.pending ≡ pending
        → t.phase ≡ looping
        → round_from t.store t.it pending ≡ again it
        → Sound (record t { it = it })
    unfolding round_from
    refilled-Sound (x ∷ rest) it p l h = absurd (cc)
    refilled-Sound [] it p l h =
        let due : matching_events t.store.events t.it.query (behind t.it.position)
            ≡ undelivered query t.it.position t.store.events =
          matching_events-undelivered t.it.query t.store.events t.it.position
          ∙ ap (λ q. undelivered q t.it.position t.store.events) v.same_query in
        let e : it ≡ record t.it { pending = undelivered query t.it.position t.store.events } =
          refill-again t.store t.it it _ h ∙ ap (λ xs. record t.it { pending = xs }) due in
        subst (λ i. Sound (record t { it = i })) (sym e)
          (record {
            valid = v.valid;
            same_query = v.same_query;
            place = v.place;
            done = v.done;
            ahead = Splits-refill query t.it.position t.store.events v.valid.ascending;
            quiet = λ ch w. absurd (cc);
          })

    blocked-Sound :
        (pending : List SequencedEvent) (ch : ℕ)
        → t.it.pending ≡ pending
        → round_from t.store t.it pending ≡ wait ch
        → Sound (record t { phase = waiting ch })
    unfolding round_from
    blocked-Sound (x ∷ rest) ch p h = absurd (cc)
    blocked-Sound [] ch p h =
        let (none_due, current) = refill-wait t.store t.it ch _ h in
        let due : undelivered query t.it.position t.store.events ≡ [] =
          sym (matching_events-undelivered query t.store.events t.it.position)
          ∙ ap (λ q. matching_events t.store.events q (behind t.it.position)) (sym v.same_query)
          ∙ none_due in
        record {
          valid = v.valid;
          same_query = v.same_query;
          place = v.place;
          done = v.done;
          ahead = v.ahead;
          quiet = λ other w. inr (cc, p, due);
        }

    -- New events behind the last one, and the current channel closed.
    stored-Sound :
        (new_events : List SequencedEvent)
        → IsValid (stored t.store new_events)
        → Above (last_position t.store.events).value new_events
        → Sound (record t { store = stored t.store new_events })
    stored-Sound new_events valid' above = record {
      valid = valid';
      same_query = v.same_query;
      place = v.place;
      done =
          Splits-append query start t.delivered t.store.events new_events v.valid.ascending above
            v.done;
      ahead =
          Splits-append query t.it.position t.it.pending t.store.events new_events v.valid.ascending
            above v.ahead;
      quiet = λ ch w. inl (closes ch (v.quiet ch w));
    }
      where
        closes :
            (ch : ℕ)
            → (is_closed t.store ch ≡ true)
              ⊎ ((ch ≡ t.store.broadcast)
                  × (t.it.pending ≡ [])
                  × (undelivered query t.it.position t.store.events ≡ []))
            → is_closed (stored t.store new_events) ch ≡ true
        closes ch (inl c) = ground arith
        closes ch (inr (e, _, _)) = ground arith

    appended-Sound :
        (ctx : Option ContextError) (commands : List AppendCommand)
        → HasRoom t.store commands
        → Sound (record t { store = (append ctx commands t.store).0 })
    appended-Sound (some e) commands room = unfold append in v
    appended-Sound none commands room =
        by_cases (append-IsValid t.store commands v.valid room)
          (append_atomic t.store commands v.valid room)
      where
        new_events : List SequencedEvent
        new_events = numbered (last_position t.store.events).value (batch_events commands)

        by_cases :
            {outcome : Store × Result StoreError SequencePosition}
            → IsValid outcome.0
            → ((outcome.0 ≡ t.store) × ((p : SequencePosition) → outcome.1 ≢ ok p))
              ⊎ ((p : SequencePosition) × (outcome.1 ≡ ok p)
                  × (outcome.0 ≡ stored t.store new_events))
            → Sound (record t { store = outcome.0 })
        by_cases ok_store (inl (same, _)) = subst (λ s. Sound (record t { store = s })) (sym same) v
        by_cases ok_store (inr (p, _, grown)) =
            subst (λ s. Sound (record t { store = s })) (sym grown)
              (stored-Sound new_events (subst IsValid grown ok_store)
                (numbered-Above (last_position t.store.events).value (batch_events commands)))

  Step-Sound : {t u : System} → Step t u → Sound t → Sound u
  unfolding round
  Step-Sound (call t p) v = record {
    valid = v.valid;
    same_query = v.same_query;
    place = v.place;
    done = v.done;
    ahead = v.ahead;
    quiet = λ ch w. absurd (cc);
  }
  Step-Sound (returned t it se p h c) v = returned-Sound t v t.it.pending it se refl h c
  Step-Sound (refilled t it p h) v = refilled-Sound t v t.it.pending it refl p h
  Step-Sound (blocked t ch p h) v = blocked-Sound t v t.it.pending ch refl h
  Step-Sound (woken t ch p h) v = record {
    valid = v.valid;
    same_query = v.same_query;
    place = v.place;
    done = v.done;
    ahead = v.ahead;
    quiet = λ other w. absurd (cc);
  }
  Step-Sound (stopped t ch p h) v = record {
    valid = v.valid;
    same_query = v.same_query;
    place = v.place;
    done = v.done;
    ahead = v.ahead;
    quiet = λ other w. absurd (cc);
  }
  Step-Sound (cancel t) v = record {
    valid = v.valid;
    same_query = v.same_query;
    place = v.place;
    done = v.done;
    ahead = v.ahead;
    quiet = v.quiet;
  }
  Step-Sound (appended t ctx commands room) v = appended-Sound t v ctx commands room

  pub Reach-Sound : {s t : System} → Sound s → Reach s t → Sound t
  Reach-Sound v here = v
  Reach-Sound v (next r st) = Step-Sound st (Reach-Sound v r)
