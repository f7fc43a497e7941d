-- ===== src/Postgres/Subscribe/Delivery.antt =====
-- What a call of Next on a subscription may return.
use dcb_event_store_pg_go.Base.{
  ℕ, zero, suc, ◌<◌, ◌≡◌, refl, sym, ap, ◌∙◌, ◌⊎◌, inl, inr, Bool, true, false, List, [], ◌∷◌,
  Option, none, some, Bytes, if◌then◌else◌, ◌||◌, is_some, Result, ok, err, panic,
}
use mathlib.Core.Path.{subst}
use dcb_event_store_pg_go.EventStore.Event.{SequencedEvent}
use dcb_event_store_pg_go.EventStore.Position.{SequencePosition}
use dcb_event_store_pg_go.EventStore.Query.{Query}
use dcb_event_store_pg_go.Memory.Order.{Above}
use dcb_event_store_pg_go.Postgres.Cursor.{Connection}
use dcb_event_store_pg_go.Postgres.Read.{Pool}
use dcb_event_store_pg_go.Postgres.Subscribe.{
  Waited, notified, elapsed, broken, Listener, SubscribeIterator, Pass, return_, again, drain, fail,
  waited, drained, pass_from, loop, next,
}

same_pair : {A : Type 0} (a b : A) → ◌≡◌ {A = Option A} (some a) (some b) → a ≡ b
same_pair a b e = ap (λ o. elim o [ none ↦ a | some x ↦ x ]) e

module _ {D E : Type 0} (pool : Pool D E) (server : Connection D E) (listener : Listener D E)
    (table_name : Bytes) (fuel : ℕ) where
  -- A drain gives events behind the position, in ascending order.
  abbrev pub Drains : Query → SequencePosition → Type 0
  Drains query p =
      (d d' : D) (found : List SequencedEvent)
      → drain pool server listener table_name fuel query p d ≡ some (d', ok found)
      → Above p.value found

  -- The pending events lie behind the position, in ascending order.
  abbrev pub Queued : SubscribeIterator D E → Type 0
  Queued it = Above it.position.value it.pending

  -- The context has ended when it was asked last.
  abbrev pub Over : SubscribeIterator D E → Type 0
  Over it = (d : D) × (listener.ended d ≡ (it.outside, true))

  -- An event is delivered, or the iterator stands where it stood and has a reason to stop.
  abbrev pub Outcome : SubscribeIterator D E → Bool → SubscribeIterator D E → Type 0
  Outcome it true it' =
      (se : SequencedEvent) × (it'.current ≡ some se)
      × (it'.position ≡ se.position)
      × (it.position.value < se.position.value)
      × Queued it'
  Outcome it false it' =
      (it'.position ≡ it.position)
      × Queued it'
      × ((is_some it'.error || it'.closed) ≡ true ⊎ Over it')

  abbrev PassFine : SubscribeIterator D E → Pass D E → Type 0
  PassFine it (return_ more it') = Outcome it more it'
  PassFine it (again it') = (it'.position ≡ it.position) × (it'.query ≡ it.query) × Queued it'

  fail-PassFine :
      (e : E) (it : SubscribeIterator D E)
      → Queued it
      → PassFine it (fail pool server listener table_name e it)
  unfolding fail
  fail-PassFine e it q = by_answer (listener.ended it.outside) refl
    where
      by_answer :
          (r : D × Bool)
          → listener.ended it.outside ≡ r
          → PassFine it (
              let (d, over) = r in
              if over
              then return_ false (record it { outside = d })
              else return_ false (record it { outside = d; error = some e }))
      by_answer (d, true) h = (refl, q, inr (it.outside, h))
      by_answer (d, false) h = (refl, q, inl refl)

  waited-PassFine :
      (it : SubscribeIterator D E) (w : D × Waited E)
      → Queued it
      → PassFine it (waited pool server listener table_name it w)
  unfolding waited
  waited-PassFine it (d, notified) q = (refl, refl, q)
  waited-PassFine it (d, elapsed) q = by_answer (listener.ended d) refl
    where
      by_answer :
          (r : D × Bool)
          → listener.ended d ≡ r
          → PassFine it (
              let (d', over) = r in
              if over
              then return_ false (record it { outside = d' })
              else again (record it { outside = d' }))
      by_answer (d', true) h = (refl, q, inr (d, h))
      by_answer (d', false) h = (refl, refl, q)
  waited-PassFine it (d, broken e) q = fail-PassFine e (record it { outside = d }) q

  -- What holds of the outcome of a pass, if it does not panic.
  abbrev MaybeFine : SubscribeIterator D E → Option (Pass D E) → Type 0
  MaybeFine it none = Unit
  MaybeFine it (some p) = PassFine it p

  drained-MaybeFine :
      (it : SubscribeIterator D E) (r : D × Result E (List SequencedEvent))
      → Queued it
      → ((d : D) (found : List SequencedEvent) → r ≡ (d, ok found) → Above it.position.value found)
      → MaybeFine it (drained pool server listener table_name it r)
  unfolding drained
  drained-MaybeFine it (d, err e) q h = fail-PassFine e (record it { outside = d }) q
  drained-MaybeFine it (d, panic) q h = tt
  drained-MaybeFine it (d, ok []) q h =
      waited-PassFine (record it { outside = d }) (listener.wait it.poll_interval d) q
  drained-MaybeFine it (d, ok (se ∷ events)) q h = (refl, refl, h d (se ∷ events) refl)

  abbrev after_drain :
      SubscribeIterator D E → Option (D × Result E (List SequencedEvent)) → Option (Pass D E)
  after_drain it none = none
  after_drain it (some r) = drained pool server listener table_name it r

  abbrev after_ended : SubscribeIterator D E → D × Bool → Option (Pass D E)
  after_ended it r =
      let (d, over) = r in
      if over
      then some (return_ false (record it { outside = d }))
      else after_drain it (drain pool server listener table_name fuel it.query it.position d)

  pass_from_drained :
      (it : SubscribeIterator D E) (d d' : D) (se : SequencedEvent) (events : List SequencedEvent)
      → listener.ended it.outside ≡ (d, false)
      → drain pool server listener table_name fuel it.query it.position d
        ≡ some (d', ok (se ∷ events))
      → pass_from pool server listener table_name fuel [] it
        ≡ some (again (record it { outside = d'; pending = se ∷ events }))
  unfolding pass_from drained
  pass_from_drained it d d' se events going drained_ =
      ap (after_ended it) going ∙ ap (after_drain it) drained_

  -- The rest of the loop.
  abbrev after_pass : ℕ → Option (Pass D E) → Option (Bool × SubscribeIterator D E)
  after_pass n none = none
  after_pass n (some (return_ more it)) = some (more, it)
  after_pass n (some (again it)) = loop pool server listener table_name fuel n it

  -- An open iterator with nothing pending, whose context has not ended and whose drain gives events:
  -- Next returns with the first of them in two passes of its loop, and keeps the others pending.
  pub next_delivers_first :
      (n : ℕ) (it : SubscribeIterator D E) (d d' : D) (se : SequencedEvent)
      (events : List SequencedEvent)
      → it.error ≡ none
      → it.closed ≡ false
      → it.pending ≡ []
      → listener.ended it.outside ≡ (d, false)
      → drain pool server listener table_name fuel it.query it.position d
        ≡ some (d', ok (se ∷ events))
      → next pool server listener table_name fuel (suc (suc n)) it
        ≡ some (
          true,
          record it { outside = d'; pending = events; current = some se; position = se.position },
        )
  unfolding next loop pass_from
  next_delivers_first n it d d' se events open_ unclosed empty going drained_ =
      unguarded
      ∙ ap
          (λ pending.
            after_pass (suc n) (pass_from pool server listener table_name fuel pending it))
          empty
      ∙ ap (after_pass (suc n)) (pass_from_drained it d d' se events going drained_)
      ∙ delivers
    where
      unguarded :
          next pool server listener table_name fuel (suc (suc n)) it
          ≡ after_pass (suc n) (pass_from pool server listener table_name fuel it.pending it)
      unguarded = rw (next, open_, unclosed) refl

      delivers :
          loop pool server listener table_name fuel
            (suc n)
            (record it { outside = d'; pending = se ∷ events })
          ≡ some (
            true,
            record it { outside = d'; pending = events; current = some se; position = se.position },
          )
      delivers = refl

  pass_from-MaybeFine :
      (it : SubscribeIterator D E) (pending : List SequencedEvent)
      → Drains it.query it.position
      → it.pending ≡ pending
      → Queued it
      → MaybeFine it (pass_from pool server listener table_name fuel pending it)
  unfolding pass_from
  pass_from-MaybeFine it (se ∷ events) drains e q =
      let (above, rest) = subst (Above it.position.value) e q in (se, refl, refl, above, rest)
  pass_from-MaybeFine it [] drains e q = by_answer (listener.ended it.outside) refl
    where
      by_drain :
          (d : D) (r : Option (D × Result E (List SequencedEvent)))
          → drain pool server listener table_name fuel it.query it.position d ≡ r
          → MaybeFine it
              (elim r [ none ↦ none | some r ↦ drained pool server listener table_name it r ])
      by_drain d none h = tt
      by_drain d (some r) h =
          drained-MaybeFine it r q (λ d' found same. drains d d' found (h ∙ ap some same))

      by_answer :
          (r : D × Bool)
          → listener.ended it.outside ≡ r
          → MaybeFine it (
              let (d, over) = r in
              if over
              then some (return_ false (record it { outside = d }))
              else elim (drain pool server listener table_name fuel it.query it.position d) [
                | none ↦ none
                | some r ↦ drained pool server listener table_name it r
              ])
      by_answer (d, true) h = (refl, q, inr (it.outside, h))
      by_answer (d, false) h =
          by_drain d (drain pool server listener table_name fuel it.query it.position d) refl

  moved :
      (it it' it'' : SubscribeIterator D E) (more : Bool)
      → it'.position ≡ it.position
      → Outcome it' more it''
      → Outcome it more it''
  moved it it' it'' true e (se, a, b, lt, q) =
      (se, a, b, subst (λ p. p.value < se.position.value) e lt, q)
  moved it it' it'' false e (same, q, why) = (same ∙ e, q, why)

  loop-Outcome :
      (n : ℕ) (it it' : SubscribeIterator D E) (more : Bool)
      → Drains it.query it.position
      → Queued it
      → loop pool server listener table_name fuel n it ≡ some (more, it')
      → Outcome it more it'
  unfolding loop
  loop-Outcome zero it it' more drains q h = absurd (cc (h))
  loop-Outcome (suc n) it it' more drains q h =
      by_pass (pass_from pool server listener table_name fuel it.pending it)
        (pass_from-MaybeFine it it.pending drains refl q) (λ it'. loop-Outcome n it' _ _) h
    where
      by_pass :
          (p : Option (Pass D E))
          → MaybeFine it p
          → ((next_it : SubscribeIterator D E)
              → Drains next_it.query next_it.position
              → Queued next_it
              → loop pool server listener table_name fuel n next_it ≡ some (more, it')
              → Outcome next_it more it')
          → after_pass n p ≡ some (more, it')
          → Outcome it more it'
      by_pass none fine ih h = absurd (cc (h))
      by_pass (some (return_ more' it'')) fine ih h =
          subst (λ r. Outcome it r.0 r.1) (same_pair (more', it'') (more, it') h) fine
      by_pass (some (again it'')) (e, same, q) ih h =
          let still =
            subst (Drains it''.query) (sym e)
              (subst (λ x. Drains x it.position) (sym same) drains) in
          moved it it'' it' more e (ih it'' still q h)

  -- The outcome of Next, from that of its drains.
  pub next-Outcome_of_Drains :
      (n : ℕ) (it it' : SubscribeIterator D E) (more : Bool)
      → Drains it.query it.position
      → Queued it
      → next pool server listener table_name fuel n it ≡ some (more, it')
      → Outcome it more it'
  unfolding next
  next-Outcome_of_Drains n it it' more drains q h = by_guard (is_some it.error || it.closed) refl h
    where
      by_guard :
          (b : Bool)
          → (is_some it.error || it.closed) ≡ b
          → (if b then some (false, it) else loop pool server listener table_name fuel n it)
            ≡ some (more, it')
          → Outcome it more it'
      by_guard true e h =
          subst (λ r. Outcome it r.0 r.1) (same_pair (false, it) (more, it') h) (refl, q, inl e)
      by_guard false e h = loop-Outcome n it it' more drains q h
