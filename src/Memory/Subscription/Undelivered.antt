-- ===== src/Memory/Subscription/Undelivered.antt =====
-- The events that match a query behind a position, and how this list splits at an event of it.
use dcb_event_store_pg_go.Base.{
  ℕ, ◌<◌, ◌≤◌, ◌≡◌, refl, sym, ap, ◌∙◌, Bool, true, false, ◌&&◌, List, [], ◌∷◌, ◌++◌, append_assoc,
  append-nil, arith, select, select-append, Bool-cases, inl, inr, ltb, Memᴰ, mem_of_mem-select,
}
use dcb_event_store_pg_go.Base.Memᴰ
use mathlib.Core.Path.{subst, ap₂}
use mathlib.Core.List.{tail-eq_of_cons-eq, head-eq_of_cons-eq}
use dcb_event_store_pg_go.EventStore.Event.{SequencedEvent}
use dcb_event_store_pg_go.EventStore.Position.{SequencePosition, is_after}
use dcb_event_store_pg_go.EventStore.Query.{Query}
use dcb_event_store_pg_go.Memory.Matching.{
  matches_query, matching_events, limited, in_order, in_range,
}
use dcb_event_store_pg_go.Memory.Matching.Reading.{matching_events-select}
use dcb_event_store_pg_go.Memory.Order.{
  Above, Ascending, lt_of_Above, Above-weaken, Ascending-of_Above,
}
use dcb_event_store_pg_go.Memory.Position.{last_from, last_position}
use dcb_event_store_pg_go.Memory.Subscription.{behind}

module _ (query : Query) where
  abbrev pub is_due : SequencePosition → SequencedEvent → Bool
  is_due p se = ltb p.value se.position.value && matches_query query se.event

  -- The stored events behind `p` that match the query.
  abbrev pub undelivered : SequencePosition → List SequencedEvent → List SequencedEvent
  undelivered p events = select (is_due p) events

  -- What a refill reads.
  pub matching_events-undelivered :
      (events : List SequencedEvent) (p : SequencePosition)
      → matching_events events query (behind p) ≡ undelivered p events
  unfolding limited in_order in_range is_after
  matching_events-undelivered events p = matching_events-select events query (behind p)

  -- `xs` are the first events behind `p`, and the others are those behind the last of `xs`.
  abbrev pub Splits : SequencePosition → List SequencedEvent → List SequencedEvent → Type 0
  Splits p xs events = undelivered p events ≡ xs ++ undelivered (last_from p xs) events

  -- Of ascending events above `p`, a later start drops nothing.
  undelivered-Above :
      (p q : SequencePosition) (events : List SequencedEvent)
      → Above p.value events
      → Above q.value events
      → undelivered p events ≡ undelivered q events
  undelivered-Above p q [] a b = refl
  undelivered-Above p q (se ∷ events) a b = ground (
    arith,
    undelivered-Above p q events (Above-weaken p.value se.position.value events (omega arith) a.1)
        (Above-weaken q.value se.position.value events (omega arith) b.1),
  )

  last-ge :
      (q : SequencePosition) (events : List SequencedEvent)
      → Above q.value events
      → q.value ≤ (last_from q events).value
  last-ge q [] a = omega arith
  last-ge q (x ∷ events) a = omega (arith, last-ge x.position events a.1)

  mem_first :
      (p : SequencePosition) (se : SequencedEvent) (rest events : List SequencedEvent)
      → undelivered p events ≡ se ∷ rest
      → Memᴰ se events
  mem_first p se rest events h =
      (mem_of_mem-select (is_due p) events {x = se} (rw h (Memᴰ.head refl))).0

  -- The events behind the first due event are the due ones behind it.
  undelivered-tail :
      (p : SequencePosition) (se : SequencedEvent) (rest events : List SequencedEvent)
      → Ascending events
      → undelivered p events ≡ se ∷ rest
      → undelivered se.position events ≡ rest
  undelivered-tail p se rest [] a h = absurd (ground arith)
  undelivered-tail p se rest (x ∷ events) a h = elim (Bool-cases (is_due p x)) [
    | inl due ↦
        let e : x ≡ se = head-eq_of_cons-eq (rw due at h) in
        let t : undelivered p events ≡ rest = tail-eq_of_cons-eq (rw due at h) in
        let lt : p.value < x.position.value = ground arith in
        let self : is_due x.position x ≡ false = ground arith in
        let rest_of : undelivered x.position events ≡ rest =
          undelivered-Above x.position p events a
            (Above-weaken p.value x.position.value events (omega arith) a)
          ∙ t in
        subst (λ z. undelivered z.position (x ∷ events) ≡ rest) e (rw self rest_of)
    | inr skip ↦
        let t : undelivered p events ≡ se ∷ rest = rw skip at h in
        let lt : x.position.value < se.position.value =
          lt_of_Above x.position.value events a (mem_first p se rest events t) in
        ground (
          arith,
          undelivered-tail p se rest events (Ascending-of_Above x.position.value events a) t,
        )
  ]

  -- Once the events `xs` at the front are delivered, the others are those behind the last of them.
  pub Splits-of_eq :
      (p : SequencePosition) (xs ys events : List SequencedEvent)
      → Ascending events
      → undelivered p events ≡ xs ++ ys
      → undelivered (last_from p xs) events ≡ ys
  Splits-of_eq p [] ys events a h = h
  Splits-of_eq p (x ∷ xs) ys events a h =
      Splits-of_eq x.position xs ys events a (undelivered-tail p x (xs ++ ys) events a h)

  -- A position of a delivered event is not behind the last stored one.
  last_from-le :
      (p : SequencePosition) (xs events : List SequencedEvent) (bound : ℕ)
      → p.value ≤ bound
      → ((se : SequencedEvent) → Memᴰ se events → se.position.value ≤ bound)
      → ((se : SequencedEvent) → Memᴰ se xs → Memᴰ se events)
      → (last_from p xs).value ≤ bound
  last_from-le p [] events bound h low sub = h
  last_from-le p (x ∷ xs) events bound h low sub =
      last_from-le x.position xs events bound (low x (sub x (Memᴰ.head refl))) low
        (λ se m. sub se (Memᴰ.tail m))

  le_last :
      (q : SequencePosition) (events : List SequencedEvent) {se : SequencedEvent}
      → Above q.value events
      → Memᴰ se events
      → se.position.value ≤ (last_from q events).value
  le_last q [] a m = elim m [ ]
  le_last q (x ∷ events) a (Memᴰ.head e) = rw e (last-ge x.position events a.1)
  le_last q (x ∷ events) a (Memᴰ.tail m) = le_last x.position events a.1 m

  -- Events that are appended behind the last stored one come last among the undelivered.
  pub Splits-append :
      (p : SequencePosition) (xs events new_events : List SequencedEvent)
      → Ascending events
      → Above (last_position events).value new_events
      → Splits p xs events
      → Splits p xs (events ++ new_events)
  unfolding last_position
  Splits-append p [] events new_events a b h = refl
  Splits-append p (x ∷ xs) events new_events a b h =
      let last : SequencePosition = last_position events in
      let q : SequencePosition = last_from x.position xs in
      let stored : (se : SequencedEvent)
          → Memᴰ se (x ∷ xs)
          → Memᴰ se events × (is_due p se ≡ true) =
        λ se m.
          mem_of_mem-select (is_due p) events (rw h (Memᴰ.append_left (undelivered q events) m)) in
      let q_le : q.value ≤ last.value =
        last_from-le x.position xs events last.value
          (bound events a x (stored x (Memᴰ.head refl)).0) (λ se. bound events a se)
          (λ se m. (stored se (Memᴰ.tail m)).0) in
      let p_lt : p.value < x.position.value = ground (arith, (stored x (Memᴰ.head refl)).1) in
      let p_le : p.value ≤ last.value =
        omega (arith, bound events a x (stored x (Memᴰ.head refl)).0) in
      select-append (is_due p) events new_events
      ∙ ap₂ ◌++◌ h (
          undelivered-Above p q new_events (Above-weaken p.value last.value new_events p_le b)
            (Above-weaken q.value last.value new_events q_le b))
      ∙ append_assoc (x ∷ xs) (undelivered q events) (undelivered q new_events)
      ∙ ap (◌++◌ (x ∷ xs)) (sym (select-append (is_due q) events new_events))
    where
      bound :
          (events : List SequencedEvent)
          → Ascending events
          → (se : SequencedEvent) → Memᴰ se events
          → se.position.value ≤ (last_position events).value
      bound [] a se m = elim m [ ]
      bound (y ∷ events) a se (Memᴰ.head e) = rw e (last-ge y.position events a)
      bound (y ∷ events) a se (Memᴰ.tail m) = le_last y.position events a m

  last_from-append :
      (p : SequencePosition) (xs ys : List SequencedEvent)
      → last_from p (xs ++ ys) ≡ last_from (last_from p xs) ys
  last_from-append p [] ys = refl
  last_from-append p (x ∷ xs) ys = last_from-append x.position xs ys

  pub Splits-intro :
      (p : SequencePosition) (xs ys events : List SequencedEvent)
      → Ascending events
      → undelivered p events ≡ xs ++ ys
      → Splits p xs events
  Splits-intro p xs ys events a h = h ∙ ap (◌++◌ xs) (sym (Splits-of_eq p xs ys events a h))

  -- One event goes from the pending ones to the delivered ones.
  pub Splits-deliver :
      (start : SequencePosition) (delivered rest : List SequencedEvent) (x : SequencedEvent)
      (events : List SequencedEvent)
      → Ascending events
      → Splits start delivered events
      → Splits (last_from start delivered) (x ∷ rest) events
      → (last_from start (delivered ++ x ∷ []) ≡ x.position)
        × Splits start (delivered ++ x ∷ []) events
        × Splits x.position rest events
  Splits-deliver start delivered rest x events a done ahead =
      let left : List SequencedEvent = rest ++ undelivered (last_from x.position rest) events in
      (
        last_from-append start delivered (x ∷ []),
        Splits-intro start (delivered ++ x ∷ []) left events a
            (done ∙ ap (◌++◌ delivered) ahead ∙ sym (append_assoc delivered (x ∷ []) left)),
        Splits-of_eq (last_from start delivered) (x ∷ []) left events a ahead,
      )

  -- All undelivered events become pending.
  pub Splits-refill :
      (p : SequencePosition) (events : List SequencedEvent)
      → Ascending events
      → Splits p (undelivered p events) events
  Splits-refill p events a = Splits-intro p (undelivered p events) [] events a (sym (append-nil _))
