-- ===== src/Memory/Iterator.antt =====
-- The iterator of `Read`, memory/iterator.go, `sliceIterator`: it hands out a fixed list.
use dcb_event_store_pg_go.Base.{
  ℕ, zero, suc, ◌+◌, ◌-◌, ◌<◌, ◌≤◌, ◌≡◌, refl, ◌∙◌, Bool, true, false, List, [], ◌∷◌, ◌++◌,
  append-nil, append_assoc, Option, none, some, if◌then◌else◌, leb, ltb, length, drop, get_elem?,
  arith, Bool-cases, inl, inr,
}
use dcb_event_store_pg_go.EventStore.Event.{SequencedEvent}
use dcb_event_store_pg_go.EventStore.Iterator.{EventIterator, drain, collect, visit}
use dcb_event_store_pg_go.EventStore.Iterator.Loops.{
  drain_step, drain_stop, visit_step, visit_break, visit_stop,
}
use native.Mathlib.Numerals.{add-one}

pub record SliceIterator : Type 0 where
  pub events : List SequencedEvent
  pub idx : ℕ

unfoldable pub slice_next : SliceIterator → Bool × SliceIterator
slice_next it =
    if leb (length it.events) it.idx then (false, it) else (true, record it { idx = it.idx + 1 })

-- `it.events[it.idx-1]`; before the first `Next` this is an index out of range.
unfoldable pub slice_event : SliceIterator → Option SequencedEvent
slice_event it = if ltb 0 it.idx then get_elem? it.events (it.idx - 1) else none

abbrev pub slice_iterator : EventIterator ⊥ SliceIterator
slice_iterator = record {
  next = slice_next;
  event = slice_event;
  failure = λ it. none;
  close = λ it. it;
}

-- The iterator that `Read` returns.
abbrev pub slice_start : List SequencedEvent → SliceIterator
slice_start events = record { events = events; idx = 0 }

-- What is left behind the index is there to be read.
pub drop_step :
    (events : List SequencedEvent) (i : ℕ)
    → i < length events
    → (se : SequencedEvent) × (get_elem? events i ≡ some se)
      × (drop i events ≡ se ∷ drop (suc i) events)
drop_step [] i h = absurd (omega arith)
drop_step (se ∷ events) zero h = (se, refl, refl)
drop_step (se ∷ events) (suc i) h = drop_step events i (omega arith)

pub drop_all : (events : List SequencedEvent) (i : ℕ) → length events ≤ i → drop i events ≡ []
drop_all [] zero h = refl
drop_all [] (suc i) h = refl
drop_all (se ∷ events) zero h = absurd (omega arith)
drop_all (se ∷ events) (suc i) h = drop_all events i (omega arith)

slice_step :
    (events : List SequencedEvent) (i : ℕ) (se : SequencedEvent)
    → i < length events
    → get_elem? events i ≡ some se
    → (slice_next (record { events = events; idx = i })
        ≡ (true, record { events = events; idx = i + 1 }))
      × (slice_event (record { events = events; idx = i + 1 }) ≡ some se)
unfolding slice_next slice_event
slice_step events i se h at = (ground arith, rw (back i) (ground arith))
  where
    back : (i : ℕ) → i + 1 - 1 ≡ i
    back i = omega arith

slice_end :
    (events : List SequencedEvent) (i : ℕ)
    → length events ≤ i
    → slice_next (record { events = events; idx = i })
      ≡ (false, record { events = events; idx = i })
unfolding slice_next
slice_end events i h = ground arith

slice-drain :
    (f : ℕ) (events : List SequencedEvent) (i : ℕ) (out : List SequencedEvent)
    → i ≤ length events
    → length events < f + i
    → drain slice_iterator f (record { events = events; idx = i }) out
      ≡ some (record { events = events; idx = length events }, out ++ drop i events)
slice-drain zero events i out le h = absurd (omega arith)
slice-drain (suc f) events i out le h = elim (Bool-cases (ltb i (length events))) [
  | inl more ↦
      let (se, at, left) = drop_step events i (ground arith) in
      let (stepped, read) = slice_step events i se (ground arith) at in
      let rest = slice-drain f events (i + 1) (out ++ se ∷ []) (ground arith) (omega arith) in
      drain_step slice_iterator f _ _ se out stepped read
      ∙ rest
      ∙ rw (left, append_assoc, add-one) refl
  | inr stop ↦
      let e : i ≡ length events = ground arith in
      drain_stop slice_iterator f _ _ out (slice_end events i (ground arith))
      ∙ rw (e, drop_all events (length events) (omega arith), append-nil) refl
]

-- `Collect` of the iterator of a read gives the events that the read chose, all and in order, with
-- no error; one more call of `Next` than there are events ends it.
pub collect-slice_start :
    (f : ℕ) (events : List SequencedEvent)
    → length events < f
    → collect slice_iterator f (slice_start events)
      ≡ some (events, none, record { events = events; idx = length events })
unfolding collect
collect-slice_start f events h = rw (slice-drain f events 0 [] (omega arith) (omega arith)) refl

-- A consumer over a list: it takes events until it declines to go on.
abbrev pub consume : {A : Type 0} → (A → SequencedEvent → A × Bool) → List SequencedEvent → A → A
consume yield_event [] a = a
consume yield_event (se ∷ events) a =
    let (a', go_on) = yield_event a se in
    elim go_on [ true ↦ consume yield_event events a' | false ↦ a' ]

module _ {A : Type 0} (yield_event : A → SequencedEvent → A × Bool) (yield_error : A → ⊥ → A) where
  slice-visit :
      (f : ℕ) (events : List SequencedEvent) (i : ℕ) (a : A)
      → i ≤ length events
      → length events < f + i
      → (it : SliceIterator) × (visit slice_iterator yield_event yield_error f
            (record { events = events; idx = i })
            a
          ≡ some (consume yield_event (drop i events) a, it))
  slice-visit zero events i a le h = absurd (omega arith)
  slice-visit (suc f) events i a le h = elim (Bool-cases (ltb i (length events))) [
    | inl more ↦
        let (se, at, left) = drop_step events i (ground arith) in
        let (stepped, read) = slice_step events i se (ground arith) at in
        elim (Bool-cases (yield_event a se).1) [
          | inl go ↦
              let (it, rest) =
                slice-visit f events (i + 1) (yield_event a se).0 (ground arith) (omega arith) in
              (
                it,
                visit_step slice_iterator f _ _ yield_event yield_error a se stepped read go
                    ∙ rest
                    ∙ rw (left, consume, go, add-one) refl,
              )
          | inr stop ↦ (
            record { events = events; idx = i + 1 },
            visit_break slice_iterator f _ _ yield_event yield_error a se stepped read stop
                ∙ rw (left, consume, stop) refl,
          )
        ]
    | inr stop ↦ (
      record { events = events; idx = i },
      visit_stop slice_iterator f _ _ yield_event yield_error a (slice_end events i (ground arith))
          ∙ rw (drop_all events i (ground arith)) refl,
    )
  ]

  -- `All` over the iterator of a read passes the consumer the events in order until it breaks off.
  pub visit-slice_start :
      (f : ℕ) (events : List SequencedEvent) (a : A)
      → length events < f
      → (it : SliceIterator) × (visit slice_iterator yield_event yield_error f
            (slice_start events)
            a
          ≡ some (consume yield_event events a, it))
  visit-slice_start f events a h = slice-visit f events 0 a (omega arith) (omega arith)
