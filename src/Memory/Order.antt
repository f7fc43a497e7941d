-- ===== src/Memory/Order.antt =====
-- Events in ascending order of their positions.
use dcb_event_store_pg_go.Base.{
  ℕ, ◌≤◌, ◌<◌, ◌≡◌, refl, Bool, List, [], ◌∷◌, ◌++◌, arith, select, Bool-cases, inl, inr, Memᴰ,
  take, zero, suc,
}
use dcb_event_store_pg_go.Base.Memᴰ
use mathlib.Core.List.{reverse, reverse-append}
use dcb_event_store_pg_go.EventStore.Event.{SequencedEvent}
use dcb_event_store_pg_go.EventStore.Position.{SequencePosition, sequence_position_initial}
use dcb_event_store_pg_go.Memory.Position.{last_from}

-- The positions exceed `p` and ascend strictly.
abbrev pub Above : ℕ → List SequencedEvent → Type 0
Above p [] = Unit
Above p (se ∷ events) = (p < se.position.value) × Above se.position.value events

-- The positions ascend strictly.
abbrev pub Ascending : List SequencedEvent → Type 0
Ascending [] = Unit
Ascending (se ∷ events) = Above se.position.value events

-- The positions descend strictly.
abbrev pub Descending : List SequencedEvent → Type 0
Descending [] = Unit
Descending (se ∷ events) =
    ((other : SequencedEvent) → Memᴰ other events → other.position.value < se.position.value)
    × Descending events

pub Above-weaken :
    (p q : ℕ) (events : List SequencedEvent) → p ≤ q → Above q events → Above p events
Above-weaken p q [] h a = tt
Above-weaken p q (se ∷ events) h a = (omega arith, a.1)

pub Ascending-of_Above : (p : ℕ) (events : List SequencedEvent) → Above p events → Ascending events
Ascending-of_Above p [] a = tt
Ascending-of_Above p (se ∷ events) a = a.1

pub lt_of_Above :
    (p : ℕ) (events : List SequencedEvent) {se : SequencedEvent}
    → Above p events
    → Memᴰ se events
    → p < se.position.value
lt_of_Above p [] a m = elim m [ ]
lt_of_Above p (x ∷ events) a (Memᴰ.head e) = ground arith
lt_of_Above p (x ∷ events) a (Memᴰ.tail m) =
    omega (arith, lt_of_Above x.position.value events a.1 m)

pub Above-select :
    (test : SequencedEvent → Bool) (p : ℕ) (events : List SequencedEvent)
    → Above p events
    → Above p (select test events)
Above-select test p [] a = tt
Above-select test p (se ∷ events) (h, a) = elim (Bool-cases (test se)) [
  | inl e ↦ rw e (h, Above-select test se.position.value events a)
  | inr e ↦ rw e (
      Above-weaken p se.position.value _ (omega arith)
        (Above-select test se.position.value events a))
]

pub Ascending-select :
    (test : SequencedEvent → Bool) (events : List SequencedEvent)
    → Ascending events
    → Ascending (select test events)
Ascending-select test [] a = tt
Ascending-select test (se ∷ events) a = elim (Bool-cases (test se)) [
  | inl e ↦ rw e (Above-select test se.position.value events a)
  | inr e ↦
      rw e (Ascending-of_Above se.position.value _ (Above-select test se.position.value events a))
]

mem-concat :
    {se x : SequencedEvent} (events : List SequencedEvent)
    → Memᴰ se (events ++ x ∷ [])
    → Memᴰ se (x ∷ events)
mem-concat [] m = m
mem-concat {se} {x} (y ∷ events) (Memᴰ.head e) = Memᴰ.tail (Memᴰ.head e)
mem-concat {se} {x} (y ∷ events) (Memᴰ.tail m) = skip (mem-concat events m)
  where
    skip : Memᴰ se (x ∷ events) → Memᴰ se (x ∷ y ∷ events)
    skip (Memᴰ.head e) = Memᴰ.head e
    skip (Memᴰ.tail m') = Memᴰ.tail (Memᴰ.tail m')

reverse_step :
    (se : SequencedEvent) (events : List SequencedEvent)
    → reverse (se ∷ events) ≡ reverse events ++ se ∷ []
reverse_step se events = reverse-append (se ∷ []) events

pub mem_of_mem-reverse :
    {se : SequencedEvent} (events : List SequencedEvent) → Memᴰ se (reverse events) → Memᴰ se events
mem_of_mem-reverse [] m = m
mem_of_mem-reverse {se} (x ∷ events) m =
    step (mem_of_mem-reverse events) (mem-concat (reverse events) (rw (reverse_step x events) at m))
  where
    step :
        (Memᴰ se (reverse events) → Memᴰ se events)
        → Memᴰ se (x ∷ reverse events)
        → Memᴰ se (x ∷ events)
    step below (Memᴰ.head e) = Memᴰ.head e
    step below (Memᴰ.tail m') = Memᴰ.tail (below m')

pub mem-reverse_events :
    {se : SequencedEvent} (events : List SequencedEvent) → Memᴰ se events → Memᴰ se (reverse events)
mem-reverse_events [] m = m
mem-reverse_events (x ∷ events) (Memᴰ.head e) =
    rw (reverse_step x events) (Memᴰ.append_right (reverse events) (Memᴰ.head e))
mem-reverse_events (x ∷ events) (Memᴰ.tail m) =
    rw (reverse_step x events) (Memᴰ.append_left (x ∷ []) (mem-reverse_events events m))

Descending-concat :
    (events : List SequencedEvent) (x : SequencedEvent)
    → Descending events
    → ((se : SequencedEvent) → Memᴰ se events → x.position.value < se.position.value)
    → Descending (events ++ x ∷ [])
Descending-concat [] x d low = ((λ se m. elim m [ ]), tt)
Descending-concat (y ∷ events) x (high, d) low = (
  (λ se m. under (mem-concat events m)),
  Descending-concat events x d (λ se m. low se (Memᴰ.tail m)),
)
  where
    under : {se : SequencedEvent} → Memᴰ se (x ∷ events) → se.position.value < y.position.value
    under (Memᴰ.head e) = rw e (low y (Memᴰ.head refl))
    under {se} (Memᴰ.tail m) = high se m

pub Descending-reverse :
    (events : List SequencedEvent) → Ascending events → Descending (reverse events)
Descending-reverse [] a = tt
Descending-reverse (x ∷ events) a = rw (reverse_step x events) (
    Descending-concat (reverse events) x
      (Descending-reverse events (Ascending-of_Above x.position.value events a))
      (λ se m. lt_of_Above x.position.value events a (mem_of_mem-reverse events m)))

Above-take : (p n : ℕ) (events : List SequencedEvent) → Above p events → Above p (take n events)
Above-take p zero events a = tt
Above-take p (suc n) [] a = tt
Above-take p (suc n) (se ∷ events) a = (a.0, Above-take se.position.value n events a.1)

pub Ascending-take :
    (n : ℕ) (events : List SequencedEvent) → Ascending events → Ascending (take n events)
Ascending-take zero events a = tt
Ascending-take (suc n) [] a = tt
Ascending-take (suc n) (se ∷ events) a = Above-take se.position.value n events a

mem_of_mem-take :
    (n : ℕ) (events : List SequencedEvent) {se : SequencedEvent}
    → Memᴰ se (take n events)
    → Memᴰ se events
mem_of_mem-take zero events m = elim m [ ]
mem_of_mem-take (suc n) [] m = m
mem_of_mem-take (suc n) (x ∷ events) (Memᴰ.head e) = Memᴰ.head e
mem_of_mem-take (suc n) (x ∷ events) (Memᴰ.tail m) = Memᴰ.tail (mem_of_mem-take n events m)

pub Descending-take :
    (n : ℕ) (events : List SequencedEvent) → Descending events → Descending (take n events)
Descending-take zero events d = tt
Descending-take (suc n) [] d = tt
Descending-take (suc n) (se ∷ events) (low, d) =
    ((λ other m. low other (mem_of_mem-take n events m)), Descending-take n events d)

Above-append_last :
    (p : SequencePosition) (events new_events : List SequencedEvent)
    → Above p.value events
    → Above (last_from p events).value new_events
    → Above p.value (events ++ new_events)
Above-append_last p [] new_events a b = b
Above-append_last p (se ∷ events) new_events a b =
    (a.0, Above-append_last se.position events new_events a.1 b)

-- Events behind the last position may follow.
pub Ascending-append_last :
    (events new_events : List SequencedEvent)
    → Ascending events
    → Above (last_from sequence_position_initial events).value new_events
    → Ascending (events ++ new_events)
Ascending-append_last [] new_events a b = Ascending-of_Above 0 new_events b
Ascending-append_last (se ∷ events) new_events a b =
    Above-append_last se.position events new_events a b
