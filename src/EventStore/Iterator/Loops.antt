-- ===== src/EventStore/Iterator/Loops.antt =====
-- One round of the loops over an iterator.
use dcb_event_store_pg_go.Base.{
  ℕ, zero, suc, ◌+◌, ◌≤◌, ◌≡◌, refl, sym, ap, ◌∙◌, inl, inr, Bool, true, false, List, [], ◌∷◌, ◌++◌,
  Option, none, some, Option-cases, arith,
}
use mathlib.Core.Option
use dcb_event_store_pg_go.EventStore.Event.{SequencedEvent}
use dcb_event_store_pg_go.EventStore.Iterator.{EventIterator, drain, collect, visit, report}

-- The parts of an equation between pairs.
fst_of : {A B : Type 0} {r : A × B} {a : A} {b : B} → r ≡ (a, b) → r.0 ≡ a
fst_of h = λ i. (h i).0

snd_of : {A B : Type 0} {r : A × B} {a : A} {b : B} → r ≡ (a, b) → r.1 ≡ b
snd_of h = λ i. (h i).1

module _ {E S : Type 0} (it : EventIterator E S) (f : ℕ) (s s' : S) where
  pub drain_step :
      (se : SequencedEvent) (out : List SequencedEvent)
      → it.next s ≡ (true, s')
      → it.event s' ≡ some se
      → drain it (suc f) s out ≡ drain it f s' (out ++ se ∷ [])
  unfolding drain
  drain_step se out h k =
      rw (fst_of h, drain, ap it.event (snd_of h) ∙ k)
        (ap (λ x. drain it f x (out ++ se ∷ [])) (snd_of h))

  pub drain_stop :
      (out : List SequencedEvent)
      → it.next s ≡ (false, s')
      → drain it (suc f) s out ≡ some (s', out)
  unfolding drain
  drain_stop out h = rw (fst_of h, drain) (rw (snd_of h) refl)

  module _ {A : Type 0} (yield_event : A → SequencedEvent → A × Bool) (yield_error : A → E → A)
      (a : A) where
    pub visit_step :
        (se : SequencedEvent)
        → it.next s ≡ (true, s')
        → it.event s' ≡ some se
        → (yield_event a se).1 ≡ true
        → visit it yield_event yield_error (suc f) s a
          ≡ visit it yield_event yield_error f s' (yield_event a se).0
    unfolding visit
    visit_step se h k go =
        rw (fst_of h, visit, ap it.event (snd_of h) ∙ k, go)
          (ap (λ x. visit it yield_event yield_error f x (yield_event a se).0) (snd_of h))

    pub visit_break :
        (se : SequencedEvent)
        → it.next s ≡ (true, s')
        → it.event s' ≡ some se
        → (yield_event a se).1 ≡ false
        → visit it yield_event yield_error (suc f) s a ≡ some ((yield_event a se).0, it.close s')
    unfolding visit
    visit_break se h k go =
        rw (fst_of h, visit, ap it.event (snd_of h) ∙ k, go)
          (ap (λ x. some ((yield_event a se).0, it.close x)) (snd_of h))

    pub visit_stop :
        it.next s ≡ (false, s')
        → visit it yield_event yield_error (suc f) s a
          ≡ some (report it yield_event yield_error a (it.failure s'), it.close s')
    unfolding visit
    visit_stop h = rw (fst_of h, visit) (rw (snd_of h) refl)

module _ {E S : Type 0} (it : EventIterator E S) where
  -- A round of the loop of `Collect`, at what `Next` returned, over the rounds behind it.
  abbrev round_of :
      (S → List SequencedEvent → Option (S × List SequencedEvent))
      → List SequencedEvent
      → Bool × S
      → Option (S × List SequencedEvent)
  round_of later out r =
      let (more, s') = r in
      elim more [
        | false ↦ some (s', out)
        | true ↦ elim (it.event s') [ none ↦ none | some se ↦ later s' (out ++ se ∷ []) ]
      ]

  round_more :
      (f g : S → List SequencedEvent → Option (S × List SequencedEvent)) (out : List SequencedEvent)
      (r : Bool × S) {end : S × List SequencedEvent}
      → ((s : S) (out : List SequencedEvent) → f s out ≡ some end → g s out ≡ some end)
      → round_of f out r ≡ some end
      → round_of g out r ≡ some end
  round_more f g out (false, s') more h = h
  round_more f g out (true, s') {end} more h = by_event (it.event s') h
    where
      by_event :
          (e : Option SequencedEvent)
          → ◌≡◌ {A = Option (S × List SequencedEvent)}
              (elim e [ none ↦ none | some se ↦ f s' (out ++ se ∷ []) ])
              (some end)
          → ◌≡◌ {A = Option (S × List SequencedEvent)}
              (elim e [ none ↦ none | some se ↦ g s' (out ++ se ∷ []) ])
              (some end)
      by_event none h = absurd (cc (h))
      by_event (some se) h = more s' (out ++ se ∷ []) h

  -- More fuel does not change how the loop ends.
  drain_more :
      (f g : ℕ) (s : S) (out : List SequencedEvent) {end : S × List SequencedEvent}
      → f ≤ g
      → drain it f s out ≡ some end
      → drain it g s out ≡ some end
  unfolding drain
  drain_more zero g s out le h = absurd (cc (h))
  drain_more (suc f) zero s out le h = absurd (omega arith)
  drain_more (suc f) (suc g) s out le h =
      round_more (drain it f) (drain it g) out (it.next s)
        (λ s' out' k. drain_more f g s' out' (omega arith) k) h

  pub collect_unique :
      (f g : ℕ) (s : S) {a b : List SequencedEvent × Option E × S}
      → collect it f s ≡ some a
      → collect it g s ≡ some b
      → ◌≡◌ {A = Option (List SequencedEvent × Option E × S)} (some a) (some b)
  unfolding collect
  collect_unique f g s h k = elim (Option-cases (drain it f s [])) [
    | inl e ↦ absurd (cc (e, h))
    | inr (x, e) ↦ elim (Option-cases (drain it g s [])) [
      | inl e' ↦ absurd (cc (e', k))
      | inr (y, e') ↦
          let same : ◌≡◌ {A = Option (S × List SequencedEvent)} (some x) (some y) =
            sym (drain_more f (f + g) s [] (omega arith) e)
            ∙ drain_more g (f + g) s [] (omega arith) e' in
          sym h ∙ ap (Option.map (λ r. (r.1, it.failure r.0, it.close r.0))) (e ∙ same ∙ sym e') ∙ k
    ]
  ]
