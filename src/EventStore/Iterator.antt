-- ===== src/EventStore/Iterator.antt =====
-- eventstore/event_iterator.go: the contract of an iterator with states in `S` and errors in `E`,
-- and the two loops over one. `event` is `none` where the code's `Event` panics.
pub mod Loops
use dcb_event_store_pg_go.Base.{
  ℕ, zero, suc, Bool, true, false, List, [], ◌∷◌, ◌++◌, Option, none, some, if◌then◌else◌,
}
use mathlib.Core.Option
use dcb_event_store_pg_go.EventStore.Event.{SequencedEvent}

pub record EventIterator (E : Type 0) (S : Type 0) : Type 0 where
  pub next : S → Bool × S
  pub event : S → Option SequencedEvent
  pub failure : S → Option E
  pub close : S → S

module _ {E S : Type 0} (it : EventIterator E S) where
  -- The loop of `Collect`. `none` is a panic of `Event`, or fuel that ran out.
  unfoldable pub drain : ℕ → S → List SequencedEvent → Option (S × List SequencedEvent)
  drain zero s events = none
  drain (suc f) s events =
      let (more, s') = it.next s in
      elim more [
        | false ↦ some (s', events)
        | true ↦ elim (it.event s') [ none ↦ none | some se ↦ drain f s' (events ++ se ∷ []) ]
      ]

  -- `Collect`: the events, the error, and the state behind the deferred `Close`.
  unfoldable pub collect : ℕ → S → Option (List SequencedEvent × Option E × S)
  unfolding drain
  collect f s = Option.map (λ r. (r.1, it.failure r.0, it.close r.0)) (drain f s [])

  module _ {A : Type 0} (yield_event : A → SequencedEvent → A × Bool)
      (yield_error : A → E → A) where
    -- The end of `All`: an error is yielded with a zero event.
    abbrev pub report : A → Option E → A
    report a none = a
    report a (some e) = yield_error a e

    -- The loop of `All` over a consumer with states in `A`, which says whether it goes on.
    unfoldable pub visit : ℕ → S → A → Option (A × S)
    visit zero s a = none
    visit (suc f) s a =
        let (more, s') = it.next s in
        elim more [
          | false ↦ some (report a (it.failure s'), it.close s')
          | true ↦ elim (it.event s') [
            | none ↦ none
            | some se ↦
                let (a', go_on) = yield_event a se in
                elim go_on [ true ↦ visit f s' a' | false ↦ some (a', it.close s') ]
          ]
        ]
