-- ===== src/Memory/Subscription/Delivery.antt =====
-- Every matching event is delivered once and in order, and no append is missed by a waiting reader.
use dcb_event_store_pg_go.Base.{
  ℕ, ◌≡◌, refl, sym, ap, ◌∙◌, ◌⊎◌, inl, inr, true, false, List, [], ◌∷◌, ◌++◌, append-nil,
  append_assoc, Option, some,
}
use mathlib.Core.Path.{subst}
use mathlib.Core.List.{head-eq_of_cons-eq}
use dcb_event_store_pg_go.EventStore.Event.{SequencedEvent}
use dcb_event_store_pg_go.EventStore.Position.{SequencePosition}
use dcb_event_store_pg_go.EventStore.Query.{Query}
use dcb_event_store_pg_go.Memory.Position.{last_from}
use dcb_event_store_pg_go.Memory.Store.{Store, is_closed}
use dcb_event_store_pg_go.Memory.Store.Contract.{IsValid}
use dcb_event_store_pg_go.Memory.Subscription.{
  SubscribeIterator, deliver, again, round, round_from, refill, start_position,
}
use dcb_event_store_pg_go.Memory.Subscription.System.{waiting, System, Reach, start_system}
use dcb_event_store_pg_go.Memory.Subscription.Undelivered.{
  undelivered, Splits, matching_events-undelivered,
}
use dcb_event_store_pg_go.Memory.Subscription.Invariant.{Sound, Reach-Sound}

module _ (s : Store) (valid : IsValid s) (query : Query) (after : Option SequencePosition) where
  start-Sound : Sound query (start_position after) (start_system s query after)
  start-Sound = record {
    valid = valid;
    same_query = refl;
    place = refl;
    done = refl;
    ahead = refl;
    quiet = λ ch w. absurd (cc);
  }

  module _ {t : System} (r : Reach (start_system s query after) t) where
    -- From a valid store on, with room for each batch: however a subscriber and appends are interleaved, what was delivered, what is pending and what
    -- lies behind that are, in this order, the stored events that match the query behind the start:
    -- none is lost, repeated or out of order.
    pub delivered_in_order :
        undelivered query (start_position after) t.store.events
        ≡ t.delivered
          ++ t.it.pending
          ++ undelivered query (last_from t.it.position t.it.pending) t.store.events
    delivered_in_order =
        let v = Reach-Sound query (start_position after) start-Sound r in
        v.done
        ∙ ap (λ q. t.delivered ++ undelivered query q t.store.events) (sym v.place)
        ∙ ap (◌++◌ t.delivered) v.ahead
        ∙ sym (append_assoc t.delivered t.it.pending _)

    -- From a valid store on, with room for each batch: a reader that waits on a channel which is not closed has delivered every stored event that
    -- matches, and waits on the channel that the next append closes.
    pub no_missed_append :
        (ch : ℕ)
        → t.phase ≡ waiting ch
        → is_closed t.store ch ≡ false
        → (ch ≡ t.store.broadcast)
          × (undelivered query (start_position after) t.store.events ≡ t.delivered)
    no_missed_append ch w o =
        let v = Reach-Sound query (start_position after) start-Sound r in settle v (v.quiet ch w)
      where
        settle :
            Sound query (start_position after) t
            → (is_closed t.store ch ≡ true)
              ⊎ ((ch ≡ t.store.broadcast)
                  × (t.it.pending ≡ [])
                  × (undelivered query t.it.position t.store.events ≡ []))
            → (ch ≡ t.store.broadcast)
              × (undelivered query (start_position after) t.store.events ≡ t.delivered)
        settle v (inl c) = absurd (cc)
        settle v (inr (e, _, due)) = (
          e,
          v.done
              ∙ ap (λ q. t.delivered ++ undelivered query q t.store.events) (sym v.place)
              ∙ ap (◌++◌ t.delivered) due
              ∙ append-nil t.delivered,
        )

    -- From a valid store on, with room for each batch: a reader at the head of its loop with an undelivered event returns the first one within two
    -- rounds: at once from what is pending, or after one refill.
    pub next_delivers :
        (se : SequencedEvent) (rest : List SequencedEvent)
        → undelivered query t.it.position t.store.events ≡ se ∷ rest
        → ((it : SubscribeIterator) × (round t.store t.it ≡ deliver it) × (it.current ≡ some se))
          ⊎ ((it it' : SubscribeIterator) × (round t.store t.it ≡ again it)
              × (round t.store it ≡ deliver it')
              × (it'.current ≡ some se))
    unfolding round round_from refill
    next_delivers se rest due =
        by_pending (Reach-Sound query (start_position after) start-Sound r) t.it.pending refl
      where
        by_pending :
            Sound query (start_position after) t
            → (pending : List SequencedEvent) → t.it.pending ≡ pending
            → ((it : SubscribeIterator) × (round t.store t.it ≡ deliver it)
                × (it.current ≡ some se))
              ⊎ ((it it' : SubscribeIterator) × (round t.store t.it ≡ again it)
                  × (round t.store it ≡ deliver it')
                  × (it'.current ≡ some se))
        by_pending v [] p = inr (
          record t.it { pending = se ∷ rest },
          record t.it { current = some se; pending = rest; position = se.position },
          ap (round_from t.store t.it) p
              ∙ ap (refill t.store t.it) (
                  matching_events-undelivered t.it.query t.store.events t.it.position
                  ∙ ap (λ q. undelivered q t.it.position t.store.events) v.same_query
                  ∙ due),
          refl,
          refl,
        )
        by_pending v (x ∷ xs) p =
            let first : x ≡ se =
              head-eq_of_cons-eq (
                sym (subst (λ ys. Splits query t.it.position ys t.store.events) p v.ahead) ∙ due) in
            inl (
              record t.it { current = some x; pending = xs; position = x.position },
              ap (round_from t.store t.it) p,
              ap some first,
            )
