-- ===== src/EventStore/Query/Creation.antt =====
-- Which lists of items make a query.
use dcb_event_store_pg_go.Base.{ℕ, suc, ◌≡◌, ◌≢◌, refl, ◌↔◌, false, List, [], ◌∷◌, none, arith, ok}
use dcb_event_store_pg_go.EventStore.Query.{QueryItem, Query, first_untyped, query_from_items}

-- Every item names a type.
abbrev pub Typed : List QueryItem → Type 0
Typed [] = Unit
Typed (item ∷ items) = (item.types ≢ []) × Typed items

first_untyped-none : (i : ℕ) (items : List QueryItem) → first_untyped i items ≡ none → Typed items
unfolding first_untyped
first_untyped-none i [] h = tt
first_untyped-none i (item ∷ items) h =
    (ground arith, first_untyped-none (suc i) items (ground arith))

none-first_untyped : (i : ℕ) (items : List QueryItem) → Typed items → first_untyped i items ≡ none
unfolding first_untyped
none-first_untyped i [] t = refl
none-first_untyped i (item ∷ items) (h, t) = ground (arith, none-first_untyped (suc i) items t)

-- `QueryFromItems` succeeds exactly on a list that is not empty and whose items all name a type; the
-- query then has these items and does not match every event.
pub query_from_items_iff :
    (items : List QueryItem) (q : Query)
    → (query_from_items items ≡ ok q)
      ↔ ((items ≢ []) × Typed items × (q ≡ record { items = items; all_events = false }))
unfolding query_from_items
query_from_items_iff [] q = (λ h. absurd (ground arith), λ h. absurd (h.0 refl))
query_from_items_iff (item ∷ items) q = (sound, complete)
  where
    sound :
        query_from_items (item ∷ items) ≡ ok q
        → ((item ∷ items) ≢ [])
          × Typed (item ∷ items)
          × (q ≡ record { items = item ∷ items; all_events = false })
    sound h = ((λ n. cc), first_untyped-none 0 (item ∷ items) (ground arith), ground arith)

    complete :
        ((item ∷ items) ≢ [])
          × Typed (item ∷ items)
          × (q ≡ record { items = item ∷ items; all_events = false })
        → query_from_items (item ∷ items) ≡ ok q
    complete (n, t, e) = ground (arith, none-first_untyped 0 (item ∷ items) t)
