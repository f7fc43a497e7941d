-- ===== src/EventStore/Query.antt =====
-- eventstore/query.go. The fields of a `Query` are private to its package: the values that other
-- packages can make are those of `query_all`, of `query_from_items` and Go's zero value `zero_query`.
pub mod Creation
use dcb_event_store_pg_go.Base.{
  ℕ, suc, Bool, true, false, List, [], ◌∷◌, Option, none, some, Bytes, Result, ok, err,
}
use dcb_event_store_pg_go.EventStore.Tags.{Tags}

pub record QueryItem : Type 0 where
  pub types : List Bytes
  pub tags : Tags

pub record Query : Type 0 where
  pub items : List QueryItem
  pub all_events : Bool

pub data QueryError : Type 0 where
  empty_query : QueryError
  empty_types : ℕ → QueryError

abbrev pub query_all : Query
query_all = record { items = []; all_events = true }

abbrev pub zero_query : Query
zero_query = record { items = []; all_events = false }

-- The loop of `QueryFromItems`: the index of the first item with no type.
unfoldable pub first_untyped : ℕ → List QueryItem → Option ℕ
first_untyped i [] = none
first_untyped i (item ∷ items) = elim item.types [
  | [] ↦ some i
  | _ ∷ _ ↦ first_untyped (suc i) items
]

unfoldable pub query_of : List QueryItem → Option ℕ → Result QueryError Query
query_of items none = ok (record { items = items; all_events = false })
query_of items (some i) = err (empty_types i)

unfoldable pub query_from_items : List QueryItem → Result QueryError Query
unfolding query_of
query_from_items [] = err empty_query
query_from_items (item ∷ items) = query_of (item ∷ items) (first_untyped 0 (item ∷ items))

abbrev pub is_all : Query → Bool
is_all q = q.all_events
