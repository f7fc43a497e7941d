-- ===== src/Postgres/ReadSql/Asked.antt =====
-- What the filter of an item asks of an event, and that its evaluation asks the same.
use dcb_event_store_pg_go.Base.{
  ℕ, ◌+◌, ◌-◌, ◌≡◌, ◌≢◌, refl, sym, ap, ◌∙◌, Bool, true, ◌&&◌, ◌||◌, List, [], ◌∷◌, ◌++◌, map,
  append_assoc, Option, some, Bytes, length, length-append, arith, eq_bytes, any, get_elem?,
}
use mathlib.Core.Path.{subst}
use dcb_event_store_pg_go.EventStore.Event.{Event, SequencedEvent}
use dcb_event_store_pg_go.EventStore.Query.{QueryItem}
use dcb_event_store_pg_go.EventStore.Tags.{values, contains}
use dcb_event_store_pg_go.Postgres.Conditions.{StoredRow}
use dcb_event_store_pg_go.Postgres.Conditions.Rows.{row_of}
use dcb_event_store_pg_go.Postgres.ReadSql.{Arg, text, text_array}
use dcb_event_store_pg_go.Postgres.ReadSql.Statement.{
  ItemFilter, lookup, is_text, overlaps, types_hold, tags_hold, item_holds,
}
use dcb_event_store_pg_go.Postgres.ReadSql.Items.{
  length-map, numbers, tags_number, tags_args, item_args, item_filter, keep_if, item_filters,
  items_args,
}

get_elem?-append {ℓ} :
    {A : Type ℓ} (xs : List A) (x : A) (ys : List A) → get_elem? (xs ++ x ∷ ys) (length xs) ≡ some x
get_elem?-append [] x ys = refl
get_elem?-append (y ∷ xs) x ys = get_elem?-append xs x ys

-- A parameter stands for the argument that was added with it.
pub lookup_lem :
    (xs : List Arg) (v : Arg) (ys : List Arg) → lookup (xs ++ v ∷ ys) (length xs + 1) ≡ some v
lookup_lem xs v ys =
    let e : length xs + 1 - 1 ≡ length xs = omega arith in rw e (get_elem?-append xs v ys)

length-snoc {ℓ} : {A : Type ℓ} (xs : List A) (x : A) → length (xs ++ x ∷ []) ≡ length xs + 1
length-snoc xs x = omega (arith, length-append xs (x ∷ []))

any_types :
    (types : List Bytes) (xs ys : List Arg) (v : Bytes)
    → any (λ n. is_text (lookup (xs ++ (map text types ++ ys)) n) v) (numbers (length xs) types)
      ≡ contains types v
any_types [] xs ys v = refl
any_types (t ∷ types) xs ys v =
    let all_args = xs ++ text t ∷ (map text types ++ ys) in
    let rest : any (λ n. is_text (lookup all_args n) v) (numbers (length xs + 1) types)
        ≡ contains types v =
      rw (append_assoc xs (text t ∷ []) (map text types ++ ys), length-snoc xs (text t)) at
        (any_types types (xs ++ text t ∷ []) ys v) in
    ap
      (λ a. is_text a v || any (λ n. is_text (lookup all_args n) v) (numbers (length xs + 1) types))
      (lookup_lem xs (text t) (map text types ++ ys))
    ∙ ap (λ b. eq_bytes v t || b) rest

-- What the filter of an item asks of an event.
abbrev pub asks_types : List Bytes → Bytes → Bool
asks_types [] v = true
asks_types (t ∷ types) v = contains (t ∷ types) v

abbrev pub asks_tags : List Bytes → List Bytes → Bool
asks_tags [] tags = true
asks_tags (t ∷ ts) tags = any (contains tags) (t ∷ ts)

abbrev pub asks : QueryItem → Event → Bool
asks item ev = asks_types item.types ev.event_type && asks_tags (values item.tags) (values ev.tags)

types_hold_lem :
    (types : List Bytes) (xs ys : List Arg) (row : StoredRow)
    → types_hold (xs ++ (map text types ++ ys)) row (numbers (length xs) types)
      ≡ asks_types types row.row_type
types_hold_lem [] xs ys row = refl
types_hold_lem (t ∷ types) xs ys row = any_types (t ∷ types) xs ys row.row_type

tags_hold_lem :
    (tags : List Bytes) (xs ys : List Arg) (row : StoredRow)
    → tags_hold (xs ++ (tags_args tags ++ ys)) row (tags_number (length xs) tags)
      ≡ asks_tags tags row.row_tags
tags_hold_lem [] xs ys row = refl
tags_hold_lem (t ∷ tags) xs ys row =
    ap (λ a. overlaps a row.row_tags) (lookup_lem xs (text_array (t ∷ tags)) ys)

item_holds_lem :
    (item : QueryItem) (xs ys : List Arg) (se : SequencedEvent)
    → item_holds (xs ++ (item_args item ++ ys)) (row_of se) (item_filter (length xs) item)
      ≡ asks item se.event
item_holds_lem item xs ys se =
    ap
      (λ b.
        b
        && tags_hold all_args row (tags_number (length xs + length item.types) (values item.tags)))
      first
    ∙ ap (λ b. asks_types item.types se.event.event_type && b) second
  where
    row : StoredRow
    row = row_of se

    types : List Arg
    types = map text item.types

    tags : List Arg
    tags = tags_args (values item.tags)

    all_args : List Arg
    all_args = xs ++ ((types ++ tags) ++ ys)

    regroup : xs ++ (types ++ (tags ++ ys)) ≡ all_args
    regroup = ap (λ r. xs ++ r) (sym (append_assoc types tags ys))

    counted : length (xs ++ types) ≡ length xs + length item.types
    counted = omega (arith, length-append xs types, length-map text item.types)

    first :
        types_hold all_args row (numbers (length xs) item.types)
        ≡ asks_types item.types se.event.event_type
    first =
        subst
          (λ a.
            types_hold a row (numbers (length xs) item.types)
            ≡ asks_types item.types se.event.event_type)
          regroup (types_hold_lem item.types xs (tags ++ ys) row)

    second :
        tags_hold all_args row (tags_number (length xs + length item.types) (values item.tags))
        ≡ asks_tags (values item.tags) (values se.event.tags)
    second =
        subst
          (λ n.
            tags_hold all_args row (tags_number n (values item.tags))
            ≡ asks_tags (values item.tags) row.row_tags)
          counted
          (subst
            (λ a.
              tags_hold a row (tags_number (length (xs ++ types)) (values item.tags))
              ≡ asks_tags (values item.tags) row.row_tags)
            (append_assoc xs types (tags ++ ys) ∙ regroup)
            (tags_hold_lem (values item.tags) (xs ++ types) ys row))

-- Each item has a type.
abbrev pub AllTyped : List QueryItem → Type 0
AllTyped [] = Unit
AllTyped (item ∷ items) = (item.types ≢ []) × AllTyped items

any-keep_if :
    (p : ItemFilter → Bool) (types : List ℕ) (tags : Option ℕ) (filters : List ItemFilter)
    → types ≢ []
    → any p (keep_if types tags filters)
      ≡ (p (record { types = types; tags = tags }) || any p filters)
any-keep_if p [] tags filters h = absurd (h refl)
any-keep_if p (n ∷ ns) tags filters h = refl

pub numbers-some : (n : ℕ) (types : List Bytes) → types ≢ [] → numbers n types ≢ []
numbers-some n [] h = absurd (h refl)
numbers-some n (t ∷ types) h = λ e. cc

pub items_hold :
    (items : List QueryItem) (xs ys : List Arg) (se : SequencedEvent)
    → AllTyped items
    → any (item_holds (xs ++ (items_args items ++ ys)) (row_of se)) (item_filters (length xs) items)
      ≡ any (λ item. asks item se.event) items
items_hold [] xs ys se h = refl
items_hold (item ∷ items) xs ys se (typed, h) =
    any-keep_if holds _ _ (item_filters (length xs + length (item_args item)) items)
      (numbers-some (length xs) item.types typed)
    ∙ ap (λ b. b || any holds (item_filters (length xs + length (item_args item)) items)) first
    ∙ ap (λ b. asks item se.event || b) (rest (items_hold items (xs ++ item_args item) ys se h))
  where
    all_args : List Arg
    all_args = xs ++ ((item_args item ++ items_args items) ++ ys)

    holds : ItemFilter → Bool
    holds = item_holds all_args (row_of se)

    regroup : xs ++ (item_args item ++ (items_args items ++ ys)) ≡ all_args
    regroup = ap (λ r. xs ++ r) (sym (append_assoc (item_args item) (items_args items) ys))

    first : holds (item_filter (length xs) item) ≡ asks item se.event
    first =
        subst (λ a. item_holds a (row_of se) (item_filter (length xs) item) ≡ asks item se.event)
          regroup (item_holds_lem item xs (items_args items ++ ys) se)

    rest :
        any
            (item_holds ((xs ++ item_args item) ++ (items_args items ++ ys)) (row_of se))
            (item_filters (length (xs ++ item_args item)) items)
          ≡ any (λ item. asks item se.event) items
        → any holds (item_filters (length xs + length (item_args item)) items)
          ≡ any (λ item. asks item se.event) items
    rest h =
        subst (λ n. any holds (item_filters n items) ≡ any (λ item. asks item se.event) items)
          (length-append xs (item_args item))
          (subst
            (λ a.
              any (item_holds a (row_of se)) (item_filters (length (xs ++ item_args item)) items)
              ≡ any (λ item. asks item se.event) items)
            (append_assoc xs (item_args item) (items_args items ++ ys) ∙ regroup) h)
