-- ===== src/Postgres/ReadSql/Items.antt =====
-- The text of an item's filter, and of all items', with the numbers of their parameters.
use dcb_event_store_pg_go.Base.{
  ℕ, ◌+◌, ◌≡◌, refl, sym, ap, List, [], ◌∷◌, ◌++◌, map, append-nil, append_assoc, Option, none,
  some, Bytes, length, length-append, arith,
}
use dcb_event_store_pg_go.EventStore.Query.{QueryItem}
use dcb_event_store_pg_go.EventStore.Tags.{values}
use dcb_event_store_pg_go.Postgres.ReadSql.{
  Arg, text, text_array, placeholder, add, enclosed, type_placeholders, type_parts, tag_parts,
  item_filter_clause, unless_empty, item_clauses,
}
use dcb_event_store_pg_go.Postgres.ReadSql.Statement.{ItemFilter, types_text, tags_text, item_text}

pub length-map {ℓ κ} :
    {A : Type ℓ} {B : Type κ} (f : A → B) (xs : List A) → length (map f xs) ≡ length xs
length-map f [] = refl
length-map f (x ∷ xs) = rw (length-map f xs) refl

pub add_lem :
    (v : Arg) (args : List Arg) → add v args ≡ (placeholder (length args + 1), args ++ v ∷ [])
unfolding add
add_lem v args =
    let e : length (args ++ v ∷ []) ≡ length args + 1 =
      omega (arith, length-append args (v ∷ [])) in
    rw e refl

-- The numbers behind `n`, one for each entry.
abbrev pub numbers {ℓ} : {A : Type ℓ} → ℕ → List A → List ℕ
numbers n [] = []
numbers n (x ∷ xs) = (n + 1) ∷ numbers (n + 1) xs

type_placeholders_lem :
    (types : List Bytes) (args : List Arg)
    → type_placeholders types args
      ≡ (map placeholder (numbers (length args) types), args ++ map text types)
unfolding type_placeholders
type_placeholders_lem [] args = ap (λ a. ([], a)) (sym (append-nil args))
type_placeholders_lem (t ∷ types) args =
    let e : length (args ++ text t ∷ []) ≡ length args + 1 =
      omega (arith, length-append args (text t ∷ [])) in
    rw
      (
        add_lem (text t) args,
        type_placeholders_lem types (args ++ text t ∷ []),
        e,
        append_assoc args (text t ∷ []) (map text types),
      )
      refl

type_parts_lem :
    (types : List Bytes) (args : List Arg)
    → type_parts types args ≡ (types_text (numbers (length args) types), args ++ map text types)
unfolding type_parts
type_parts_lem [] args = ap (λ a. ([], a)) (sym (append-nil args))
type_parts_lem (t ∷ types) args = rw (type_placeholders_lem (t ∷ types) args) refl

abbrev pub tags_number : ℕ → List Bytes → Option ℕ
tags_number n [] = none
tags_number n (tag ∷ tags) = some (n + 1)

abbrev pub tags_args : List Bytes → List Arg
tags_args [] = []
tags_args (tag ∷ tags) = text_array (tag ∷ tags) ∷ []

tag_parts_lem :
    (tags : List Bytes) (args : List Arg)
    → tag_parts tags args ≡ (tags_text (tags_number (length args) tags), args ++ tags_args tags)
unfolding tag_parts
tag_parts_lem [] args = ap (λ a. ([], a)) (sym (append-nil args))
tag_parts_lem (tag ∷ tags) args = rw (add_lem (text_array (tag ∷ tags)) args) refl

abbrev pub item_args : QueryItem → List Arg
item_args item = map text item.types ++ tags_args (values item.tags)

abbrev pub item_filter : ℕ → QueryItem → ItemFilter
item_filter n item = record {
  types = numbers n item.types;
  tags = tags_number (n + length item.types) (values item.tags);
}

length-args_append :
    (args : List Arg) (types : List Bytes)
    → length (args ++ map text types) ≡ length args + length types
length-args_append args types =
    omega (arith, length-append args (map text types), length-map text types)

item_filter_clause_lem :
    (item : QueryItem) (args : List Arg)
    → item_filter_clause item args
      ≡ (item_text (item_filter (length args) item), args ++ item_args item)
unfolding item_filter_clause
item_filter_clause_lem item args =
    rw
      (
        type_parts_lem item.types args,
        tag_parts_lem (values item.tags) (args ++ map text item.types),
        length-args_append args item.types,
        append_assoc args (map text item.types) (tags_args (values item.tags)),
      )
      refl

-- The filters of the items that ask for something.
abbrev pub keep_if : List ℕ → Option ℕ → List ItemFilter → List ItemFilter
keep_if [] none filters = filters
keep_if [] (some n) filters = record { types = []; tags = some n } ∷ filters
keep_if (n ∷ ns) tags filters = record { types = n ∷ ns; tags = tags } ∷ filters

abbrev pub keep : ItemFilter → List ItemFilter → List ItemFilter
keep f filters = keep_if f.types f.tags filters

abbrev pub item_filters : ℕ → List QueryItem → List ItemFilter
item_filters n [] = []
item_filters n (item ∷ items) =
    keep (item_filter n item) (item_filters (n + length (item_args item)) items)

abbrev pub items_args : List QueryItem → List Arg
items_args [] = []
items_args (item ∷ items) = item_args item ++ items_args items

unless_empty-keep :
    (types : List ℕ) (tags : Option ℕ) (filters : List ItemFilter)
    → unless_empty (item_text (record { types = types; tags = tags })) (map item_text filters)
      ≡ map item_text (keep_if types tags filters)
unfolding enclosed
unless_empty-keep [] none filters = refl
unless_empty-keep [] (some n) filters = refl
unless_empty-keep (n ∷ ns) tags filters = refl

pub item_clauses_lem :
    (items : List QueryItem) (args : List Arg)
    → item_clauses items args
      ≡ (map item_text (item_filters (length args) items), args ++ items_args items)
unfolding item_clauses
item_clauses_lem [] args = ap (λ a. ([], a)) (sym (append-nil args))
item_clauses_lem (item ∷ items) args =
    rw
      (
        item_filter_clause_lem item args,
        item_clauses_lem items (args ++ item_args item),
        length-append args (item_args item),
        append_assoc args (item_args item) (items_args items),
        unless_empty-keep,
      )
      refl
