-- ===== src/Postgres/Conditions/Rows.antt =====
-- The rows of one condition find a stored event exactly if the condition of the command matches one.
use dcb_event_store_pg_go.Base.{
  ℕ, ◌<◌, ◌≤◌, ◌≡◌, refl, sym, ap, true, List, [], ◌∷◌, map, Bytes, eq_bytes_sound, eq_bytes_refl,
  all, all_sound, all_complete, ℤ, pos, pos_part, Memᴰ, arith, inl, inr, ◌⊎◌,
}
use mathlib.Core.Path.{subst}
use dcb_event_store_pg_go.Base.Memᴰ
use dcb_event_store_pg_go.EventStore.Event.{SequencedEvent}
use dcb_event_store_pg_go.EventStore.Query.{QueryItem}
use dcb_event_store_pg_go.EventStore.Tags.{contains, values}
use dcb_event_store_pg_go.EventStore.Tags.Members.{mem_of_contains, contains_of_mem}
use dcb_event_store_pg_go.Memory.Matching.Meaning.{mem-values}
use dcb_event_store_pg_go.Postgres.Conditions.{StoredRow, ctags_of, row_hit}
use dcb_event_store_pg_go.Postgres.Serialize.{
  ConditionRow, type_rows, item_rows, join_tags, serialize_payload,
}
use dcb_event_store_pg_go.Postgres.Serialize.TagText.{StringToArray, AllPlain, split-join}

-- The row that stores an event.
abbrev pub row_of : SequencedEvent → StoredRow
row_of se = record {
  sequence_position = pos se.position.value;
  row_type = se.event.event_type;
  row_tags = values se.event.tags;
  row_payload = serialize_payload se.event;
}

abbrev pub table_of : List SequencedEvent → List StoredRow
table_of events = map row_of events

-- The items' tags hold no delimiter.
abbrev pub PlainItems : List QueryItem → Type 0
PlainItems [] = Unit
PlainItems (item ∷ items) = AllPlain (values item.tags) × PlainItems items

pub mem_of_table :
    (events : List SequencedEvent) {e : StoredRow}
    → Memᴰ e (table_of events)
    → (se : SequencedEvent) × Memᴰ se events × (e ≡ row_of se)
mem_of_table [] m = elim m [ ]
mem_of_table (x ∷ events) (Memᴰ.head e) = (x, Memᴰ.head refl, e)
mem_of_table (x ∷ events) (Memᴰ.tail m) =
    let (se, n, e) = mem_of_table events m in (se, Memᴰ.tail n, e)

pub mem-table :
    {se : SequencedEvent} (events : List SequencedEvent)
    → Memᴰ se events
    → Memᴰ (row_of se) (table_of events)
mem-table [] m = elim m [ ]
mem-table (x ∷ events) (Memᴰ.head e) = Memᴰ.head (ap row_of e)
mem-table (x ∷ events) (Memᴰ.tail m) = Memᴰ.tail (mem-table events m)

module _ (idx : ℤ) (after : ℤ) where
  abbrev cond_row : Bytes → Bytes → ConditionRow
  cond_row t tags = record { cmd_idx = idx; cond_type = t; cond_tags = tags; after_pos = after }

  mem_of_type_rows :
      (tags : Bytes) (types : List Bytes) {c : ConditionRow}
      → Memᴰ c (type_rows idx tags after types)
      → (t : Bytes) × Memᴰ t types × (c ≡ cond_row t tags)
  unfolding type_rows
  mem_of_type_rows tags [] m = elim m [ ]
  mem_of_type_rows tags (t ∷ types) (Memᴰ.head e) = (t, Memᴰ.head refl, e)
  mem_of_type_rows tags (t ∷ types) (Memᴰ.tail m) =
      let (u, n, e) = mem_of_type_rows tags types m in (u, Memᴰ.tail n, e)

  mem-type_rows :
      (tags : Bytes) (types : List Bytes) {t : Bytes}
      → Memᴰ t types
      → Memᴰ (cond_row t tags) (type_rows idx tags after types)
  unfolding type_rows
  mem-type_rows tags [] m = elim m [ ]
  mem-type_rows tags (u ∷ types) (Memᴰ.head e) = Memᴰ.head (ap (λ t. cond_row t tags) e)
  mem-type_rows tags (u ∷ types) (Memᴰ.tail m) = Memᴰ.tail (mem-type_rows tags types m)

  pub mem_of_item_rows :
      (items : List QueryItem) {c : ConditionRow}
      → PlainItems items
      → Memᴰ c (item_rows idx after items)
      → (item : QueryItem) × (t : Bytes) × Memᴰ item items
        × Memᴰ t item.types
        × AllPlain (values item.tags)
        × (c ≡ cond_row t (join_tags (values item.tags)))
  unfolding item_rows
  mem_of_item_rows [] p m = elim m [ ]
  mem_of_item_rows (item ∷ items) {c} (plain, p) m =
      which (Memᴰ.append_cases (type_rows idx (join_tags (values item.tags)) after item.types) m)
        (mem_of_item_rows items {c = c} p)
    where
      which :
          Memᴰ c (type_rows idx (join_tags (values item.tags)) after item.types)
            ⊎ Memᴰ c (item_rows idx after items)
          → (Memᴰ c (item_rows idx after items)
              → (x : QueryItem) × (t : Bytes) × Memᴰ x items
                × Memᴰ t x.types
                × AllPlain (values x.tags)
                × (c ≡ cond_row t (join_tags (values x.tags))))
          → (x : QueryItem) × (t : Bytes) × Memᴰ x (item ∷ items)
            × Memᴰ t x.types
            × AllPlain (values x.tags)
            × (c ≡ cond_row t (join_tags (values x.tags)))
      which (inl a) later =
          let (t, n, e) = mem_of_type_rows (join_tags (values item.tags)) item.types a in
          (item, t, Memᴰ.head refl, n, plain, e)
      which (inr b) later = let (x, t, n, k, q, e) = later b in (x, t, Memᴰ.tail n, k, q, e)

  pub mem-item_rows :
      (items : List QueryItem) {item : QueryItem} {t : Bytes}
      → PlainItems items
      → Memᴰ item items
      → Memᴰ t item.types
      → Memᴰ (cond_row t (join_tags (values item.tags))) (item_rows idx after items)
        × AllPlain (values item.tags)
  unfolding item_rows
  mem-item_rows [] p m n = elim m [ ]
  mem-item_rows (x ∷ items) {item} {t} (plain, p) (Memᴰ.head e) n =
      subst
        (λ i.
          Memᴰ (cond_row t (join_tags (values i.tags))) (item_rows idx after (x ∷ items))
          × AllPlain (values i.tags))
        (sym e)
        (
          Memᴰ.append_left (item_rows idx after items)
              (mem-type_rows (join_tags (values x.tags)) x.types (subst (λ i. Memᴰ t i.types) e n)),
          plain,
        )
  mem-item_rows (x ∷ items) (plain, p) (Memᴰ.tail m) n =
      let (a, b) = mem-item_rows items p m n in (Memᴰ.append_right _ a, b)

module _ (server : StringToArray) where
  ctags_of-join_tags : (vs : List Bytes) → AllPlain vs → ctags_of server (join_tags vs) ≡ vs
  unfolding ctags_of join_tags
  ctags_of-join_tags [] h = refl
  ctags_of-join_tags ([] ∷ vs) h = absurd (h.0 refl)
  ctags_of-join_tags ((c ∷ v) ∷ vs) h = split-join server ((c ∷ v) ∷ vs) h

  -- One row and one row of the table with a number: the `WHERE` clause finds it.
  pub row_hit_stored :
      (idx : ℤ) (after n : ℕ) (item : QueryItem) (t : Bytes) (e : StoredRow)
      → AllPlain (values item.tags)
      → (e.row_type ≡ t)
        × ((v : Bytes) → Memᴰ v item.tags.values → Memᴰ v e.row_tags)
        × (e.sequence_position ≡ pos (pos_part e.sequence_position))
        × (after < pos_part e.sequence_position)
        × (pos_part e.sequence_position ≤ n)
      → row_hit server (pos n) (cond_row idx (pos after) t (join_tags (values item.tags))) e ≡ true
  unfolding row_hit
  row_hit_stored idx after n item t e plain (q, sub, numbered, lt, le) =
      let inside : all (contains e.row_tags) (values item.tags) ≡ true =
        all_complete (contains e.row_tags) (values item.tags)
          (λ v m. contains_of_mem v (sub v ((mem-values item.tags v).0 m))) in
      rw (ctags_of-join_tags (values item.tags) plain, inside, q, eq_bytes_refl, numbered)
        (ground arith)

  -- One row and one stored event: the `WHERE` clause is the contract of a query item, with the bounds.
  module _ (idx : ℤ) (after n : ℕ) (item : QueryItem) (t : Bytes) (se : SequencedEvent)
      (plain : AllPlain (values item.tags)) where
    -- What it means that the row finds the event.
    abbrev pub Hit : Type 0
    Hit =
        (se.event.event_type ≡ t)
        × ((v : Bytes) → Memᴰ v item.tags.values → Memᴰ v se.event.tags.values)
        × (after < se.position.value)
        × (se.position.value ≤ n)

    same : ctags_of server (join_tags (values item.tags)) ≡ values item.tags
    same = ctags_of-join_tags (values item.tags) plain

    pub row_hit_sound :
        row_hit server
            (pos n)
            (cond_row idx (pos after) t (join_tags (values item.tags)))
            (row_of se)
          ≡ true
        → Hit
    unfolding row_hit
    row_hit_sound h =
        let found : all (contains (values se.event.tags))
              (ctags_of server (join_tags (values item.tags)))
            ≡ true =
          ground arith in
        let inside : all (contains (values se.event.tags)) (values item.tags) ≡ true =
          rw same at found in
        (
          eq_bytes_sound se.event.event_type t (ground arith),
          (λ v m. (mem-values se.event.tags v).0 (
              mem_of_contains (values se.event.tags) v (
                all_sound (contains (values se.event.tags)) (values item.tags) inside
                  ((mem-values item.tags v).1 m)))),
          ground arith,
          ground arith,
        )

    pub row_hit_complete :
        Hit
        → row_hit server
            (pos n)
            (cond_row idx (pos after) t (join_tags (values item.tags)))
            (row_of se)
          ≡ true
    row_hit_complete (e, sub, lt, le) =
        row_hit_stored idx after n item t (row_of se) plain
          (e, (λ v m. (mem-values se.event.tags v).1 (sub v m)), refl, lt, le)
