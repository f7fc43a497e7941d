-- ===== src/EventStore/Tags/Creation.antt =====
-- What `TagsFrom` and `TagsFromMap` accept, and the set that they make.
use dcb_event_store_pg_go.Base.Memᴰ
use dcb_event_store_pg_go.Base.{
  ◌≡◌, refl, ◌↔◌, ◌⊎◌, true, false, List, [], ◌∷◌, ◌++◌, arith, Bytes, all, Bool-cases, inl, inr,
  Memᴰ, Result, ok, err,
}
use dcb_event_store_pg_go.EventStore.Tags.{
  Tags, TagError, invalid_tag_value, contains, insert_key, is_valid_tag_token, check_values,
  insert_values, tags_from,
}
use dcb_event_store_pg_go.EventStore.Tags.Members.{
  Distinct, SameMembers, mem_of_contains, not-mem_of_contains,
}

insert_key-Distinct : (v : Bytes) (set : List Bytes) → Distinct set → Distinct (insert_key v set)
unfolding insert_key
insert_key-Distinct v set d = elim (Bool-cases (contains set v)) [
  | inl old ↦ rw old d
  | inr new ↦ rw new (not-mem_of_contains v new, d)
]

mem-insert_key :
    (v : Bytes) {u : Bytes} (set : List Bytes) → Memᴰ u (insert_key v set) ↔ Memᴰ u (v ∷ set)
unfolding insert_key
mem-insert_key v {u} set = elim (Bool-cases (contains set v)) [
  | inl old ↦ rw old (Memᴰ.tail, merge (mem_of_contains set v old))
  | inr new ↦ rw new (λ m. m, λ m. m)
]
  where
    merge : Memᴰ v set → Memᴰ u (v ∷ set) → Memᴰ u set
    merge old (Memᴰ.head e) = Memᴰ.cast e old
    merge old (Memᴰ.tail m) = m

pub insert_values-Distinct : (vs set : List Bytes) → Distinct set → Distinct (insert_values vs set)
unfolding insert_values
insert_values-Distinct [] set d = d
insert_values-Distinct (v ∷ vs) set d =
    insert_values-Distinct vs (insert_key v set) (insert_key-Distinct v set d)

pub mem-insert_values :
    (vs set : List Bytes) {u : Bytes} → Memᴰ u (insert_values vs set) ↔ (Memᴰ u vs ⊎ Memᴰ u set)
unfolding insert_values
mem-insert_values [] set {u} = (inr, λ m. drop_left m)
  where
    drop_left : Memᴰ u [] ⊎ Memᴰ u set → Memᴰ u set
    drop_left (inl m) = elim m [ ]
    drop_left (inr m) = m
mem-insert_values (v ∷ vs) set {u} =
    let (down, up) = mem-insert_values vs (insert_key v set) {u = u} in
    let (open_key, close_key) = mem-insert_key v {u = u} set in
    (λ m. shift open_key (down m), λ m. up (unshift close_key m))
  where
    place : Memᴰ u (v ∷ set) → Memᴰ u (v ∷ vs) ⊎ Memᴰ u set
    place (Memᴰ.head e) = inl (Memᴰ.head e)
    place (Memᴰ.tail m) = inr m

    shift :
        (Memᴰ u (insert_key v set) → Memᴰ u (v ∷ set))
        → Memᴰ u vs ⊎ Memᴰ u (insert_key v set)
        → Memᴰ u (v ∷ vs) ⊎ Memᴰ u set
    shift f (inl m) = inl (Memᴰ.tail m)
    shift f (inr m) = place (f m)

    unshift :
        (Memᴰ u (v ∷ set) → Memᴰ u (insert_key v set))
        → Memᴰ u (v ∷ vs) ⊎ Memᴰ u set
        → Memᴰ u vs ⊎ Memᴰ u (insert_key v set)
    unshift g (inl (Memᴰ.head e)) = inr (g (Memᴰ.head e))
    unshift g (inl (Memᴰ.tail m)) = inl m
    unshift g (inr m) = inr (g (Memᴰ.tail m))

-- The first invalid value decides the error; where all are valid the loop lets the result through.
pub check_values_valid :
    (vs : List Bytes) (done : Result TagError Tags)
    → all is_valid_tag_token vs ≡ true
    → check_values vs done ≡ done
unfolding check_values
check_values_valid [] done h = refl
check_values_valid (v ∷ vs) done h = ground (arith, check_values_valid vs done)

check_values_invalid :
    (pre post : List Bytes) (v : Bytes) (done : Result TagError Tags)
    → all is_valid_tag_token pre ≡ true
    → is_valid_tag_token v ≡ false
    → check_values (pre ++ v ∷ post) done ≡ err (invalid_tag_value v)
unfolding check_values
check_values_invalid [] post v done h k = rw k
check_values_invalid (w ∷ pre) post v done h k =
    ground (arith, check_values_invalid pre post v done)

-- `TagsFrom` on valid values succeeds, with each value once and no other.
pub tags_from_valid :
    (vs : List Bytes)
    → all is_valid_tag_token vs ≡ true
    → (t : Tags) × (tags_from vs ≡ ok t) × Distinct t.values × SameMembers t.values vs
unfolding tags_from
tags_from_valid vs h = (
  record { values = insert_values vs [] },
  check_values_valid vs _ h,
  insert_values-Distinct vs [] tt,
  λ v. (λ m. left ((mem-insert_values vs []).0 m), λ m. (mem-insert_values vs []).1 (inl m)),
)
  where
    left : {v : Bytes} → Memᴰ v vs ⊎ Memᴰ v [] → Memᴰ v vs
    left (inl m) = m
    left (inr m) = elim m [ ]

-- `TagsFrom` fails at an invalid value, and names the first one.
pub tags_from_invalid :
    (pre post : List Bytes) (v : Bytes)
    → all is_valid_tag_token pre ≡ true
    → is_valid_tag_token v ≡ false
    → tags_from (pre ++ v ∷ post) ≡ err (invalid_tag_value v)
unfolding tags_from
tags_from_invalid pre post v h k = check_values_invalid pre post v _ h k
