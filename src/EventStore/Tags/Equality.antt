-- ===== src/EventStore/Tags/Equality.antt =====
-- `Tags.Equal` decides equality of sets, and `Tags.Values` is the same list for equal sets.
use dcb_event_store_pg_go.Base.{
  ◌≡◌, ◌↔◌, true, List, arith, Bytes, all, all_sound, all_complete, Memᴰ,
}
use dcb_event_store_pg_go.EventStore.Tags.{Tags, contains, values, equal}
use dcb_event_store_pg_go.EventStore.Tags.Members.{
  Distinct, SameMembers, mem_of_contains, contains_of_mem, subset_of_length-le, length-le_of_subset,
}
use dcb_event_store_pg_go.EventStore.Tags.Sorting.{
  mem-sort_strings, sort_strings-Ascends, Ascends-unique, Ascends,
}

-- Two sets of tags are `Equal` exactly if they have the same members.
pub equal_iff :
    (t other : Tags)
    → Distinct t.values
    → Distinct other.values
    → (equal t other ≡ true) ↔ SameMembers t.values other.values
unfolding equal
equal_iff t other d e = (sound, complete)
  where
    included :
        all (contains other.values) t.values ≡ true
        → (v : Bytes) → Memᴰ v t.values
        → Memᴰ v other.values
    included h v m = mem_of_contains other.values v (all_sound (contains other.values) t.values h m)

    sound : equal t other ≡ true → SameMembers t.values other.values
    sound h v = (
      λ m. included (ground arith) v m,
      λ m. subset_of_length-le t.values other.values d (included (ground arith)) (ground arith) v m,
    )

    complete : SameMembers t.values other.values → equal t other ≡ true
    complete same = ground (
      arith,
      length-le_of_subset t.values other.values d (λ (v : Bytes). (same v).0),
      length-le_of_subset other.values t.values e (λ (v : Bytes). (same v).1),
      all_complete (contains other.values) t.values
          (λ (v : Bytes) (m : Memᴰ v t.values). contains_of_mem v ((same v).0 m)),
    )

-- `Values` lists each member once, in ascending bytewise order.
pub values_lem :
    (t : Tags) → Distinct t.values → Ascends (values t) × SameMembers (values t) t.values
unfolding values
values_lem t d = (sort_strings-Ascends t.values d, mem-sort_strings t.values)

-- Two sets of tags have the same list of values exactly if they are `Equal`: the list does not
-- depend on the order in which the maps are iterated.
pub values-eq_iff :
    (t other : Tags)
    → Distinct t.values
    → Distinct other.values
    → (values t ≡ values other) ↔ (equal t other ≡ true)
values-eq_iff t other d e = (forth, back)
  where
    of_eq : {vs ws : List Bytes} → vs ≡ ws → SameMembers vs ws
    of_eq p v = (λ m. rw p at m, λ m. rw (← p) at m)

    via : (values t ≡ values other) → SameMembers t.values other.values
    via p v = (
      λ m. ((values_lem other e).1 v).0 ((of_eq p v).0 (((values_lem t d).1 v).1 m)),
      λ m. ((values_lem t d).1 v).0 ((of_eq p v).1 (((values_lem other e).1 v).1 m)),
    )

    forth : (values t ≡ values other) → equal t other ≡ true
    forth p = (equal_iff t other d e).1 (via p)

    back : equal t other ≡ true → values t ≡ values other
    back h =
        let same = (equal_iff t other d e).0 h in
        Ascends-unique (values t) (values other) (values_lem t d).0 (values_lem other e).0 (λ v. (
          λ m. ((values_lem other e).1 v).1 ((same v).0 (((values_lem t d).1 v).0 m)),
          λ m. ((values_lem t d).1 v).1 ((same v).1 (((values_lem other e).1 v).0 m)),
        ))
