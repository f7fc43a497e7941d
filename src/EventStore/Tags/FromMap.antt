-- ===== src/EventStore/Tags/FromMap.antt =====
-- What `TagsFromMap` makes of a map, whatever the order of the iteration.
use dcb_event_store_pg_go.Base.{
  ◌≡◌, ◌≢◌, refl, sym, ◌↔◌, ◌⊎◌, inl, inr, true, List, [], ◌∷◌, ◌++◌, map, Bytes, arith, Memᴰ, ok,
  all,
}
use mathlib.Core.Path.{subst}
use dcb_event_store_pg_go.EventStore.Tags.{
  Tags, insert_key, is_valid_tag_token, insert_entries, tags_from_map, insert_values,
}
use dcb_event_store_pg_go.EventStore.Tags.Creation.{insert_values-Distinct, mem-insert_values}
use dcb_event_store_pg_go.EventStore.Tags.Members.{Distinct, SameMembers}
use dcb_event_store_pg_go.EventStore.Tags.Space.{valid-separator}

-- The tag of an entry.
abbrev pub entry_tag : Bytes × Bytes → Bytes
entry_tag (k, v) = k ++ b'=' ∷ v

-- Keys and values are valid tokens.
abbrev pub ValidEntries : List (Bytes × Bytes) → Type 0
ValidEntries [] = Unit
ValidEntries ((k, v) ∷ obj) =
    (is_valid_tag_token k ≡ true) × (is_valid_tag_token v ≡ true) × ValidEntries obj

insert_entries_iff :
    (obj : List (Bytes × Bytes)) (set : List Bytes) (t : Tags)
    → (insert_entries obj set ≡ ok t)
      ↔ (ValidEntries obj × (t ≡ record { values = insert_values (map entry_tag obj) set }))
unfolding insert_entries insert_values
insert_entries_iff [] set t = (λ h. (tt, ground arith), λ h. ground arith)
insert_entries_iff ((k, v) ∷ obj) set t =
    let (sound, complete) = insert_entries_iff obj (insert_key (k ++ b'=' ∷ v) set) t in
    (
      λ h.
          let (entries, e) = sound (ground arith) in (((ground arith), (ground arith), entries), e),
      λ h. rw (h.0.0, insert_entries) (rw (h.0.1) (complete (h.0.2, h.1))),
    )

all_valid :
    (obj : List (Bytes × Bytes))
    → ValidEntries obj
    → all is_valid_tag_token (map entry_tag obj) ≡ true
all_valid [] h = refl
all_valid ((k, v) ∷ obj) (hk, hv, h) =
    rw (valid-separator b'=' (omega arith) k v hk hv) (all_valid obj h)

-- Where `TagsFromMap` succeeds, the map has an entry and all its keys and values are valid tokens. The
-- set holds each `key=value` once and nothing else, and each of them is a valid token itself, so
-- that `TagsFrom` accepts it when it is read back.
pub tags_from_map_sound :
    (obj : List (Bytes × Bytes)) (t : Tags)
    → tags_from_map obj ≡ ok t
    → (obj ≢ [])
      × ValidEntries obj
      × Distinct t.values
      × SameMembers t.values (map entry_tag obj)
      × (all is_valid_tag_token (map entry_tag obj) ≡ true)
unfolding tags_from_map
tags_from_map_sound [] t h = absurd (ground arith)
tags_from_map_sound (e ∷ obj) t h =
    let (entries, made) = (insert_entries_iff (e ∷ obj) [] t).0 h in
    let tags : List Bytes = map entry_tag (e ∷ obj) in
    subst
      (λ u.
        (e ∷ obj ≢ [])
        × ValidEntries (e ∷ obj)
        × Distinct u.values
        × SameMembers u.values tags
        × (all is_valid_tag_token tags ≡ true))
      (sym made)
      (
        (λ n. cc),
        entries,
        insert_values-Distinct tags [] tt,
        (λ v. (
          λ m. left ((mem-insert_values tags []).0 m),
          λ m. (mem-insert_values tags []).1 (inl m),
        )),
        all_valid (e ∷ obj) entries,
      )
  where
    left : {v : Bytes} {ws : List Bytes} → Memᴰ v ws ⊎ Memᴰ v [] → Memᴰ v ws
    left (inl m) = m
    left (inr m) = elim m [ ]

-- `TagsFromMap` succeeds on every map with an entry whose keys and values are valid tokens.
pub tags_from_map_complete :
    (obj : List (Bytes × Bytes))
    → obj ≢ []
    → ValidEntries obj
    → tags_from_map obj ≡ ok (record { values = insert_values (map entry_tag obj) [] })
unfolding tags_from_map
tags_from_map_complete [] n h = absurd (n refl)
tags_from_map_complete (e ∷ obj) n h = (insert_entries_iff (e ∷ obj) [] _).1 (h, refl)
