-- ===== src/EventStore/Tags.antt =====
-- eventstore/tags.go. The map of a `Tags` is the list of its keys in some iteration order: no
-- theorem depends on which. `sort.Strings` is insertion sort, whose result any sort shares, since
-- the keys are distinct.
pub mod Members
pub mod Sorting
pub mod Equality
pub mod Creation
pub mod Space
pub mod FromMap
use dcb_event_store_pg_go.Base.{
  ℕ, ◌≡◌, refl, Bool, true, false, not, ◌&&◌, ◌||◌, List, [], ◌∷◌, Bytes, codes, eq_bytes, lt_bytes,
  ltb, leb, ◌==◌, if◌then◌else◌, any, all, length, Result, ok, err, ◌++◌,
}

pub record Tags : Type 0 where
  pub values : List Bytes

-- `slices.Contains`, and the lookup of a key in a map.
abbrev pub contains : List Bytes → Bytes → Bool
contains vs v = any (eq_bytes v) vs

-- The assignment `set[v] = struct{}{}`.
unfoldable pub insert_key : Bytes → List Bytes → List Bytes
insert_key v set = if contains set v then set else v ∷ set

abbrev pub empty_tags : Tags
empty_tags = record { values = [] }

pub data TagError : Type 0 where
  invalid_tag_value : Bytes → TagError
  empty_object : TagError
  invalid_tag_key : Bytes → TagError
  invalid_tag_value_for_key : Bytes → Bytes → TagError

-- Whether the text starts with the UTF-8 form of a rune that `unicode.IsSpace` accepts. No byte of
-- a valid form but the first is a first byte of one of these, so a text holds such a rune exactly
-- if one of its suffixes starts with it.
unfoldable pub starts_with_space : Bytes → Bool
starts_with_space [] = false
starts_with_space (a ∷ []) = (leb 9 a && leb a 13) || a == 32
starts_with_space (a ∷ b ∷ []) =
    (leb 9 a && leb a 13) || a == 32 || (a == 0xC2 && (b == 0x85 || b == 0xA0))
starts_with_space (a ∷ b ∷ c ∷ s) =
    (leb 9 a && leb a 13)
    || a == 32
    || (a == 0xC2 && (b == 0x85 || b == 0xA0))
    || (a == 0xE1 && b == 0x9A && c == 0x80)
    || (a == 0xE2 && b == 0x80 && (leb 0x80 c && leb c 0x8A || c == 0xA8 || c == 0xA9 || c == 0xAF))
    || (a == 0xE2 && b == 0x81 && c == 0x9F)
    || (a == 0xE3 && b == 0x80 && c == 0x80)

-- `strings.ContainsFunc(s, unicode.IsSpace)`.
unfoldable pub contains_space : Bytes → Bool
unfolding starts_with_space
contains_space [] = false
contains_space (a ∷ s) = starts_with_space (a ∷ s) || contains_space s

unfoldable pub is_valid_tag_token : Bytes → Bool
unfolding contains_space
is_valid_tag_token [] = false
is_valid_tag_token (a ∷ s) = not (contains_space (a ∷ s))

-- The first loop of `TagsFrom`, which fails at the first invalid value.
unfoldable pub check_values : List Bytes → Result TagError Tags → Result TagError Tags
check_values [] done = done
check_values (v ∷ vs) done =
    if is_valid_tag_token v then check_values vs done else err (invalid_tag_value v)

-- The second loop of `TagsFrom`.
unfoldable pub insert_values : List Bytes → List Bytes → List Bytes
insert_values [] set = set
insert_values (v ∷ vs) set = insert_values vs (insert_key v set)

unfoldable pub tags_from : List Bytes → Result TagError Tags
unfolding check_values insert_values
tags_from vs = check_values vs (ok (record { values = insert_values vs [] }))

-- The loop of `TagsFromMap` over the map's entries, in the order in which they are visited.
unfoldable pub insert_entries : List (Bytes × Bytes) → List Bytes → Result TagError Tags
insert_entries [] set = ok (record { values = set })
insert_entries ((k, v) ∷ obj) set =
    if is_valid_tag_token k
    then if is_valid_tag_token v
      then insert_entries obj (insert_key (k ++ b'=' ∷ v) set)
      else err (invalid_tag_value_for_key v k)
    else err (invalid_tag_key k)

unfoldable pub tags_from_map : List (Bytes × Bytes) → Result TagError Tags
unfolding insert_entries
tags_from_map [] = err empty_object
tags_from_map (e ∷ obj) = insert_entries (e ∷ obj) []

-- `sort.Strings`.
unfoldable pub insert_sorted : Bytes → List Bytes → List Bytes
insert_sorted v [] = v ∷ []
insert_sorted v (w ∷ ws) = if lt_bytes w v then w ∷ insert_sorted v ws else v ∷ w ∷ ws

unfoldable pub sort_strings : List Bytes → List Bytes
unfolding insert_sorted
sort_strings [] = []
sort_strings (v ∷ vs) = insert_sorted v (sort_strings vs)

unfoldable pub values : Tags → List Bytes
unfolding sort_strings
values t = sort_strings t.values

unfoldable pub len : Tags → ℕ
len t = length t.values

unfoldable pub equal : Tags → Tags → Bool
equal t other =
    if length t.values == length other.values then all (contains other.values) t.values else false
