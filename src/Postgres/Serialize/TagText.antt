-- ===== src/Postgres/Serialize/TagText.antt =====
-- The text in which an event's tags travel to the stored procedure, and what a reader of it can
-- recover.
use dcb_event_store_pg_go.Base.{
  ◌≡◌, ◌≢◌, refl, ap, ◌∙◌, true, false, List, [], ◌∷◌, ◌++◌, append-nil, append_assoc, Bytes, arith,
  ok, lt_bytes, lt_bytes_irrefl, eq_bytes, eq_bytes_sound,
}
use dcb_event_store_pg_go.EventStore.Tags.{
  Tags, values, equal, is_valid_tag_token, tags_from, insert_key,
}
use dcb_event_store_pg_go.EventStore.Tags.Creation.{check_values_valid}
use dcb_event_store_pg_go.EventStore.Tags.Space.{valid-separator}
use dcb_event_store_pg_go.Postgres.Serialize.{tag_delimiter, join_rest, join_tags}

-- No byte of the text is the delimiter.
abbrev pub LacksDelimiter : Bytes → Type 0
LacksDelimiter [] = Unit
LacksDelimiter (c ∷ s) = (c ≢ tag_delimiter) × LacksDelimiter s

abbrev pub AllPlain : List Bytes → Type 0
AllPlain [] = Unit
AllPlain (v ∷ vs) = (v ≢ []) × LacksDelimiter v × AllPlain vs

-- Postgres's `string_to_array(s, delimiter)` at the delimiter of the code, as documented: no text
-- gives no field, and the fields are the parts between the delimiters.
pub record StringToArray : Type 0 where
  pub string_to_array : Bytes → List Bytes
  pub no_text : string_to_array [] ≡ []
  pub one_field : (s : Bytes) → s ≢ [] → LacksDelimiter s → string_to_array s ≡ s ∷ []
  pub cut_field :
      (s rest : Bytes)
      → LacksDelimiter s
      → rest ≢ []
      → string_to_array (s ++ tag_delimiter ∷ rest) ≡ s ∷ string_to_array rest

module _ (server : StringToArray) where
  open server use {string_to_array, no_text, one_field, cut_field}

  pub split-join : (vs : List Bytes) → AllPlain vs → string_to_array (join_tags vs) ≡ vs
  unfolding join_tags
  split-join [] h = no_text
  split-join (v ∷ []) (n, l, _) = ap string_to_array (append-nil v) ∙ one_field v n l
  split-join (v ∷ w ∷ vs) (n, l, rest) =
      cut_field v (w ++ join_rest vs) l (not_nil w (join_rest vs) rest.0)
      ∙ ap (◌∷◌ v) (split-join (w ∷ vs) rest)
    where
      not_nil : (w u : Bytes) → w ≢ [] → (w ++ u) ≢ []
      not_nil [] u h = absurd (h refl)
      not_nil (c ∷ w) u h = λ e. cc

  -- Where no tag holds the delimiter, the server recovers the tags of an event from the text in
  -- which they are sent.
  pub string_to_array-join_tags :
      (t : Tags) → AllPlain (values t) → string_to_array (join_tags (values t)) ≡ values t
  string_to_array-join_tags t h = split-join (values t) h

-- The set with the one tag in which two tokens stand around the delimiter.
abbrev pub joined_tags : Bytes → Bytes → Tags
joined_tags s u = record { values = (s ++ tag_delimiter ∷ u) ∷ [] }

abbrev pub separate_tags : Bytes → Bytes → Tags
separate_tags s u = record { values = u ∷ s ∷ [] }

-- `TagsFrom` accepts the delimiter inside a tag: for any two valid tokens in ascending order it
-- makes the set of one tag, the tokens around the delimiter, and the set of the two tokens. These
-- sets are not `Equal`, and are sent as the same text, so that no server can tell them apart.
pub delimiter_collision :
    (s u : Bytes)
    → is_valid_tag_token s ≡ true
    → is_valid_tag_token u ≡ true
    → lt_bytes s u ≡ true
    → (tags_from ((s ++ tag_delimiter ∷ u) ∷ []) ≡ ok (joined_tags s u))
      × (tags_from (s ∷ u ∷ []) ≡ ok (separate_tags s u))
      × (equal (joined_tags s u) (separate_tags s u) ≡ false)
      × (join_tags (values (joined_tags s u)) ≡ join_tags (values (separate_tags s u)))
unfolding tags_from insert_key values join_tags equal
delimiter_collision s u hs hu lt = (
  check_values_valid ((s ++ tag_delimiter ∷ u) ∷ []) _
      (rw (valid-separator tag_delimiter (omega arith) s u hs hu) refl),
  check_values_valid (s ∷ u ∷ []) _ (rw (hs, hu) refl) ∙ rw (fresh, insert_key) refl,
  refl,
  rw lt (append_assoc s (tag_delimiter ∷ u) []),
)
  where
    fresh : eq_bytes u s ≡ false
    fresh = ground (arith, eq_bytes_sound u s, lt_bytes_irrefl s)
