-- ===== src/Tests/Postgres.antt =====
-- Witnesses of the package postgres.
use dcb_event_store_pg_go.Base.{
  ℕ, ◌<◌, ◌≤◌, ◌^◌, ◌≡◌, ◌≢◌, refl, sym, ap, ◌∙◌, ◌↔◌, inr, false, if◌then◌else◌, List, [], ◌∷◌,
  ◌++◌, none, some, Bytes, lt_bytes, arith, ok, Memᴰ, ℤ, pos, ◌==◌,
}
use mathlib.Core.Option
use dcb_event_store_pg_go.EventStore.Condition.{validate_append_condition}
use dcb_event_store_pg_go.EventStore.Event.{SequencedEvent}
use dcb_event_store_pg_go.EventStore.Position.{SequencePosition}
use dcb_event_store_pg_go.EventStore.Tags.{tags_from, values, equal, is_valid_tag_token, len}
use dcb_event_store_pg_go.Memory.Matching.Meaning.{Matches}
use dcb_event_store_pg_go.Postgres.Conditions.Agreement.{AllSendable}
use dcb_event_store_pg_go.Postgres.LockKeys.{compute_reader_lock_keys, compute_writer_lock_keys}
use dcb_event_store_pg_go.Postgres.LockKeys.Coverage.{Meet, barrier_meets_writer, writers_exclude}
use dcb_event_store_pg_go.Postgres.Position.{position_to_int64, position_to_int64_iff}
use dcb_event_store_pg_go.Postgres.Serialize.{tag_delimiter, join_tags}
use dcb_event_store_pg_go.Postgres.Serialize.TagText.{
  LacksDelimiter, StringToArray, string_to_array-join_tags, joined_tags, separate_tags,
  delimiter_collision,
}
use dcb_event_store_pg_go.Tests.Samples.{
  two_events, joins, joined_event, joined_item, none_since, refused, course_tag, student_tag,
  course_and_student,
}

-- A server that cuts at every delimiter, and has no field for no text.
abbrev pub push : ℕ → List Bytes → List Bytes
push c [] = (c ∷ []) ∷ []
push c (field ∷ fields) = (c ∷ field) ∷ fields

abbrev pub cut_all : Bytes → List Bytes
cut_all [] = [] ∷ []
cut_all (c ∷ s) = let rest = cut_all s in if c == tag_delimiter then [] ∷ rest else push c rest

abbrev pub cut : Bytes → List Bytes
cut [] = []
cut (c ∷ s) = cut_all (c ∷ s)

other_byte : (c : ℕ) → c ≢ tag_delimiter → (c == tag_delimiter) ≡ false
other_byte c h = ground arith

pub cut_all_plain : (s : Bytes) → LacksDelimiter s → cut_all s ≡ s ∷ []
cut_all_plain [] h = refl
cut_all_plain (c ∷ s) (n, h) = rw (other_byte c n, cut_all_plain s h) refl

pub cut_all_field :
    (s rest : Bytes) → LacksDelimiter s → cut_all (s ++ tag_delimiter ∷ rest) ≡ s ∷ cut_all rest
cut_all_field [] rest h = refl
cut_all_field (c ∷ s) rest (n, h) = rw (other_byte c n, cut_all_field s rest h) refl

pub cut_some : (s : Bytes) → s ≢ [] → cut s ≡ cut_all s
cut_some [] n = absurd (n refl)
cut_some (c ∷ s) n = refl

pub cut_more :
    (s rest : Bytes) → cut (s ++ tag_delimiter ∷ rest) ≡ cut_all (s ++ tag_delimiter ∷ rest)
cut_more [] rest = refl
cut_more (c ∷ s) rest = refl

abbrev pub server : StringToArray
server = record {
  string_to_array = cut;
  no_text = refl;
  one_field = λ s n h. cut_some s n ∙ cut_all_plain s h;
  cut_field =
      λ s rest h n. cut_more s rest ∙ cut_all_field s rest h ∙ ap (◌∷◌ s) (sym (cut_some rest n));
}

pub plain_course : LacksDelimiter course_tag
plain_course = (ground arith, tt)

string_to_array-join_tags_example :
    cut (join_tags (values course_and_student)) ≡ values course_and_student
unfolding values lt_bytes
string_to_array-join_tags_example =
    string_to_array-join_tags server course_and_student
      ((λ e. cc), plain_course, ((λ e. cc), (ground arith, tt), tt))

-- The second command of `refused` is the one that the stored events violate.
pub below_two : (se : SequencedEvent) → Memᴰ se two_events.events → se.position.value ≤ 2
below_two se (Memᴰ.head e) = ground arith
below_two se (Memᴰ.tail (Memᴰ.head e)) = ground arith
below_two se (Memᴰ.tail (Memᴰ.tail m)) = elim m [ ]

pub refused-AllSendable : AllSendable refused
unfolding values
refused-AllSendable = (tt, ((refl, (((λ e. cc), plain_course, tt), tt), tt), tt))

pub second-Matches : Matches joins joined_event
second-Matches = inr (joined_item, Memᴰ.head refl, (Memᴰ.head refl, λ v m. Memᴰ.tail m))

barrier_meets_writer_example :
    Meet
      (compute_reader_lock_keys joins)
      (compute_writer_lock_keys (joined_event ∷ []) (some none_since))
barrier_meets_writer_example =
    barrier_meets_writer joins (joined_event ∷ []) (some none_since) joined_event (Memᴰ.head refl)
      second-Matches

writers_exclude_example :
    (k : ℤ) × Memᴰ k (compute_writer_lock_keys (joined_event ∷ []) (some none_since)).leaf_x
    × Memᴰ k (compute_writer_lock_keys (joined_event ∷ []) none).leaf_x
unfolding validate_append_condition len
writers_exclude_example =
    writers_exclude (joined_event ∷ []) (joined_event ∷ []) none_since none joined_event refl
      (Memᴰ.head refl) second-Matches

abbrev beyond : SequencePosition
beyond = record { value = 2 ^ 63 }

position_to_int64_iff_example :
    ((position_to_int64 beyond ≡ some (pos (2 ^ 63))) ↔ (2 ^ 63 < 2 ^ 63))
    × ((position_to_int64 beyond ≡ none) ↔ (2 ^ 63 ≤ 2 ^ 63))
position_to_int64_iff_example = position_to_int64_iff beyond (omega arith)

delimiter_collision_example :
    (tags_from ((course_tag ++ tag_delimiter ∷ student_tag) ∷ [])
      ≡ ok (joined_tags course_tag student_tag))
    × (tags_from (course_tag ∷ student_tag ∷ []) ≡ ok (separate_tags course_tag student_tag))
    × (equal (joined_tags course_tag student_tag) (separate_tags course_tag student_tag) ≡ false)
    × (join_tags (values (joined_tags course_tag student_tag))
        ≡ join_tags (values (separate_tags course_tag student_tag)))
unfolding is_valid_tag_token lt_bytes
delimiter_collision_example = delimiter_collision course_tag student_tag refl refl refl
