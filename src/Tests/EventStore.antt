-- ===== src/Tests/EventStore.antt =====
-- Witnesses of the package eventstore.
use dcb_event_store_pg_go.Base.{
  ◌≡◌, ◌≢◌, ◌↔◌, refl, true, false, List, [], ◌∷◌, map, none, some, Bytes, codes, ok, all, arith,
  Memᴰ,
}
use dcb_event_store_pg_go.EventStore.Condition.{validate_append_condition}
use dcb_event_store_pg_go.EventStore.Condition.Scope.{Scoped, validate_iff}
use dcb_event_store_pg_go.EventStore.Position.{
  SequencePosition, Fits, to_string, parse_sequence_position,
}
use dcb_event_store_pg_go.EventStore.Position.Laws.{parse_sequence_position_iff}
use dcb_event_store_pg_go.EventStore.Query.{is_all, query_from_items}
use dcb_event_store_pg_go.EventStore.Query.Creation.{Typed, query_from_items_iff}
use dcb_event_store_pg_go.EventStore.Tags.{
  Tags, tags_from, tags_from_map, is_valid_tag_token, insert_key, values, equal,
}
use dcb_event_store_pg_go.EventStore.Tags.Creation.{tags_from_valid}
use dcb_event_store_pg_go.EventStore.Tags.Equality.{values-eq_iff}
use dcb_event_store_pg_go.EventStore.Tags.FromMap.{entry_tag, ValidEntries, tags_from_map_sound}
use dcb_event_store_pg_go.EventStore.Tags.Members.{Distinct, SameMembers}
use dcb_event_store_pg_go.Tests.Samples.{
  course_tag, student_tag, course_and_student, student_and_course, joined_item, joins, none_since,
}

parse_sequence_position_iff_example :
    (parse_sequence_position (codes "007") ≡ some (record { value = 7 }))
    ↔ ((codes "007" ≡ to_string (record { value = 7 })) × Fits (record { value = 7 }))
parse_sequence_position_iff_example =
    parse_sequence_position_iff (codes "007") (record { value = 7 })

abbrev three : SequencePosition
three = record { value = 3 }

abbrev five : SequencePosition
five = record { value = 5 }

student_ne_course : ¬ Memᴰ student_tag (course_tag ∷ [])
student_ne_course (Memᴰ.head e) = ground arith
student_ne_course (Memᴰ.tail m) = elim m [ ]

course_ne_student : ¬ Memᴰ course_tag (student_tag ∷ [])
course_ne_student (Memᴰ.head e) = ground arith
course_ne_student (Memᴰ.tail m) = elim m [ ]

not_in_nil : {v : Bytes} → ¬ Memᴰ v []
not_in_nil m = elim m [ ]

course_and_student-Distinct : Distinct course_and_student.values
course_and_student-Distinct = (student_ne_course, (not_in_nil, tt))

student_and_course-Distinct : Distinct student_and_course.values
student_and_course-Distinct = (course_ne_student, (not_in_nil, tt))

values-eq_iff_example :
    (values course_and_student ≡ values student_and_course)
    ↔ (equal course_and_student student_and_course ≡ true)
values-eq_iff_example =
    values-eq_iff course_and_student student_and_course course_and_student-Distinct
      student_and_course-Distinct

tags_from_valid_example :
    (t : Tags) × (tags_from (codes "s" ∷ codes "c" ∷ codes "s" ∷ []) ≡ ok t)
    × Distinct t.values
    × SameMembers t.values (codes "s" ∷ codes "c" ∷ codes "s" ∷ [])
unfolding is_valid_tag_token
tags_from_valid_example = tags_from_valid (codes "s" ∷ codes "c" ∷ codes "s" ∷ []) refl

abbrev one_entry : List (Bytes × Bytes)
one_entry = (codes "id", codes "7") ∷ []

abbrev id_tag : Tags
id_tag = record { values = codes "id=7" ∷ [] }

made_from_map : tags_from_map one_entry ≡ ok id_tag
unfolding tags_from_map insert_key is_valid_tag_token
made_from_map = refl

tags_from_map_sound_example :
    (one_entry ≢ [])
    × ValidEntries one_entry
    × Distinct id_tag.values
    × SameMembers id_tag.values (map entry_tag one_entry)
    × (all is_valid_tag_token (map entry_tag one_entry) ≡ true)
tags_from_map_sound_example = tags_from_map_sound one_entry id_tag made_from_map

query_from_items_iff_example : (query_from_items (joined_item ∷ []) ≡ ok joins) ↔ (
    (joined_item ∷ [] ≢ [])
    × Typed (joined_item ∷ [])
    × (joins ≡ record { items = joined_item ∷ []; all_events = false }))
query_from_items_iff_example = query_from_items_iff (joined_item ∷ []) joins

validate_iff_example : (validate_append_condition none_since ≡ none) ↔ (
    (is_all none_since.fail_if_events_match ≡ false) × Scoped none_since.fail_if_events_match.items)
validate_iff_example = validate_iff none_since
