-- ===== src/Tests/Samples.antt =====
-- A course with two events, and requests against it.
use dcb_event_store_pg_go.Base.{List, [], ◌∷◌, none, some, Bytes, codes, true, false, pos}
use dcb_event_store_pg_go.EventStore.Condition.{AppendCondition, AppendCommand, ReadOptions}
use dcb_event_store_pg_go.EventStore.Event.{Event, SequencedEvent}
use dcb_event_store_pg_go.EventStore.Query.{Query, QueryItem}
use dcb_event_store_pg_go.EventStore.Tags.{Tags}
use dcb_event_store_pg_go.Memory.Store.{Store}

abbrev pub course_tag : Bytes
course_tag = codes "c"

abbrev pub student_tag : Bytes
student_tag = codes "s"

abbrev pub created : Bytes
created = codes "Created"

abbrev pub joined : Bytes
joined = codes "Joined"

abbrev pub course : Tags
course = record { values = course_tag ∷ [] }

abbrev pub course_and_student : Tags
course_and_student = record { values = student_tag ∷ course_tag ∷ [] }

abbrev pub student_and_course : Tags
student_and_course = record { values = course_tag ∷ student_tag ∷ [] }

abbrev pub created_event : Event
created_event = record { event_type = created; tags = course; event_data = none; metadata = none }

abbrev pub joined_event : Event
joined_event = record {
  event_type = joined;
  tags = course_and_student;
  event_data = some (codes "1");
  metadata = none;
}

abbrev pub first : SequencedEvent
first = record { event = created_event; position = record { value = 1 } }

abbrev pub second : SequencedEvent
second = record { event = joined_event; position = record { value = 2 } }

-- A store after two appends.
abbrev pub two_events : Store
two_events = record { events = first ∷ second ∷ []; broadcast = 2; made = 3; closed = 1 ∷ 0 ∷ [] }

abbrev pub joined_item : QueryItem
joined_item = record { types = joined ∷ []; tags = course }

abbrev pub joins : Query
joins = record { items = joined_item ∷ []; all_events = false }

-- No one has joined since position 2.
abbrev pub none_since : AppendCondition
none_since = record { fail_if_events_match = joins; after = some (record { value = 2 }) }

-- No one has ever joined.
abbrev pub none_ever : AppendCondition
none_ever = record { fail_if_events_match = joins; after = none }

abbrev pub join_again : List AppendCommand
join_again = record { events = joined_event ∷ []; condition = some none_since } ∷ []

abbrev pub refused : List AppendCommand
refused =
    record { events = created_event ∷ []; condition = none }
    ∷ record { events = joined_event ∷ []; condition = some none_ever }
    ∷ []

abbrev pub from_start : ReadOptions
from_start = record { backwards = false; after = none; limit = pos 0 }

abbrev pub newest : ReadOptions
newest = record { backwards = true; after = none; limit = pos 1 }
