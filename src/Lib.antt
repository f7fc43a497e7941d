-- ===== src/Lib.antt =====
-- A model of the event store for dynamic consistency boundaries: the packages eventstore, memory
-- and postgres.
--
-- The program. The package eventstore holds the vocabulary: positions, tags, queries, conditions,
-- events and iterators. A store appends batches of commands, each with events and an optional
-- condition, which fails if an event that matches its query lies behind its position; it reads
-- the events that match a query, and lets subscribers follow them. The package memory keeps all
-- events in a slice under a mutex, and wakes subscribers by closing a channel. The package
-- postgres keeps them in a table: an append takes advisory locks by the keys of lockkeys.go, has
-- its conditions checked by a stored function, and inserts; a read waits behind a barrier on the
-- same keys.
--
-- The files.
--   EventStore/Decimal      strconv's FormatUint and ParseUint, as eventstore/sequence_position.go
--                           uses them
--   EventStore/Position     eventstore/sequence_position.go
--   EventStore/Tags         eventstore/tags.go
--   EventStore/Query        eventstore/query.go
--   EventStore/Event        eventstore/event.go
--   EventStore/Condition    eventstore/append_condition.go, append_condition_error.go,
--                           append_command.go, store.go
--   EventStore/Iterator     eventstore/event_iterator.go: Collect and All
--   Memory/Matching         memory/matching.go
--   Memory/Position         memory/position.go
--   Memory/Store            memory/store.go: New, Append, Read
--   Memory/Iterator         memory/iterator.go: sliceIterator
--   Memory/Subscription     memory/store.go: Subscribe; memory/iterator.go: subscribeIterator
--   Postgres/LockKeys       postgres/lockkeys.go
--   Postgres/Position       postgres/position.go
--   Postgres/Serialize      postgres/serialize.go
--   Postgres/Conditions     postgres/store.go: the check of conditions in SQL; postgres/append.go:
--                           checkConditions
--   Postgres/Append         postgres/append.go
--   Postgres/Cursor         postgres/cursor.go: cursorIterator
--   Postgres/Server         postgres/store.go: the functions <table>_append and <table>_barrier_hwm,
--                           and the inserts of both routes, as transactions that interleave
--   Postgres/ReadSql        postgres/readsql.go
--   Postgres/Read           postgres/read.go
--   Postgres/Open           postgres/store.go: Options, Store, New
--   Postgres/Subscribe      postgres/subscribe.go
-- A child module holds what is proved of its parent, and what the statements need: the interleaved
-- steps in Memory/Subscription/System, the specification of Append in Memory/Store/Contract.
-- The rows that a read's statement selects stand in Postgres/ReadSql/Statement.
-- Memory/Order holds the order of events, Base the shared names and lists, and Tests the sample
-- data and the runs at concrete inputs.
--
-- The state. A Go string is the list of its bytes. A map used as a set is the list of its keys in
-- some iteration order. A nil pointer is none. A call that fails gives err, one that panics panic
-- or, where it has no error, none. The memory store is a record of the events, the number of the
-- current channel, the count of channels made, and the list of the closed ones; its mutex makes
-- each method one step. A subscriber runs as a step relation on its loop and the store, in which
-- appends of other goroutines stand at any point between two steps.
--
-- On the server, any number of transactions run; a step is one statement of one of them, and each
-- lock that the ordered statement takes, and each row that an insert numbers, is a step of its
-- own. The table has the rows that are stored: what the stored function inserts for the arrays
-- of serializeEvents, each text of tags split at the delimiter again, or the rows of the COPY.
-- A job carries its route; which one the threshold chooses, Postgres/Append says. A lock is taken only while no other transaction holds one that clashes, the locks go with
-- the end of the transaction, the sequence never goes back, and a row is seen by others from the
-- commit on: the documented behaviour of PostgreSQL at its default isolation. A transaction may
-- abort at any point. The check of the conditions reads the table as it stands at its step.
--
-- Bounds and fuel. A uint64 counter wraps at 2^64; a batch must find room below that. FormatUint
-- has fuel for the 20 digits of a uint64. Collect and All have as fuel the number of calls of
-- Next, and one more call than there are events is enough. Next of the postgres subscription
-- waits as long as no event comes; its fuel counts the passes of the loop, and two are enough
-- where a drain gives events.
--
-- Parameters. The database, the pool, the listening connection and the context are records of
-- what the code calls of them, over any state and error; the theorems ask of them the outcome of
-- these calls alone, that the stored function runs on the table, or that a cursor whose
-- declaration succeeds has the rows of its statement. A cursor's connection is one with the
-- documented behaviour of FETCH: the next rows, as many as asked for where there are as many. The JSON decoder gives the two raw
-- messages of a payload back as they were written. Postgres's string_to_array is a parameter with
-- its documented behaviour: no text gives no field, and the fields are the parts between
-- delimiters.
--
-- Not modelled. The installation of the schema, which sends SQL to the server, the connections
-- and transactions of pgx, and the scan of a row into Go values; the conformance suite, which is
-- a test; durations and scheduling, of which the models keep the order of steps alone.
pub mod Base
pub mod EventStore
pub mod Memory
pub mod Postgres
pub mod Tests
