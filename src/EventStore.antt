-- ===== src/EventStore.antt =====
-- The package eventstore: positions, tags, queries, append conditions and the iterator contract.
pub mod Decimal
pub mod Position
pub mod Tags
pub mod Event
pub mod Query
pub mod Condition
pub mod Iterator
