-- ===== src/Memory.antt =====
-- The package memory.
pub mod Order
pub mod Matching
pub mod Position
pub mod Store
pub mod Iterator
pub mod Subscription
