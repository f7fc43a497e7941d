-- ===== src/Postgres.antt =====
-- The package postgres.
pub mod LockKeys
pub mod Position
pub mod Serialize
pub mod Conditions
pub mod Append
pub mod Cursor
pub mod Server
pub mod ReadSql
pub mod Read
pub mod Open
pub mod Subscribe
