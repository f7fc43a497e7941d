-- ===== src/Tests.antt =====
-- The theorems at concrete inputs that meet their hypotheses, one module for each package.
mod Samples
mod EventStore
mod Memory
mod Subscription
mod Postgres
mod Append
mod Cursor
mod Server
mod Reads
