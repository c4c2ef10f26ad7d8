-- ===== src/Store.antt =====
-- packages/shared/store: statements of SQL as functions of the tables.
pub mod Evict
pub mod Gone
pub mod Evicted
pub mod Callers
pub mod Chains
pub mod Rounds
pub mod Complete
pub mod Nearest
pub mod Reached
mod Tests
mod EvictTests
