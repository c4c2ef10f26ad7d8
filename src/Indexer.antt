-- ===== src/Indexer.antt =====
-- apps/indexer: a leased job, from the clone to the stored spans.
pub mod Vectors
pub mod Filling
pub mod Reuse
pub mod Index
pub mod Indexes
pub mod Whole
pub mod Job
pub mod Ends
pub mod Reported
pub mod Ending
mod Tests
mod JobTests
mod IndexTests
