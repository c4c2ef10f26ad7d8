-- ===== src/Jobs.antt =====
-- packages/shared/jobs: a queue of indexing jobs with leases.
pub mod Queue
pub mod Table
pub mod Steps
pub mod Invariant
pub mod Leases
pub mod Retries
mod Tests
