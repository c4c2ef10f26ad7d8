-- ===== src/Rag.antt =====
-- packages/shared/rag: from ranked spans to an answer, or a refusal.
pub mod Cite
pub mod Permalink
pub mod Answer
pub mod Assembly
pub mod Marker
pub mod Decide
pub mod Fuse
pub mod Terms
pub mod Retrieve
pub mod Bounds
pub mod Spans
pub mod Outcome
mod Tests
mod AnswerTests
