-- ===== src/Agent.antt =====
-- packages/shared/agent: the bounded tool loop.
pub mod Trace
pub mod Cite
pub mod State
pub mod Loop
pub mod Induction
pub mod Rules
pub mod Ceilings
pub mod Provenance
pub mod Spending
pub mod Gate
mod Tests
pub mod Repeats
pub mod Answers
pub mod Tools
pub mod Opened
mod ToolTests
pub mod Bound
