-- ===== src/Admit.antt =====
-- packages/shared/admit/admit.go: which submitted URL may be cloned.
mod Defs
pub mod Sound
mod Tests
unfoldable pub use Defs.*
