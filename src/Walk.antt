-- ===== src/Walk.antt =====
-- packages/shared/walk/walk.go: the files of a tree, and the count of their lines.
pub mod Lines
pub mod Files
pub mod Listed
mod Tests
