-- ===== src/Chunk.antt =====
-- packages/shared/chunk: cutting one file into the regions that a span is made of.
pub mod Defs
pub mod Ast
pub mod Strip
pub mod Blanking
pub mod Tiling
pub mod Exact
mod Tests
mod StripTests
