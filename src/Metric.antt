-- ===== src/Metric.antt =====
-- apps/evalrunner/internal/metric: the arithmetic of the evaluation.
pub mod Defs
pub mod Sweep
pub mod Rank
pub mod GoldSet
mod Tests
