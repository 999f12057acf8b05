-- ===== src/Benchmarks.antt =====
-- benchmarks: the benchmark suite and the regression runner.
pub mod Batcher
pub mod Counts
pub mod Admission
pub mod Pool
pub mod Regression
mod Tests
