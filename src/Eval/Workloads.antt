-- ===== src/Eval/Workloads.antt =====
-- eval_platform/workloads: evaluation samples and the comparison of two models' answers.
pub mod Samples
pub mod ErrorAnalysis
pub mod Drift
pub mod Loader
pub mod Stream
mod Tests
