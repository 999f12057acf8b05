-- ===== src/Eval.antt =====
-- eval_platform: evaluation pipelines, statistics, tracking and workloads.
pub mod Pareto
pub mod Accuracy
pub mod Workloads
pub mod Latency
pub mod Tracking
pub mod Analyzer
pub mod Orchestrator
pub mod SuiteRecords
pub mod SuiteRuns
pub mod Matrix
pub mod MatrixSize
mod Tests
mod SuiteTests
