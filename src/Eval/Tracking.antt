-- ===== src/Eval/Tracking.antt =====
-- eval_platform/tracking: the artifact store, and the log of an experiment's run.
pub mod Store
pub mod Stored
pub mod Logger
pub mod Recorded
mod Tests
