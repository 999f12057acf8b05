-- ===== src/Eval/Latency.antt =====
-- eval_platform/pipelines/latency_eval.py: the timing of a generation loop.
pub mod Profile
pub mod Steps
pub mod Schedule
mod Tests
