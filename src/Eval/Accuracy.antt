-- ===== src/Eval/Accuracy.antt =====
-- eval_platform/pipelines/accuracy_eval.py: correctness scores of generated sequences.
pub mod Lcs
pub mod Subsequence
pub mod Rouge
pub mod Correctness
pub mod Scores
