-- ===== src/Eval/Pareto.antt =====
-- eval_platform/statistics/pareto.py: the Pareto frontier of a list of benchmark points.
pub mod Sweep
pub mod Maximal
pub mod Frontier
pub mod Points
pub mod Optimal
