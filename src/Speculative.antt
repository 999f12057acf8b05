-- ===== src/Speculative.antt =====
-- cudaforge/speculative.py: speculative decoding with a draft and a target model.
pub mod Tensors
pub mod Sampling
pub mod Step
pub mod Verified
pub mod Acceptance
mod Tests
