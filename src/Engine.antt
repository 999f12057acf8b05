-- ===== src/Engine.antt =====
-- cudaforge/engine.py: the synchronous engine and its asynchronous front.
pub mod Types
pub mod Native
pub mod Core
pub mod Sync
pub mod Ownership
pub mod Outputs
pub mod Streams
pub mod Delivery
mod Tests
