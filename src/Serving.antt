-- ===== src/Serving.antt =====
-- serving: the HTTP front of the engine.
pub mod Backpressure
pub mod Load
pub mod Generator
pub mod Generate
pub mod Permits
mod Tests
