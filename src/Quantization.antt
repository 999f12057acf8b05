-- ===== src/Quantization.antt =====
-- cudaforge/quantization.py: integer targets of a weight matrix and their packing into bytes.
pub mod Levels
pub mod Packing
pub mod Nibbles
pub mod RoundTrip
pub mod Divergence
pub mod Threshold
mod Tests
