-- ===== src/Triton.antt =====
-- csrc/kernels/triton: the device programs and their launchers, one lane of a block at a time.
pub mod Device
pub mod Stores
pub mod FlashAttn
pub mod OnlineSoftmax
pub mod Tiles
pub mod Attention
pub mod Launch
pub mod Int4Gemm
pub mod Nibbles
pub mod Dequant
pub mod GemmLaunch
pub mod Rope
pub mod Rotation
pub mod RopeLaunch
pub mod RopeGrid
pub mod Numbers
mod Tests
