-- ===== src/Arm64.antt =====
-- Code generation for the host (src/arm64).
pub mod Assembler
pub mod CodeBuffer
mod Examples
