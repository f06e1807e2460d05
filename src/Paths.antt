-- ===== src/Paths.antt =====
-- The path rules of paths.py, through which every file operation goes.
pub mod Parts
pub mod Policy
pub mod Depth
pub mod Safe
pub mod Again
pub mod Reserved
