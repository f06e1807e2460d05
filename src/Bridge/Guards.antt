-- ===== src/Bridge/Guards.antt =====
-- recovery.py of the Bridge: the files that mark a workdir whose agent may still run.
pub mod Files
pub mod Manager
pub mod Kept
pub mod Held
pub mod Scan
