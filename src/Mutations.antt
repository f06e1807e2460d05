-- ===== src/Mutations.antt =====
-- Changes to files (src/serverfs_mcp).
pub mod Text
pub mod Clean
pub mod Files
pub mod Operations
pub mod Steps
pub mod Replace
pub mod Stale
pub mod Edited
pub mod Exclusive
pub mod Left
pub mod Serial
