-- ===== src/Bridge.antt =====
-- The Agent Bridge (agent_bridge/src/serverfs_agent_bridge).
pub mod Errors
pub mod Status
pub mod Store
pub mod Lease
pub mod Policy
pub mod Guards
pub mod Advice
pub mod Recovery
pub mod Submission
pub mod Answers
