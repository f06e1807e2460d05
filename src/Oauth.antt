-- ===== src/Oauth.antt =====
-- The optional OAuth authorization service (src/serverfs_mcp/auth_store.py and auth_provider.py).
pub mod Tables
pub mod Logins
pub mod Tokens
pub mod Provider
pub mod SingleUse
pub mod Revoked
pub mod Rotated
pub mod Bound
pub mod Spent
