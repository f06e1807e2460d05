-- ===== src/Tests.antt =====
-- Runs of the model on small inputs, one for each theorem with conditions.
mod Bridge
mod Oauth
mod Paths
mod Exclusion
mod Files
mod Reading
mod Mutations
