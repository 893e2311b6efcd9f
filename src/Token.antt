-- ===== src/Token.antt =====
-- The token controller of the agent (pkg/addon/agent/controller/token.go).
pub mod Jwt
pub mod Cluster
pub mod Rotation
pub mod Build
pub mod Sync
pub mod Reconcile
pub mod Memory
pub mod Samples
