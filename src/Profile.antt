-- ===== src/Profile.antt =====
-- The controller that copies token secrets to the namespaces of ClusterProfiles
-- (pkg/addon/manager/controller/clusterprofile_cred_syncer.go).
pub mod Hub
pub mod Cred
pub mod Sync
pub mod Memory
mod Samples
