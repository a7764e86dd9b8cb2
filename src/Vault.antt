-- ===== src/Vault.antt =====
-- crates/celvault: the volumes of a node and their snapshots, and its load balancers.
pub mod Volumes
pub mod Network
pub mod Networks
pub mod Attachments
mod Witnesses
