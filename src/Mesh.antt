-- ===== src/Mesh.antt =====
-- crates/celmesh: the cluster's membership table, the operations between nodes and their
-- capabilities.
pub mod Membership
pub mod Operations
pub mod Capabilities
pub mod Federation
pub mod Replies
pub mod Host
mod Witnesses
