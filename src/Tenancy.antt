-- ===== src/Tenancy.antt =====
-- crates/celtenancy: tenants, their users, capabilities, quotas and sessions.
pub mod Quota
pub mod Caps
pub mod Namespace
pub mod Auth
pub mod Model
pub mod Tenants
pub mod Charging
pub mod Sessions
pub mod Admin
pub mod Invariant
pub mod Store
mod Examples
mod Witnesses
