-- ===== src/Hyper.antt =====
-- crates/celhyper: the wire format between a host and the hypervisor's kernel.
pub mod Error
pub mod Writer
pub mod Wire
pub mod Scanner
pub mod Request
pub mod Hex
pub mod Images
mod Witnesses
