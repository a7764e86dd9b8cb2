-- ===== src/Lib.antt =====
-- Celium: a virtualisation platform in Rust. This library models parts of four of its crates and proves
-- that they keep what they promise.
--
--   crates/celtenancy: tenants in a hierarchy, their users, capabilities, quotas, passwords and
--   sessions. Tenancy/Caps, Quota, Namespace, Auth and Model are caps.rs, quota.rs, namespace.rs,
--   auth.rs and the records of tenant.rs, user.rs and store.rs. Tenancy/Tenants, Charging, Sessions
--   and Admin are the methods of `StoreState` in store.rs: a method is a function from a state to a
--   state and a result, its checks first and its writes after them. Tenancy/Store is the machine of
--   all methods that write, as `MemTenantStore` runs them under its lock.
--
--   crates/celmesh: membership.rs is the gossiped membership table with its failure detector
--   (Mesh/Membership); proto.rs has the operations between nodes and their replies
--   (Mesh/Operations, Mesh/Replies), capabilities.rs what each of them requires
--   (Mesh/Capabilities); federation.rs is the table of the VMs of all nodes (Mesh/Federation);
--   host.rs is the host in memory (Mesh/Host: its slots and the operations on VMs; Host/Storage and
--   Host/Networking: those on its stores; Host/Apply: `apply`). Host/Effects says once what each
--   operation does to the host, and the theorems on all operations go by its cases. Three
--   operations take the slots' mutex and a store's, one after the other: Host/Sections cuts them in
--   two parts, and its machine runs the parts of all threads in any order.
--
--   crates/celvault: lib.rs is the volume store in memory with its snapshots (Vault/Volumes,
--   its statistics and integrity check in Vault/Volumes/Report), and
--   its sequences of calls (Vault/Volumes/History). Of network.rs Vault/Network has the records,
--   the blocks of addresses with their text and the choice of a load balancer; Vault/Networks is
--   the store in memory, with Networks/Nics for the allocation of addresses, Networks/Policies for
--   security groups and load balancers, and Networks/History for its sequences of calls.
--
--   crates/celhyper: wire.rs is the format of the frames between a host and the hypervisor's kernel.
--   Hyper/Writer and Hyper/Wire are the encoder of replies, a write being a function of the bytes
--   written so far; Hyper/Wire/Fits bounds them by the buffer of bridge.rs. Hyper/Scanner is the
--   scanner as the bytes that it has not read, Hyper/Request and Request/Decode the decoder of
--   requests, Request/Frames the documented shape of the frames. Hyper/Hex is the hex text of an
--   image, written by crates/celmesh/src/hyper_host.rs and read by the kernel; Hyper/Images is the
--   upload of an image with its checksum, from `stage_image` there to the slot of image_loader.rs.
--
-- The tenant store hands capabilities to the mesh (Tenancy/Caps/Projection) and quota charges to
-- its own chain of ancestors; a host calls the two stores of the vault, and the invariant of a host
-- is that of its stores with its own. Prelude has what they share: the
-- native numbers and their tests, bits, maps with ordered keys (Prelude/Map), decimal text
-- (Prelude/Decimal), `CelError` and `CelResult` (Prelude/Error, crates/celcommon/src/error.rs),
-- saturating arithmetic (Prelude/Words).
--
-- Text is its list of bytes. A machine integer is a number, and each operation writes out how it
-- saturates or where it is checked. `usize` has 64 bits. Argon2 and SHA-256 are the parameters of
-- the record `Crypto`; random bytes, salts and the clock are arguments. The walk up a hierarchy has
-- the code's own bound of 65 levels, and the recursive walk down has it too; decimal text has fuel
-- 20, the number of digits of the largest `u64`. The scan for an address has the capacity of
-- its block as fuel, as the loop of the code has it as its bound. The loop over the entries of a
-- frame has the number of its bytes and one as fuel, which is enough since each turn reads a byte
-- (Hyper/Request/Total); the loops over digits have the size of the code's buffers.
--
-- Not modelled: files, sockets, the asynchronous runtime, the hypervisor kernel apart from its
-- frames and its staged image, the boot loader, disk images, the command line, and the transport of
-- the mesh, since they are input and output or run other programs.
pub mod Prelude
pub mod Tenancy
pub mod Mesh
pub mod Vault
pub mod Hyper
