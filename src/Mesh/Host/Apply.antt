-- ===== src/Mesh/Host/Apply.antt =====
-- `apply` of crates/celmesh/src/host.rs: every operation behind its capability.
use celium.Prelude.{[], if◌then◌else◌}
use celium.Vault.Volumes
use celium.Vault.Networks
use celium.Vault.Networks.Nics
use celium.Vault.Networks.Policies
use celium.Mesh.Capabilities.{contains, required, op_tag}
use celium.Mesh.Operations.{VmOp}
use celium.Mesh.Operations
use celium.Mesh.Replies
use celium.Mesh.Replies.{HostResult, done, refused, denied}
use celium.Mesh.Host.{MemVmHost, Outcome, create_vm, start_vm, stop_vm, delete_vm}
use celium.Mesh.Host.Storage
use celium.Mesh.Host.Networking

-- The `match` over the operations.
unfoldable pub dispatch : MemVmHost → VmOp → Outcome
dispatch h (Operations.create label policy image cpus memory crc) =
    create_vm h label policy image cpus memory crc
dispatch h (Operations.start vm_id) = start_vm h vm_id
dispatch h (Operations.stop vm_id) = stop_vm h vm_id
dispatch h (Operations.delete vm_id) = delete_vm h vm_id
dispatch h Operations.list = (h, done (Replies.listed []))
dispatch h (Operations.create_volume name size) = Storage.create_volume h name size
dispatch h (Operations.delete_volume id) = Storage.delete_volume h id
dispatch h Operations.list_volumes = (h, done (Replies.volumes_listed (Volumes.list h.vault)))
dispatch h (Operations.attach_volume vm_id id mount_name) =
    Storage.attach_volume h vm_id id mount_name
dispatch h (Operations.detach_volume vm_id id) = Storage.detach_volume h vm_id id
dispatch h (Operations.read_volume id offset len) = (h, Storage.read_volume h id offset len)
dispatch h (Operations.write_volume id offset bytes) = Storage.write_volume h id offset bytes
dispatch h (Operations.create_snapshot id name) = Storage.create_snapshot h id name
dispatch h (Operations.list_snapshots id) =
    (h, done (Replies.snapshots_listed (Volumes.list_snapshots h.vault id)))
dispatch h (Operations.delete_snapshot id) = Storage.delete_snapshot h id
dispatch h (Operations.restore_snapshot id) = Storage.restore_snapshot h id
dispatch h (Operations.create_network name cidr) = Networking.create_network h name cidr
dispatch h (Operations.delete_network id) = Networking.delete_network h id
dispatch h Operations.list_networks =
    (h, done (Replies.networks_listed (Networks.list_networks h.nets)))
dispatch h (Operations.attach_nic id vm_id ip) = Networking.attach_nic h id vm_id ip
dispatch h (Operations.detach_nic id) = Networking.detach_nic h id
dispatch h Operations.list_nics = (h, done (Replies.nics_listed (Nics.list_nics h.nets)))
dispatch h (Operations.create_security_group name rules) =
    Networking.create_security_group h name rules
dispatch h (Operations.delete_security_group id) = Networking.delete_security_group h id
dispatch h Operations.list_security_groups =
    (h, done (Replies.security_groups_listed (Policies.list_security_groups h.nets)))
dispatch h (Operations.create_load_balancer name id vip port algo backends) =
    Networking.create_load_balancer h name id vip port algo backends
dispatch h (Operations.delete_load_balancer id) = Networking.delete_load_balancer h id
dispatch h Operations.list_load_balancers =
    (h, done (Replies.load_balancers_listed (Policies.list_load_balancers h.nets)))

unfoldable pub apply : MemVmHost → VmOp → Outcome
apply h op =
    if contains h.caps (required op) then dispatch h op else (h, refused (denied (op_tag op)))
