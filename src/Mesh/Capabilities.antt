-- ===== src/Mesh/Capabilities.antt =====
-- crates/celmesh/src/capabilities.rs: the capability set of a host, and the capability that each
-- operation requires. A set is its `u32` of bits.
use celium.Prelude.{ℕ, ◌-◌, ◌^◌, Bool, bit_and, bit_or, eqb, String}
use celium.Prelude.Words.{u32_max}
use celium.Mesh.Operations.{VmOp}
use celium.Mesh.Operations

abbrev pub Capabilities : Type 0
Capabilities = ℕ

abbrev pub none : Capabilities
none = 0

abbrev pub vm_lifecycle_read : Capabilities
vm_lifecycle_read = 2 ^ 0

abbrev pub vm_lifecycle_write : Capabilities
vm_lifecycle_write = 2 ^ 1

abbrev pub volume_read : Capabilities
volume_read = 2 ^ 2

abbrev pub volume_write : Capabilities
volume_write = 2 ^ 3

abbrev pub volume_attach : Capabilities
volume_attach = 2 ^ 4

abbrev pub snapshot_read : Capabilities
snapshot_read = 2 ^ 5

abbrev pub snapshot_write : Capabilities
snapshot_write = 2 ^ 6

abbrev pub network_read : Capabilities
network_read = 2 ^ 7

abbrev pub network_write : Capabilities
network_write = 2 ^ 8

abbrev pub secgroup_read : Capabilities
secgroup_read = 2 ^ 9

abbrev pub secgroup_write : Capabilities
secgroup_write = 2 ^ 10

abbrev pub lb_read : Capabilities
lb_read = 2 ^ 11

abbrev pub lb_write : Capabilities
lb_write = 2 ^ 12

infixl 45 ◌∣∣◌
abbrev pub ◌∣∣◌ : Capabilities → Capabilities → Capabilities
a ∣∣ b = bit_or a b

abbrev pub all : Capabilities
all =
    vm_lifecycle_read ∣∣ vm_lifecycle_write ∣∣ volume_read ∣∣ volume_write ∣∣ volume_attach
    ∣∣ snapshot_read ∣∣ snapshot_write ∣∣ network_read ∣∣ network_write ∣∣ secgroup_read
    ∣∣ secgroup_write ∣∣ lb_read ∣∣ lb_write

unfoldable pub contains : Capabilities → Capabilities → Bool
contains self c = eqb (bit_and self c) c

unfoldable pub grant : Capabilities → Capabilities → Capabilities
grant self c = bit_or self c

unfoldable pub revoke : Capabilities → Capabilities → Capabilities
revoke self c = bit_and self (u32_max - c)

unfoldable pub required : VmOp → Capabilities
required (Operations.create _ _ _ _ _ _) = vm_lifecycle_write
required (Operations.start _) = vm_lifecycle_write
required (Operations.stop _) = vm_lifecycle_write
required (Operations.delete _) = vm_lifecycle_write
required Operations.list = vm_lifecycle_read
required (Operations.create_volume _ _) = volume_write
required (Operations.delete_volume _) = volume_write
required Operations.list_volumes = volume_read
required (Operations.attach_volume _ _ _) = volume_attach
required (Operations.detach_volume _ _) = volume_attach
required (Operations.read_volume _ _ _) = volume_read
required (Operations.write_volume _ _ _) = volume_write
required (Operations.create_snapshot _ _) = snapshot_write
required (Operations.list_snapshots _) = snapshot_read
required (Operations.delete_snapshot _) = snapshot_write
required (Operations.restore_snapshot _) = snapshot_write
required (Operations.create_network _ _) = network_write
required (Operations.delete_network _) = network_write
required Operations.list_networks = network_read
required (Operations.attach_nic _ _ _) = network_write
required (Operations.detach_nic _) = network_write
required Operations.list_nics = network_read
required (Operations.create_security_group _ _) = secgroup_write
required (Operations.delete_security_group _) = secgroup_write
required Operations.list_security_groups = secgroup_read
required (Operations.create_load_balancer _ _ _ _ _ _) = lb_write
required (Operations.delete_load_balancer _) = lb_write
required Operations.list_load_balancers = lb_read

unfoldable pub op_tag : VmOp → String
op_tag (Operations.create _ _ _ _ _ _) = "vm.create"
op_tag (Operations.start _) = "vm.start"
op_tag (Operations.stop _) = "vm.stop"
op_tag (Operations.delete _) = "vm.delete"
op_tag Operations.list = "vm.list"
op_tag (Operations.create_volume _ _) = "vol.create"
op_tag (Operations.delete_volume _) = "vol.delete"
op_tag Operations.list_volumes = "vol.list"
op_tag (Operations.attach_volume _ _ _) = "vol.attach"
op_tag (Operations.detach_volume _ _) = "vol.detach"
op_tag (Operations.read_volume _ _ _) = "vol.read"
op_tag (Operations.write_volume _ _ _) = "vol.write"
op_tag (Operations.create_snapshot _ _) = "snap.create"
op_tag (Operations.list_snapshots _) = "snap.list"
op_tag (Operations.delete_snapshot _) = "snap.delete"
op_tag (Operations.restore_snapshot _) = "snap.restore"
op_tag (Operations.create_network _ _) = "net.create"
op_tag (Operations.delete_network _) = "net.delete"
op_tag Operations.list_networks = "net.list"
op_tag (Operations.attach_nic _ _ _) = "net.nic.attach"
op_tag (Operations.detach_nic _) = "net.nic.detach"
op_tag Operations.list_nics = "net.nic.list"
op_tag (Operations.create_security_group _ _) = "sg.create"
op_tag (Operations.delete_security_group _) = "sg.delete"
op_tag Operations.list_security_groups = "sg.list"
op_tag (Operations.create_load_balancer _ _ _ _ _ _) = "lb.create"
op_tag (Operations.delete_load_balancer _) = "lb.delete"
op_tag Operations.list_load_balancers = "lb.list"
