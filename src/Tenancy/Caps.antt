-- ===== src/Tenancy/Caps.antt =====
-- crates/celtenancy/src/caps.rs: the capability bit-set of tenants, users and sessions. A set is
-- its `u32` of bits.
pub mod Laws
pub mod Projection
use celium.Prelude.{ℕ, ◌-◌, Bool, bit_and, bit_or, eqb, if◌then◌else◌}
use celium.Prelude.Error.{CelResult, ok, err, capability_denied}
use celium.Prelude.Words.{u32_max}

abbrev pub TenantCaps : Type 0
TenantCaps = ℕ

abbrev pub none_caps : TenantCaps
none_caps = 0

abbrev pub vm_lifecycle_read : TenantCaps
vm_lifecycle_read = 0x1

abbrev pub vm_lifecycle_write : TenantCaps
vm_lifecycle_write = 0x2

abbrev pub volume_read : TenantCaps
volume_read = 0x4

abbrev pub volume_write : TenantCaps
volume_write = 0x8

abbrev pub volume_attach : TenantCaps
volume_attach = 0x10

abbrev pub snapshot_read : TenantCaps
snapshot_read = 0x20

abbrev pub snapshot_write : TenantCaps
snapshot_write = 0x40

abbrev pub network_read : TenantCaps
network_read = 0x80

abbrev pub network_write : TenantCaps
network_write = 0x100

abbrev pub secgroup_read : TenantCaps
secgroup_read = 0x200

abbrev pub secgroup_write : TenantCaps
secgroup_write = 0x400

abbrev pub lb_read : TenantCaps
lb_read = 0x800

abbrev pub lb_write : TenantCaps
lb_write = 0x1000

infixl 45 ◌∣∣◌
abbrev ◌∣∣◌ : TenantCaps → TenantCaps → TenantCaps
a ∣∣ b = bit_or a b

abbrev pub all_caps : TenantCaps
all_caps =
    vm_lifecycle_read ∣∣ vm_lifecycle_write ∣∣ volume_read ∣∣ volume_write ∣∣ volume_attach
    ∣∣ snapshot_read ∣∣ snapshot_write ∣∣ network_read ∣∣ network_write ∣∣ secgroup_read
    ∣∣ secgroup_write ∣∣ lb_read ∣∣ lb_write

-- Unknown bits are dropped.
unfoldable pub from_bits_truncate : ℕ → TenantCaps
from_bits_truncate bits = bit_and bits all_caps

-- `self.contains(other)`: the subset test.
unfoldable pub contains : TenantCaps → TenantCaps → Bool
contains self other = eqb (bit_and self other) other

unfoldable pub grant : TenantCaps → TenantCaps → TenantCaps
grant self other = bit_or self other

-- `self.0 &= !other.0`; the complement of a `u32` is its distance from the largest one.
unfoldable pub revoke : TenantCaps → TenantCaps → TenantCaps
revoke self other = bit_and self (u32_max - other)

-- A user's capabilities inside a tenant: the request, which the root set must contain.
unfoldable pub attenuate : TenantCaps → TenantCaps → CelResult TenantCaps
unfolding contains
attenuate root requested =
    if contains root requested
    then ok requested
    else err (capability_denied "tenant.user.attenuate")

-- The silent intersection of `create_session` and `rotate_root_caps`.
unfoldable pub narrow : TenantCaps → TenantCaps → TenantCaps
unfolding from_bits_truncate
narrow held requested = from_bits_truncate (bit_and held requested)
