-- ===== src/Tenancy/Caps/Projection.antt =====
-- `TenantCaps::to_mesh_capabilities` of crates/celtenancy/src/caps.rs: what a tenant holds is what its
-- host allows.
use celium.Prelude.{
  ℕ, zero, suc, ◌*◌, ◌/◌, ◌%◌, ◌^◌, ◌≡◌, ◌⊎◌, refl, sym, ◌∙◌, true, bit_and, bit_or, eqb, eqb_iff,
  arith, inl, inr, Bool-cases, if◌then◌else◌,
}
use celium.Prelude.Bits.{
  bit_and_assoc, bit_and-zero, bit_and-bit_or_distrib, zero-bit_or, bit_or_comm,
}
use celium.Prelude.Bits.Step.{bit_and_step}
use native.Mathlib.Nat.{pow-suc}
use celium.Mesh.Operations
use celium.Mesh.Capabilities
use celium.Mesh.Capabilities.{Capabilities, required}
use celium.Mesh.Operations.{VmOp}
use celium.Tenancy.Caps.{
  TenantCaps, contains, vm_lifecycle_read, vm_lifecycle_write, volume_read, volume_write,
  volume_attach, snapshot_read, snapshot_write, network_read, network_write, secgroup_read,
  secgroup_write, lb_read, lb_write,
}

-- `if self.contains(bit) { c |= mesh_bit; }`
abbrev pub carry : TenantCaps → TenantCaps → Capabilities → Capabilities → Capabilities
carry self bit mesh_bit c = if contains self bit then bit_or c mesh_bit else c

unfoldable pub to_mesh_capabilities : TenantCaps → Capabilities
to_mesh_capabilities self =
    let c = Capabilities.none in
    let c = carry self vm_lifecycle_read Capabilities.vm_lifecycle_read c in
    let c = carry self vm_lifecycle_write Capabilities.vm_lifecycle_write c in
    let c = carry self volume_read Capabilities.volume_read c in
    let c = carry self volume_write Capabilities.volume_write c in
    let c = carry self volume_attach Capabilities.volume_attach c in
    let c = carry self snapshot_read Capabilities.snapshot_read c in
    let c = carry self snapshot_write Capabilities.snapshot_write c in
    let c = carry self network_read Capabilities.network_read c in
    let c = carry self network_write Capabilities.network_write c in
    let c = carry self secgroup_read Capabilities.secgroup_read c in
    let c = carry self secgroup_write Capabilities.secgroup_write c in
    let c = carry self lb_read Capabilities.lb_read c in
    let c = carry self lb_write Capabilities.lb_write c in c

-- A single bit is in a set or has nothing in common with it.
bit-cases : (k c : ℕ) → (bit_and c (2 ^ k) ≡ 2 ^ k) ⊎ (bit_and c (2 ^ k) ≡ 0)
bit-cases zero c = elim (Bool-cases (eqb (c % 2) 1)) [
  | inl e ↦ inl (ground (arith, e, bit_and_step c 1, bit_and-zero (c / 2)))
  | inr e ↦ inr (ground (arith, e, bit_and_step c 1, bit_and-zero (c / 2)))
]
bit-cases (suc k) c =
    let half : 2 ^ suc k / 2 ≡ 2 ^ k = omega (arith, pow-suc 2 k) in
    let even : 2 ^ suc k % 2 ≡ 0 = omega (arith, pow-suc 2 k) in
    let step : bit_and c (2 ^ suc k) ≡ bit_and (c / 2) (2 ^ k) * 2 =
      bit_and_step c (2 ^ suc k) ∙ rw (half, even) (omega arith) in
    elim (bit-cases k (c / 2)) [
      | inl e ↦ inl (omega (arith, step, e, pow-suc 2 k))
      | inr e ↦ inr (omega (arith, step, e))
    ]

-- One bit more of the part of the set that has been carried over.
carry-grows :
    (k c part acc : ℕ)
    → acc ≡ bit_and c part
    → carry c (2 ^ k) (2 ^ k) acc ≡ bit_and c (bit_or part (2 ^ k))
unfolding contains
carry-grows k c part acc e = elim (bit-cases k c) [
  | inl here ↦
      let same : contains c (2 ^ k) ≡ true = (eqb_iff (bit_and c (2 ^ k)) (2 ^ k)).1 here in
      rw (same, bit_and-bit_or_distrib part (2 ^ k) c, e, here) refl
  | inr gone ↦ elim (Bool-cases (eqb (bit_and c (2 ^ k)) (2 ^ k))) [
    | inl odd ↦
        let here = (eqb_iff (bit_and c (2 ^ k)) (2 ^ k)).0 odd in
        rw (odd, bit_and-bit_or_distrib part (2 ^ k) c, e, here) refl
    | inr other ↦
        rw (other, bit_and-bit_or_distrib part (2 ^ k) c, e, gone)
          (sym (bit_or_comm (bit_and c part) 0 ∙ zero-bit_or (bit_and c part)))
  ]
]

-- The mesh's set is the tenant's, without the bits that have no name.
pub to_mesh_capabilities_lem :
    (c : TenantCaps) → to_mesh_capabilities c ≡ bit_and c Capabilities.all
unfolding to_mesh_capabilities
to_mesh_capabilities_lem c = carry-grows 12 c 4095 _ (
    carry-grows 11 c 2047 _ (
      carry-grows 10 c 1023 _ (
        carry-grows 9 c 511 _ (
          carry-grows 8 c 255 _ (
            carry-grows 7 c 127 _ (
              carry-grows 6 c 63 _ (
                carry-grows 5 c 31 _ (
                  carry-grows 4 c 15 _ (
                    carry-grows 3 c 7 _ (
                      carry-grows 2 c 3 _
                        (carry-grows 1 c 1 _ (carry-grows 0 c 0 _ (sym (bit_and-zero c))))))))))))))

required-all : (op : VmOp) → bit_and Capabilities.all (required op) ≡ required op
unfolding required
required-all (Operations.create _ _ _ _ _ _) = refl
required-all (Operations.start _) = refl
required-all (Operations.stop _) = refl
required-all (Operations.delete _) = refl
required-all Operations.list = refl
required-all (Operations.create_volume _ _) = refl
required-all (Operations.delete_volume _) = refl
required-all Operations.list_volumes = refl
required-all (Operations.attach_volume _ _ _) = refl
required-all (Operations.detach_volume _ _) = refl
required-all (Operations.read_volume _ _ _) = refl
required-all (Operations.write_volume _ _ _) = refl
required-all (Operations.create_snapshot _ _) = refl
required-all (Operations.list_snapshots _) = refl
required-all (Operations.delete_snapshot _) = refl
required-all (Operations.restore_snapshot _) = refl
required-all (Operations.create_network _ _) = refl
required-all (Operations.delete_network _) = refl
required-all Operations.list_networks = refl
required-all (Operations.attach_nic _ _ _) = refl
required-all (Operations.detach_nic _) = refl
required-all Operations.list_nics = refl
required-all (Operations.create_security_group _ _) = refl
required-all (Operations.delete_security_group _) = refl
required-all Operations.list_security_groups = refl
required-all (Operations.create_load_balancer _ _ _ _ _ _) = refl
required-all (Operations.delete_load_balancer _) = refl
required-all Operations.list_load_balancers = refl

-- A host with the set that a tenant's capabilities project to allows exactly the operations whose
-- required capability the tenant holds.
pub contains-to_mesh_capabilities :
    (c : TenantCaps) (op : VmOp)
    → Capabilities.contains (to_mesh_capabilities c) (required op) ≡ contains c (required op)
unfolding Capabilities.contains contains
contains-to_mesh_capabilities c op =
    rw (to_mesh_capabilities_lem c, bit_and_assoc c Capabilities.all (required op), required-all op)
      refl
