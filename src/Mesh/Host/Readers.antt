-- ===== src/Mesh/Host/Readers.antt =====
-- A host of crates/celmesh/src/host.rs that has granted no right to write is left as it is.
use celium.Prelude.{◌≡◌, ◌⊎◌, refl, ap, ◌∙◌, false, List, [], ◌∷◌, inl, inr, Bool-cases}
use celium.Mesh.Capabilities.{
  Capabilities, contains, required, vm_lifecycle_write, volume_write, volume_attach, snapshot_write,
  network_write, secgroup_write, lb_write,
}
use celium.Mesh.Operations.{VmOp}
use celium.Mesh.Operations
use celium.Mesh.Host.{MemVmHost}
use celium.Mesh.Host.Apply.{apply, dispatch}

-- A set without any of the capabilities to write.
pub record IsReader (caps : Capabilities) : Type 0 where
  pub vms : contains caps vm_lifecycle_write ≡ false
  pub volumes : contains caps volume_write ≡ false
  pub attachments : contains caps volume_attach ≡ false
  pub snapshots : contains caps snapshot_write ≡ false
  pub networks : contains caps network_write ≡ false
  pub groups : contains caps secgroup_write ≡ false
  pub balancers : contains caps lb_write ≡ false

-- The operations one after the other.
unfoldable pub apply_all : MemVmHost → List VmOp → MemVmHost
apply_all h [] = h
apply_all h (op ∷ ops) = apply_all (apply h op).0 ops

-- Each operation is denied to a reader, or changes nothing.
reader-op :
    (h : MemVmHost) (op : VmOp)
    → IsReader h.caps
    → (contains h.caps (required op) ≡ false) ⊎ ((dispatch h op).0 ≡ h)
unfolding required dispatch
reader-op h (Operations.create _ _ _ _ _ _) r = inl r.vms
reader-op h (Operations.start _) r = inl r.vms
reader-op h (Operations.stop _) r = inl r.vms
reader-op h (Operations.delete _) r = inl r.vms
reader-op h Operations.list r = inr refl
reader-op h (Operations.create_volume _ _) r = inl r.volumes
reader-op h (Operations.delete_volume _) r = inl r.volumes
reader-op h Operations.list_volumes r = inr refl
reader-op h (Operations.attach_volume _ _ _) r = inl r.attachments
reader-op h (Operations.detach_volume _ _) r = inl r.attachments
reader-op h (Operations.read_volume _ _ _) r = inr refl
reader-op h (Operations.write_volume _ _ _) r = inl r.volumes
reader-op h (Operations.create_snapshot _ _) r = inl r.snapshots
reader-op h (Operations.list_snapshots _) r = inr refl
reader-op h (Operations.delete_snapshot _) r = inl r.snapshots
reader-op h (Operations.restore_snapshot _) r = inl r.snapshots
reader-op h (Operations.create_network _ _) r = inl r.networks
reader-op h (Operations.delete_network _) r = inl r.networks
reader-op h Operations.list_networks r = inr refl
reader-op h (Operations.attach_nic _ _ _) r = inl r.networks
reader-op h (Operations.detach_nic _) r = inl r.networks
reader-op h Operations.list_nics r = inr refl
reader-op h (Operations.create_security_group _ _) r = inl r.groups
reader-op h (Operations.delete_security_group _) r = inl r.groups
reader-op h Operations.list_security_groups r = inr refl
reader-op h (Operations.create_load_balancer _ _ _ _ _ _) r = inl r.balancers
reader-op h (Operations.delete_load_balancer _) r = inl r.balancers
reader-op h Operations.list_load_balancers r = inr refl

reader-apply : (h : MemVmHost) (op : VmOp) → IsReader h.caps → (apply h op).0 ≡ h
unfolding apply
reader-apply h op r = elim (Bool-cases (contains h.caps (required op))) [
  | inr out ↦ rw (apply, out) refl
  | inl granted ↦ elim (reader-op h op r) [
    | inl out ↦ absurd (cc (granted, out))
    | inr same ↦ rw (apply, granted) same
  ]
]

-- Without a capability to write, no sequence of operations changes a host.
pub apply_all-reader : (h : MemVmHost) (ops : List VmOp) → IsReader h.caps → apply_all h ops ≡ h
unfolding apply_all
apply_all-reader h [] r = refl
apply_all-reader h (op ∷ ops) r =
    ap (λ (g : MemVmHost). apply_all g ops) (reader-apply h op r) ∙ apply_all-reader h ops r
