-- ===== src/Mesh/Host/Effects/Stores.antt =====
-- The operations of the host in crates/celmesh/src/host.rs on its stores, and `apply`: each has one of
-- the effects.
use celium.Prelude.{
  ℕ, ◌≡◌, refl, ap, ◌∙◌, subst, Bool, not, Option, none, some, List, [], ◌∷◌, ◌++◌, inl, inr,
  Bool-cases, Option-cases, ltb, length, any, retain,
}
use celium.Prelude.Key.{Bytes, bytes_key}
use celium.Prelude.Error.{ok, CelResult-cases}
use celium.Vault.Attachments.{VolumeAttachment}
use celium.Vault.Volumes
use celium.Vault.Volumes.{VolumeId, SnapshotId, MemVolume}
use celium.Vault.Volumes.History
use celium.Vault.Network.Addresses.{parse}
use celium.Vault.Networks
use celium.Vault.Networks.History as NetHistory
use celium.Prelude.Map.{get}
use celium.Mesh.Host.Storage
use celium.Mesh.Host.Storage.{with_vault_state, attached, attach_checks, detached}
use celium.Mesh.Host.Networking
use celium.Mesh.Host.Networking.{with_nets_state, network_checks, nic_checks, balancer_checks}
use celium.Mesh.Capabilities.{contains, required}
use celium.Mesh.Operations.{VmOp, RestartPolicy}
use celium.Mesh.Operations
use celium.Mesh.Replies.{done, HostResult-cases}
use celium.Mesh.Host.{MemVmHost, slot_mut}
use celium.Mesh.Host.Effects.{
  Effect, idle, vault_called, volume_deleted, nets_called, volume_attached, volume_detached,
  slot_mut-done, create_vm-Effect, start_vm-Effect, stop_vm-Effect, delete_vm-Effect,
}
use celium.Mesh.Replies.{some_or}
use celium.Vault.Volumes.{get_meta}
use celium.Vault.Attachments.{max_mount}
use celium.Vault.Network.{Cidr4, NetworkId, SecurityRule, LbAlgo, LbBackend}
use celium.Mesh.Host.Apply.{apply, dispatch}

create_volume-Effect :
    (h : MemVmHost) (name : Bytes) (size : ℕ) → Effect h none (Storage.create_volume h name size).0
unfolding Storage.create_volume History.step
create_volume-Effect h name size =
    elim (HostResult-cases (some_or h.owner "vault: owner not yet known; snapshot first")) [
      | inr (x, missing) ↦ rw (Storage.create_volume, missing) idle
      | inl (owner, known) ↦
          rw (Storage.create_volume, known) (vault_called (History.creates owner name size) refl)
    ]

delete_volume-Effect :
    (h : MemVmHost) (id : VolumeId) → Effect h (some id) (Storage.delete_volume h id).0
unfolding Storage.delete_volume
delete_volume-Effect h id = elim (Bool-cases (attached id h.slots)) [
  | inl busy ↦ rw (Storage.delete_volume, busy) idle
  | inr free ↦ rw (Storage.delete_volume, free) (volume_deleted id refl free)
]

-- A volume with metadata has a row.
pub get_meta-row :
    (g : Volumes.MemInner) (id : VolumeId) (m : Volumes.VolumeMeta)
    → get_meta g id ≡ some m
    → (v : MemVolume) × (get g.rows id ≡ some v)
unfolding get_meta
get_meta-row g id m e = elim (Option-cases (get g.rows id)) [
  | inr found ↦ found
  | inl missing ↦ absurd (cc (rw (get_meta, missing) at e))
]

attach_volume-Effect :
    (h : MemVmHost) (i : ℕ) (id : VolumeId) (mount_name : Bytes)
    → Effect h none (Storage.attach_volume h i id mount_name).0
unfolding Storage.attach_volume
attach_volume-Effect h i id mount_name = elim (Bool-cases (ltb max_mount (length mount_name))) [
  | inl long ↦ rw (Storage.attach_volume, attach_checks, long) idle
  | inr short ↦ elim (Option-cases (get_meta h.vault id)) [
    | inl missing ↦ rw (Storage.attach_volume, attach_checks, short, missing) idle
    | inr (m, known) ↦ elim (HostResult-cases (slot_mut h.slots i)) [
      | inr (x, bad) ↦ rw (Storage.attach_volume, attach_checks, short, known, bad) idle
      | inl (s, fine) ↦ elim (Bool-cases (any (Storage.is_attachment_of id) s.volumes)) [
        | inl twice ↦ rw (Storage.attach_volume, attach_checks, short, known, fine, twice) idle
        | inr once ↦
            let (v, there) = get_meta-row h.vault id m known in
            let a : VolumeAttachment = record { volume_id = id; mount_name = mount_name } in
            rw (Storage.attach_volume, attach_checks, short, known, fine, once)
              (volume_attached i s (record s { volumes = s.volumes ++ a ∷ [] }) a v
                (slot_mut-done h.slots i s fine) refl refl there)
      ]
    ]
  ]
]

detach_volume-Effect :
    (h : MemVmHost) (i : ℕ) (id : VolumeId) → Effect h none (Storage.detach_volume h i id).0
unfolding Storage.detach_volume
detach_volume-Effect h i id = elim (HostResult-cases (slot_mut h.slots i)) [
  | inr (x, bad) ↦ rw (Storage.detach_volume, detached, bad) idle
  | inl (s, fine) ↦
      let keep : VolumeAttachment → Bool = λ a. not (Storage.is_attachment_of id a) in
      rw (Storage.detach_volume, detached, fine)
        (volume_detached i s (record s { volumes = retain keep s.volumes }) keep
          (slot_mut-done h.slots i s fine) refl refl)
]

write_volume-Effect :
    (h : MemVmHost) (id : VolumeId) (offset : ℕ) (bytes : Bytes)
    → Effect h none (Storage.write_volume h id offset bytes).0
unfolding Storage.write_volume History.step
write_volume-Effect h id offset bytes =
    elim (Bool-cases (ltb Storage.max_volume_io_bytes (length bytes))) [
      | inl large ↦ rw (Storage.write_volume, large) idle
      | inr small ↦
          rw (Storage.write_volume, small) (vault_called (History.writes id offset bytes) refl)
    ]

network_checks-done :
    (h : MemVmHost) (cidr : Bytes) (owner : Bytes) (block : Cidr4)
    → network_checks h cidr ≡ done (owner, block)
    → parse cidr ≡ ok block
network_checks-done h cidr owner block e = elim (CelResult-cases (parse cidr)) [
  | inr (x, bad) ↦
      elim (HostResult-cases (some_or h.owner "net: owner not yet known; snapshot first")) [
        | inr (y, missing) ↦ absurd (cc (rw (network_checks, missing) at e))
        | inl (name, known) ↦ absurd (cc (rw (network_checks, known, bad) at e))
      ]
  | inl (c, fine) ↦
      elim (HostResult-cases (some_or h.owner "net: owner not yet known; snapshot first")) [
        | inr (y, missing) ↦ absurd (cc (rw (network_checks, missing) at e))
        | inl (name, known) ↦
            let both : done (name, c) ≡ done (owner, block) =
              rw (network_checks, known, fine) at e in
            let pair : (name, c) ≡ (owner, block) = cc both in
            fine ∙ ap (λ (p : Bytes × Cidr4). ok p.1) pair
      ]
]

create_network-Effect :
    (h : MemVmHost) (name cidr : Bytes) → Effect h none (Networking.create_network h name cidr).0
unfolding Networking.create_network NetHistory.step
create_network-Effect h name cidr = elim (HostResult-cases (network_checks h cidr)) [
  | inr (x, bad) ↦ rw (Networking.create_network, bad) idle
  | inl ((owner, block), fine) ↦
      let call : NetHistory.step h.nets (NetHistory.creates owner name cidr)
          ≡ (Networks.create_network h.nets owner name block).0 =
        rw (NetHistory.step, network_checks-done h cidr owner block fine) refl in
      rw (Networking.create_network, fine)
        (subst (λ g. Effect h none (with_nets_state h g)) call
          (nets_called (NetHistory.creates owner name cidr)))
]

attach_nic-Effect :
    (h : MemVmHost) (id : NetworkId) (i : ℕ) (ip : Option Bytes)
    → Effect h none (Networking.attach_nic h id i ip).0
unfolding Networking.attach_nic NetHistory.step
attach_nic-Effect h id i ip = elim (HostResult-cases (nic_checks h i ip)) [
  | inr (x, bad) ↦ rw (Networking.attach_nic, bad) idle
  | inl (requested, fine) ↦
      rw (Networking.attach_nic, fine) (nets_called (NetHistory.attaches id i requested))
]

create_security_group-Effect :
    (h : MemVmHost) (name : Bytes) (rules : List SecurityRule)
    → Effect h none (Networking.create_security_group h name rules).0
unfolding Networking.create_security_group NetHistory.step
create_security_group-Effect h name rules =
    elim (HostResult-cases (some_or h.owner "sg: owner not yet known; snapshot first")) [
      | inr (x, missing) ↦ rw (Networking.create_security_group, missing) idle
      | inl (owner, known) ↦
          rw (Networking.create_security_group, known)
            (nets_called (NetHistory.groups owner name rules))
    ]

create_load_balancer-Effect :
    (h : MemVmHost) (name : Bytes) (id : NetworkId) (vip : Bytes) (port : ℕ) (algo : LbAlgo)
    (backends : List LbBackend)
    → Effect h none (Networking.create_load_balancer h name id vip port algo backends).0
unfolding Networking.create_load_balancer NetHistory.step
create_load_balancer-Effect h name id vip port algo backends =
    elim (HostResult-cases (balancer_checks h vip)) [
      | inr (x, bad) ↦ rw (Networking.create_load_balancer, bad) idle
      | inl (parts, fine) ↦
          rw (Networking.create_load_balancer, fine)
            (nets_called (NetHistory.balances parts.0 name _))
    ]

-- The volume that an operation is to delete.
abbrev pub deletion_of : VmOp → Option VolumeId
deletion_of (Operations.delete_volume id) = some id
deletion_of _ = none

dispatch-Effect : (h : MemVmHost) (op : VmOp) → Effect h (deletion_of op) (dispatch h op).0
unfolding dispatch Storage.create_snapshot Storage.delete_snapshot Storage.restore_snapshot
    Networking.delete_network Networking.detach_nic Networking.delete_security_group
    Networking.delete_load_balancer History.step NetHistory.step
dispatch-Effect h (Operations.create label policy image cpus memory crc) =
    create_vm-Effect h label policy image cpus memory crc
dispatch-Effect h (Operations.start i) = start_vm-Effect h i
dispatch-Effect h (Operations.stop i) = stop_vm-Effect h i
dispatch-Effect h (Operations.delete i) = delete_vm-Effect h i
dispatch-Effect h Operations.list = idle
dispatch-Effect h (Operations.create_volume name size) = create_volume-Effect h name size
dispatch-Effect h (Operations.delete_volume id) = delete_volume-Effect h id
dispatch-Effect h Operations.list_volumes = idle
dispatch-Effect h (Operations.attach_volume i id mount_name) =
    attach_volume-Effect h i id mount_name
dispatch-Effect h (Operations.detach_volume i id) = detach_volume-Effect h i id
dispatch-Effect h (Operations.read_volume id offset len) = idle
dispatch-Effect h (Operations.write_volume id offset bytes) = write_volume-Effect h id offset bytes
dispatch-Effect h (Operations.create_snapshot id name) =
    vault_called (History.snapshots id name) refl
dispatch-Effect h (Operations.list_snapshots id) = idle
dispatch-Effect h (Operations.delete_snapshot id) = vault_called (History.drops id) refl
dispatch-Effect h (Operations.restore_snapshot id) = vault_called (History.restores id) refl
dispatch-Effect h (Operations.create_network name cidr) = create_network-Effect h name cidr
dispatch-Effect h (Operations.delete_network id) = nets_called (NetHistory.deletes id)
dispatch-Effect h Operations.list_networks = idle
dispatch-Effect h (Operations.attach_nic id i ip) = attach_nic-Effect h id i ip
dispatch-Effect h (Operations.detach_nic id) = nets_called (NetHistory.detaches id)
dispatch-Effect h Operations.list_nics = idle
dispatch-Effect h (Operations.create_security_group name rules) =
    create_security_group-Effect h name rules
dispatch-Effect h (Operations.delete_security_group id) = nets_called (NetHistory.ungroups id)
dispatch-Effect h Operations.list_security_groups = idle
dispatch-Effect h (Operations.create_load_balancer name id vip port algo backends) =
    create_load_balancer-Effect h name id vip port algo backends
dispatch-Effect h (Operations.delete_load_balancer id) = nets_called (NetHistory.unbalances id)
dispatch-Effect h Operations.list_load_balancers = idle

pub apply-Effect : (h : MemVmHost) (op : VmOp) → Effect h (deletion_of op) (apply h op).0
unfolding apply
apply-Effect h op = elim (Bool-cases (contains h.caps (required op))) [
  | inl granted ↦ rw (apply, granted) (dispatch-Effect h op)
  | inr refused_op ↦ rw (apply, refused_op) idle
]
