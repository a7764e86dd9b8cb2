-- ===== src/Mesh/Host/Storage.antt =====
-- The volume operations of crates/celmesh/src/host.rs.
use celium.Prelude.{
  ℕ, ◌*◌, Bool, false, not, none, some, [], ◌∷◌, ◌++◌, ◌||◌, ltb, length, any, retain,
  if◌then◌else◌,
}
use celium.Prelude.Key.{Bytes, bytes_eq, bytes_key}
use celium.Vault.Attachments.{VolumeAttachment, max_mount}
use celium.Vault.Volumes
use celium.Vault.Volumes.{VolumeId, SnapshotId}
use celium.Mesh.Replies
use celium.Mesh.Replies.{
  VmOpReply, HostResult, done, refused, plain, ◌>>=◌, ◌>>◌, refuse_if, some_or, context,
}
use celium.Mesh.Host.{MemVmHost, Slot, Slots, Outcome, slot_mut, put_slot}

abbrev pub max_volume_io_bytes : ℕ
max_volume_io_bytes = 32 * 1024

-- The host whose vault has made a call.
abbrev pub with_vault_state : MemVmHost → Volumes.MemInner → MemVmHost
with_vault_state h vault = record h { vault = vault }

unfoldable pub create_volume : MemVmHost → Bytes → ℕ → Outcome
create_volume h name size_bytes =
    elim (some_or h.owner "vault: owner not yet known; snapshot first") [
      | refused e ↦ (h, refused e)
      | done owner ↦
          let r = Volumes.create h.vault owner name size_bytes in
          (
            with_vault_state h r.0,
            do meta ← context "vault create" r.1; done (Replies.volume_created meta),
          )
    ]

abbrev pub is_attachment_of : VolumeId → VolumeAttachment → Bool
is_attachment_of id a = bytes_eq a.volume_id id

-- Whether any slot has the volume.
unfoldable pub attached : VolumeId → Slots → Bool
attached id [] = false
attached id (none ∷ ss) = attached id ss
attached id (some s ∷ ss) = any (is_attachment_of id) s.volumes || attached id ss

-- `VmOp::DeleteVolume` after the lock of the slots is dropped.
abbrev pub delete_commit : MemVmHost → VolumeId → Outcome
delete_commit h id =
    (with_vault_state h (Volumes.delete h.vault id), done (Replies.volume_deleted id))

-- `VmOp::DeleteVolume` where nothing else runs between its two parts.
unfoldable pub delete_volume : MemVmHost → VolumeId → Outcome
delete_volume h id =
    if attached id h.slots
    then (h, refused (plain "vault delete: volume still attached"))
    else delete_commit h id

-- `VmOp::AttachVolume` before it takes the lock of the slots.
abbrev pub attach_known : MemVmHost → VolumeId → Bytes → HostResult (Unit {0})
attach_known h id mount_name = do
  refuse_if (ltb max_mount (length mount_name)) "attach: mount_name > MAX_MOUNT"
  meta ← some_or (Volumes.get_meta h.vault id) "attach: unknown volume"
  done tt

-- The rest of it, under the lock.
abbrev pub attach_slot : Slots → ℕ → VolumeId → Bytes → HostResult Slot
attach_slot slots vm_id id mount_name = do
  s ← slot_mut slots vm_id
  refuse_if (any (is_attachment_of id) s.volumes) "attach: volume already attached"
  done (record s { volumes = s.volumes ++ record { volume_id = id; mount_name = mount_name } ∷ [] })

abbrev pub attach_commit : MemVmHost → ℕ → VolumeId → Bytes → Outcome
attach_commit h vm_id id mount_name =
    put_slot h vm_id (attach_slot h.slots vm_id id mount_name)
      (λ s. Replies.attachments vm_id s.volumes)

-- The checks of `VmOp::AttachVolume`, and the whole of it, where nothing else runs between them.
abbrev pub attach_checks : MemVmHost → ℕ → VolumeId → Bytes → HostResult Slot
attach_checks h vm_id id mount_name =
    attach_known h id mount_name >> attach_slot h.slots vm_id id mount_name

unfoldable pub attach_volume : MemVmHost → ℕ → VolumeId → Bytes → Outcome
attach_volume h vm_id id mount_name =
    put_slot h vm_id (attach_checks h vm_id id mount_name)
      (λ s. Replies.attachments vm_id s.volumes)

abbrev pub detached : Slots → ℕ → VolumeId → HostResult Slot
detached slots vm_id id = do
  s ← slot_mut slots vm_id
  done (record s { volumes = retain (λ a. not (is_attachment_of id a)) s.volumes })

unfoldable pub detach_volume : MemVmHost → ℕ → VolumeId → Outcome
detach_volume h vm_id id =
    put_slot h vm_id (detached h.slots vm_id id) (λ s. Replies.attachments vm_id s.volumes)

unfoldable pub read_volume : MemVmHost → VolumeId → ℕ → ℕ → HostResult VmOpReply
read_volume h id offset len = do
  refuse_if (ltb max_volume_io_bytes len) "volume io: chunk too large"
  bytes ← context "vault read" (Volumes.read h.vault id offset len)
  done (Replies.volume_data id bytes)

unfoldable pub write_volume : MemVmHost → VolumeId → ℕ → Bytes → Outcome
write_volume h id offset bytes =
    if ltb max_volume_io_bytes (length bytes)
    then (h, refused (plain "volume io: chunk too large"))
    else let r = Volumes.write h.vault id offset bytes in
      (
        with_vault_state h r.0,
        do context "vault write" r.1; done (Replies.volume_written id (length bytes)),
      )

unfoldable pub create_snapshot : MemVmHost → VolumeId → Bytes → Outcome
create_snapshot h id name =
    let r = Volumes.create_snapshot h.vault id name in
    (
      with_vault_state h r.0,
      do snap ← context "vault snapshot" r.1; done (Replies.snapshot_created snap),
    )

unfoldable pub delete_snapshot : MemVmHost → SnapshotId → Outcome
delete_snapshot h id =
    (with_vault_state h (Volumes.delete_snapshot h.vault id), done (Replies.snapshot_deleted id))

unfoldable pub restore_snapshot : MemVmHost → SnapshotId → Outcome
restore_snapshot h id =
    let r = Volumes.restore_snapshot h.vault id in
    (
      with_vault_state h r.0,
      do context "vault snapshot restore" r.1; done (Replies.snapshot_restored id),
    )
