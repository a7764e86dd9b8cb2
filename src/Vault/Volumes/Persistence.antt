-- ===== src/Vault/Volumes/Persistence.antt =====
-- The calls of the volume store of crates/celvault/src/lib.rs that are no deletion keep every volume.
use celium.Prelude.{◌≡◌, refl, Bool, true, false, some, inl, inr, Bool-cases}
use celium.Prelude.Key.{bytes_eq, bytes_key}
use celium.Prelude.Map.{Map, get, insert, get-insert}
use celium.Prelude.Map.Cases.{get-insert_other}
use celium.Prelude.Error.{CelResult-cases}
use celium.Vault.Volumes.{
  MemInner, MemVolume, VolumeId, create, create_checks, create_commit, write, write_checks,
  create_snapshot, snapshot_checks, snapshot_commit, delete_snapshot, restore_snapshot,
  restore_checks,
}
use celium.Vault.Volumes.History.{Call, creates, deletes, writes, snapshots, drops, restores, step}

abbrev pub is_deletion : Call → Bool
is_deletion (deletes _) = true
is_deletion _ = false

-- Where there was a volume, there is one.
abbrev pub Keeps : Map VolumeId MemVolume → Map VolumeId MemVolume → Type 0
Keeps m n =
    (id : VolumeId) (v : MemVolume) → get m id ≡ some v → (w : MemVolume) × (get n id ≡ some w)

Keeps-insert : (k : VolumeId) (v : MemVolume) (m : Map VolumeId MemVolume) → Keeps m (insert k v m)
Keeps-insert k v m id w there = elim (Bool-cases (bytes_eq k id)) [
  | inl same ↦ (v, rw (get-insert k id v m, same) refl)
  | inr other ↦ (w, rw (get-insert_other k id v m other) there)
]

Keeps-same : (m : Map VolumeId MemVolume) → Keeps m m
Keeps-same m id v there = (v, there)

pub step-Keeps : (g : MemInner) (c : Call) → is_deletion c ≡ false → Keeps g.rows (step g c).rows
unfolding step create create_commit write create_snapshot snapshot_commit delete_snapshot
    restore_snapshot
step-Keeps g (deletes id) e = absurd (cc e)
step-Keeps g (creates owner name size_bytes) e =
    elim (CelResult-cases (create_checks name size_bytes)) [
      | inr (_, bad) ↦ rw (step, create, bad) (Keeps-same g.rows)
      | inl (_, fine) ↦ rw (step, create, fine, create_commit) (Keeps-insert _ _ g.rows)
    ]
step-Keeps g (writes id offset bytes) e = elim (CelResult-cases (write_checks g id offset bytes)) [
  | inr (_, bad) ↦ rw (step, write, bad) (Keeps-same g.rows)
  | inl (v, fine) ↦ rw (step, write, fine) (Keeps-insert id _ g.rows)
]
step-Keeps g (snapshots id name) e = elim (CelResult-cases (snapshot_checks g id name)) [
  | inr (_, bad) ↦ rw (step, create_snapshot, bad) (Keeps-same g.rows)
  | inl (v, fine) ↦ rw (step, create_snapshot, fine, snapshot_commit) (Keeps-same g.rows)
]
step-Keeps g (drops id) e = Keeps-same g.rows
step-Keeps g (restores id) e = elim (CelResult-cases (restore_checks g id)) [
  | inr (_, bad) ↦ rw (step, restore_snapshot, bad) (Keeps-same g.rows)
  | inl ((k, v, body), fine) ↦ rw (step, restore_snapshot, fine) (Keeps-insert k _ g.rows)
]
