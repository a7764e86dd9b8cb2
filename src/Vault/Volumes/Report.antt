-- ===== src/Vault/Volumes/Report.antt =====
-- `stats` and `integrity_check` of the trait `VolumeStore` in crates/celvault/src/lib.rs, over the
-- store in memory.
use celium.Prelude.{ℕ, ◌-◌, min, none, some, List, [], ◌∷◌, ◌++◌, ltb, eqb, length, if◌then◌else◌}
use celium.Prelude.Error.{CelError, CelResult, ok, err, invalid, ok_or, ◌>>=◌}
use celium.Prelude.Words.{u32_max, u64_max, saturating_add}
use celium.Vault.Volumes.{
  MemInner, VolumeId, SnapshotId, VolumeMeta, SnapshotMeta, read, list, get_meta, list_snapshots,
}

pub record VolumeStats : Type 0 where
  pub id : VolumeId
  pub size_bytes : ℕ
  pub snapshot_count : ℕ
  pub total_snapshot_bytes : ℕ

-- `fold(0, saturating_add)`, from the accumulator.
unfoldable pub total_bytes : ℕ → List SnapshotMeta → ℕ
total_bytes acc [] = acc
total_bytes acc (s ∷ rest) = total_bytes (saturating_add u64_max acc s.size_bytes) rest

unfoldable pub stats : MemInner → VolumeId → CelResult VolumeStats
stats g id = do
  meta ← ok_or (get_meta g id) (invalid "stats: unknown volume")
  ok (record {
    id = meta.id;
    size_bytes = meta.size_bytes;
    snapshot_count = min (length (list_snapshots g (some id))) u32_max;
    total_snapshot_bytes = total_bytes 0 (list_snapshots g (some id));
  })

-- A row of the report's errors, before it is put into words.
pub data Issue : Type 0 where
  unreadable : VolumeId → CelError → Issue
  parent_missing : SnapshotId → VolumeId → Issue
  size_differs : SnapshotId → ℕ → VolumeId → ℕ → Issue

pub record IntegrityReport : Type 0 where
  pub volumes_checked : ℕ
  pub snapshots_checked : ℕ
  pub errors : List Issue

-- One round of each of the two loops.
unfoldable pub check_volume : MemInner → IntegrityReport → VolumeMeta → IntegrityReport
check_volume g rep v =
    let counted = record rep { volumes_checked = saturating_add u32_max rep.volumes_checked 1 } in
    if ltb 0 v.size_bytes
    then elim (read g v.id (v.size_bytes - 1) 1) [
      | ok _ ↦ counted
      | err e ↦ record counted { errors = rep.errors ++ unreadable v.id e ∷ [] }
    ]
    else counted

unfoldable pub check_snapshot : MemInner → IntegrityReport → SnapshotMeta → IntegrityReport
check_snapshot g rep s =
    let counted = record rep {
      snapshots_checked = saturating_add u32_max rep.snapshots_checked 1;
    } in
    elim (get_meta g s.volume) [
      | none ↦ record counted { errors = rep.errors ++ parent_missing s.id s.volume ∷ [] }
      | some parent ↦ if eqb parent.size_bytes s.size_bytes then counted else record counted {
        errors = rep.errors ++ size_differs s.id s.size_bytes s.volume parent.size_bytes ∷ [];
      }
    ]

unfoldable pub check_volumes : MemInner → IntegrityReport → List VolumeMeta → IntegrityReport
check_volumes g rep [] = rep
check_volumes g rep (v ∷ rest) = check_volumes g (check_volume g rep v) rest

unfoldable pub check_snapshots : MemInner → IntegrityReport → List SnapshotMeta → IntegrityReport
check_snapshots g rep [] = rep
check_snapshots g rep (s ∷ rest) = check_snapshots g (check_snapshot g rep s) rest

unfoldable pub integrity_check : MemInner → IntegrityReport
integrity_check g =
    check_snapshots g
      (check_volumes g (record { volumes_checked = 0; snapshots_checked = 0; errors = [] })
        (list g))
      (list_snapshots g none)
