-- ===== src/Vault/Volumes/Invariant/Calls.antt =====
-- Each call of the volume store of crates/celvault/src/lib.rs keeps the state well-formed.
use celium.Prelude.{
  ℕ, ◌+◌, ◌≤◌, ◌<◌, ◌≡◌, ◌≢◌, refl, sym, ap, ◌∙◌, false, some, arith, inl, inr, Bool-cases, length,
  replicate, zero, suc,
}
use celium.Prelude.Key.{Bytes, bytes_eq, bytes_eq_iff, bytes_key}
use celium.Prelude.Map.{get, insert, remove, get-insert}
use celium.Prelude.Map.Entries.{Entries-get, Entries-insert, Entries-mono, Entries-remove}
use celium.Prelude.Words.{u64_max, saturating_add}
use celium.Prelude.Error.{ok, CelResult-cases}
use celium.Vault.Volumes.Bodies.{length-overwrite}
use celium.Vault.Volumes.Access.{write-state}
use celium.Vault.Volumes.Ids.{rank, rank-volume_id}
use celium.Vault.Volumes.{
  MemInner, MemVolume, VolumeMeta, VolumeId, SnapshotId, max_volume_bytes, set_body, create,
  create_checks, create_commit, volume_id, write, write_checks, create_snapshot, snapshot_checks,
  snapshot_commit, snapshot_id, next_counter, delete_snapshot, restore_snapshot, restore_checks,
}
use celium.Vault.Volumes.Invariant.{
  IsVolume, IsSnapshot, IsWellFormed, get-size, set_body-IsWellFormed,
}

length-replicate : (n c : ℕ) → length (replicate n c) ≡ n
length-replicate zero c = refl
length-replicate (suc n) c = omega (arith, length-replicate n c)

-- A number that was not given out names no volume.
fresh_id :
    (g : MemInner) (id k : VolumeId) (n : ℕ) (v : MemVolume)
    → IsVolume g.next g.rows k v
    → rank id ≡ some n
    → g.next < n
    → bytes_eq id k ≡ false
fresh_id g id k n v h numbered late = elim (Bool-cases (bytes_eq id k)) [
  | inr other ↦ other
  | inl same ↦
      let name : id ≡ k = (bytes_eq_iff id k).0 same in
      let (r, ranked, old) = h.numbered in
      let clash : some n ≡ some r = sym numbered ∙ ap rank name ∙ ranked in
      absurd (ground (arith, clash, old, late))
]

create_commit-IsWellFormed :
    (g : MemInner) (owner name : Bytes) (size_bytes : ℕ)
    → IsWellFormed g
    → g.next < u64_max
    → 0 < size_bytes
    → size_bytes ≤ max_volume_bytes
    → IsWellFormed (create_commit g owner name size_bytes).0
unfolding create_commit
create_commit-IsWellFormed g owner name size_bytes good room some_bytes fits =
    let n = saturating_add u64_max g.next 1 in
    let step : n ≡ g.next + 1 = omega arith in
    let id = volume_id owner n in
    let numbered = rank-volume_id owner n (omega arith) in
    let meta : VolumeMeta = record {
      id = id;
      owner = owner;
      name = name;
      size_bytes = size_bytes;
    } in
    let row : MemVolume = record { meta = meta; body = replicate size_bytes 0 } in
    let rows = insert id row g.rows in
    record {
      counted = omega arith;
      volumes =
          Entries-insert (IsVolume n rows) id row g.rows
            (Entries-mono (IsVolume g.next g.rows) (IsVolume n rows) g.rows
              (λ k v h. record {
                named = h.named;
                bounded = h.bounded;
                numbered = let (r, ranked, old) = h.numbered in (r, ranked, omega arith);
                stored =
                    let (w, there, size) = h.stored in
                    let other = fresh_id g id k n v h numbered (omega arith) in
                    (w, ground (arith, get-insert id k row g.rows, other, there), size);
              })
              good.volumes)
            (record {
              named = refl;
              numbered = (n, numbered, omega arith);
              stored = (
                row,
                ground (arith, get-insert id id row g.rows, bytes_eq_iff id id),
                length-replicate size_bytes 0,
              );
              bounded = (some_bytes, fits);
            });
      snapshots =
          Entries-mono (IsSnapshot g.rows) (IsSnapshot rows) g.snaps
            (λ k s h. record {
              named = h.named;
              captured = h.captured;
              parent =
                  let (v, there, size) = h.parent in
                  let here =
                    Entries-get (IsVolume g.next g.rows) s.meta.volume v g.rows good.volumes
                      there in
                  let other = fresh_id g id s.meta.volume n v here numbered (omega arith) in
                  (v, ground (arith, get-insert id s.meta.volume row g.rows, other, there), size);
            })
            good.snapshots;
    }

pub create-IsWellFormed :
    (g : MemInner) (owner name : Bytes) (size_bytes : ℕ)
    → IsWellFormed g
    → g.next < u64_max
    → IsWellFormed (create g owner name size_bytes).0
unfolding create create_commit
create-IsWellFormed g owner name size_bytes good room =
    elim (CelResult-cases (create_checks name size_bytes)) [
      | inr (e, bad) ↦
          let same : (create g owner name size_bytes).0 ≡ g = rw (bad, create) refl in rw same good
      | inl (_, fine) ↦
          let same : (create g owner name size_bytes).0
              ≡ (create_commit g owner name size_bytes).0 =
            rw (fine, create) refl in
          rw same (
            create_commit-IsWellFormed g owner name size_bytes good room (ground (arith, fine))
              (ground (arith, fine)))
    ]

pub write-IsWellFormed :
    (g : MemInner) (id : VolumeId) (offset : ℕ) (bytes : Bytes)
    → IsWellFormed g
    → IsWellFormed (write g id offset bytes).0
unfolding write
write-IsWellFormed g id offset bytes good =
    elim (CelResult-cases (write_checks g id offset bytes)) [
      | inr (e, bad) ↦
          let same : (write g id offset bytes).0 ≡ g = rw (bad, write) refl in rw same good
      | inl (v, fine) ↦
          let taken : write g id offset bytes ≡ ((write g id offset bytes).0, ok tt) =
            rw (fine, write) refl in
          let (x, at, inside, small, state) =
            write-state g (write g id offset bytes).0 id offset bytes taken in
          rw state
            (set_body-IsWellFormed g id x _ good at (length-overwrite offset bytes x.body inside))
    ]

pub delete_snapshot-IsWellFormed :
    (g : MemInner) (id : SnapshotId) → IsWellFormed g → IsWellFormed (delete_snapshot g id)
unfolding delete_snapshot
delete_snapshot-IsWellFormed g id good = record {
  counted = good.counted;
  volumes = good.volumes;
  snapshots =
      Entries-mono (λ k s. IsSnapshot g.rows k s × (id ≢ k)) (IsSnapshot g.rows) (remove id g.snaps)
        (λ k s h. h.0) (Entries-remove (IsSnapshot g.rows) id g.snaps good.snapshots);
}

snapshot_commit-IsWellFormed :
    (g : MemInner) (id : VolumeId) (name : Bytes) (v : MemVolume)
    → IsWellFormed g
    → get g.rows id ≡ some v
    → IsWellFormed (snapshot_commit g id name v).0
unfolding snapshot_commit
snapshot_commit-IsWellFormed g id name v good at = record {
  counted = good.counted;
  volumes = good.volumes;
  snapshots =
      Entries-insert (IsSnapshot g.rows) (snapshot_id id (next_counter g id)) _ g.snaps
        good.snapshots
        (record { named = refl; captured = refl; parent = (v, at, sym (get-size g id v good at)) });
}

pub create_snapshot-IsWellFormed :
    (g : MemInner) (id : VolumeId) (name : Bytes)
    → IsWellFormed g
    → IsWellFormed (create_snapshot g id name).0
unfolding create_snapshot snapshot_commit
create_snapshot-IsWellFormed g id name good = elim (CelResult-cases (snapshot_checks g id name)) [
  | inr (e, bad) ↦
      let same : (create_snapshot g id name).0 ≡ g = rw (bad, create_snapshot) refl in rw same good
  | inl (v, fine) ↦
      let same : (create_snapshot g id name).0 ≡ (snapshot_commit g id name v).0 =
        rw (fine, create_snapshot) refl in
      rw same (snapshot_commit-IsWellFormed g id name v good (ground (arith, fine)))
]

pub restore_snapshot-IsWellFormed :
    (g : MemInner) (id : SnapshotId) → IsWellFormed g → IsWellFormed (restore_snapshot g id).0
unfolding restore_snapshot
restore_snapshot-IsWellFormed g id good = elim (CelResult-cases (restore_checks g id)) [
  | inr (e, bad) ↦
      let same : (restore_snapshot g id).0 ≡ g = rw (bad, restore_snapshot) refl in rw same good
  | inl ((k, v, body), fine) ↦
      let same : (restore_snapshot g id).0 ≡ set_body g k v body =
        rw (fine, restore_snapshot) refl in
      rw same (set_body-IsWellFormed g k v body good (ground (arith, fine)) (ground (arith, fine)))
]
