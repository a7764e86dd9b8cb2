-- ===== src/Vault/Volumes/Invariant.antt =====
-- The well-formed states of the volume store of crates/celvault/src/lib.rs.
pub mod Calls
pub mod Deletion
use celium.Prelude.{
  ℕ, ◌+◌, ◌≤◌, ◌<◌, ◌≡◌, ◌≢◌, refl, sym, ap, ◌∙◌, subst, true, false, Bool, Option, none, some,
  List, [], ◌∷◌, arith, inl, inr, Option-cases, Bool-cases, length, any, replicate,
}
use celium.Prelude.Key.{Bytes, bytes_eq, bytes_eq_iff, bytes_key}
use celium.Prelude.Map.{Map, empty, get, insert, remove, items, get-insert, get-remove}
use celium.Prelude.Map.Entries.{
  Entries, Entries-empty, Entries-get, Entries-insert, Entries-mono, Entries-remove,
}
use celium.Prelude.Words.{u64_max}
use celium.Prelude.Error.{CelResult, ok, err, CelResult-cases}
use celium.Vault.Volumes.Ids.{rank, rank-volume_id}
use celium.Vault.Volumes.{
  MemInner, MemVolume, MemSnapshot, VolumeId, SnapshotId, new, max_volume_bytes, set_body,
}

-- An entry under an id: the row that a lookup finds there has the size that the entry records.
pub record IsVolume (next : ℕ) (rows : Map VolumeId MemVolume) (id : VolumeId) (v : MemVolume)
    : Type 0 where
  pub named : v.meta.id ≡ id
  pub numbered : (r : ℕ) × (rank id ≡ some r) × (r ≤ next)
  pub stored : (w : MemVolume) × (get rows id ≡ some w) × (length w.body ≡ v.meta.size_bytes)
  pub bounded : (0 < v.meta.size_bytes) × (v.meta.size_bytes ≤ max_volume_bytes)

-- The volume of a snapshot is there, with the size of the captured bytes.
pub record IsSnapshot (rows : Map VolumeId MemVolume) (id : SnapshotId) (s : MemSnapshot)
    : Type 0 where
  pub named : s.meta.id ≡ id
  pub captured : length s.body ≡ s.meta.size_bytes
  pub parent :
      (v : MemVolume) × (get rows s.meta.volume ≡ some v) × (v.meta.size_bytes ≡ s.meta.size_bytes)

pub record IsWellFormed (g : MemInner) : Type 0 where
  pub counted : g.next ≤ u64_max
  pub volumes : Entries (IsVolume g.next g.rows) g.rows
  pub snapshots : Entries (IsSnapshot g.rows) g.snaps

pub new-IsWellFormed : IsWellFormed new
unfolding new
new-IsWellFormed = record {
  counted = omega arith;
  volumes = Entries-empty (IsVolume 0 empty);
  snapshots = Entries-empty (IsSnapshot empty);
}

-- A row that a lookup finds has a body of the size that it records.
pub get-size :
    (g : MemInner) (id : VolumeId) (v : MemVolume)
    → IsWellFormed g
    → get g.rows id ≡ some v
    → length v.body ≡ v.meta.size_bytes
get-size g id v good at =
    let (w, found, size) =
      (Entries-get (IsVolume g.next g.rows) id v g.rows good.volumes at).stored in
    cc (found, at, size)

-- A new body of the old length.
pub set_body-IsWellFormed :
    (g : MemInner) (id : VolumeId) (v : MemVolume) (body : Bytes)
    → IsWellFormed g
    → get g.rows id ≡ some v
    → length body ≡ length v.body
    → IsWellFormed (set_body g id v body)
set_body-IsWellFormed g id v body good at long =
    let w : MemVolume = record v { body = body } in
    let rows = insert id w g.rows in
    let here = Entries-get (IsVolume g.next g.rows) id v g.rows good.volumes at in
    let size = get-size g id v good at in
    let keeps : (k : VolumeId) (x : MemVolume)
        → IsVolume g.next g.rows k x
        → IsVolume g.next rows k x =
      λ k x h. record {
        named = h.named;
        numbered = h.numbered;
        bounded = h.bounded;
        stored = elim (Bool-cases (bytes_eq id k)) [
          | inl same ↦ (
            w,
            ground (arith, get-insert id k w g.rows, same),
            let name : id ≡ k = (bytes_eq_iff id k).0 same in
                let found : get g.rows k ≡ some v = subst (λ i. get g.rows i ≡ some v) name at in
                let (u, there, wide) = h.stored in cc (found, there, wide, long),
          )
          | inr other ↦
              let (u, there, wide) = h.stored in
              (u, ground (arith, get-insert id k w g.rows, other, there), wide)
        ];
      } in
    record {
      counted = good.counted;
      volumes =
          Entries-insert (IsVolume g.next rows) id w g.rows
            (Entries-mono (IsVolume g.next g.rows) (IsVolume g.next rows) g.rows keeps good.volumes)
            (record {
              named = here.named;
              numbered = here.numbered;
              stored = (
                w,
                ground (arith, get-insert id id w g.rows, bytes_eq_iff id id),
                cc (long, size),
              );
              bounded = here.bounded;
            });
      snapshots =
          Entries-mono (IsSnapshot g.rows) (IsSnapshot rows) g.snaps
            (λ k s h. record {
              named = h.named;
              captured = h.captured;
              parent = elim (Bool-cases (bytes_eq id s.meta.volume)) [
                | inl same ↦ (
                  w,
                  ground (arith, get-insert id s.meta.volume w g.rows, same),
                  let name : id ≡ s.meta.volume = (bytes_eq_iff id s.meta.volume).0 same in
                      let found = subst (λ i. get g.rows i ≡ some v) name at in
                      let (u, there, wide) = h.parent in cc (found, there, wide),
                )
                | inr other ↦
                    let (u, there, wide) = h.parent in
                    (u, ground (arith, get-insert id s.meta.volume w g.rows, other, there), wide)
              ];
            })
            good.snapshots;
    }
