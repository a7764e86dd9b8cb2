-- ===== src/Vault/Volumes/Integrity.antt =====
-- `integrity_check` of crates/celvault/src/lib.rs finds nothing in a well-formed store.
use celium.Prelude.{
  ◌-◌, ◌≡◌, refl, sym, ◌∙◌, subst, true, none, some, List, [], ◌∷◌, arith, inl, inr, Bool-cases,
  All, map, ltb, eqb, eqb_iff, retain,
}
use celium.Prelude.Key.{bytes_key}
use celium.Prelude.Map.{get, values}
use celium.Prelude.Map.Entries.{Entries-values}
use celium.Prelude.Error.{ok}
use celium.Vault.Volumes.{
  MemInner, MemVolume, MemSnapshot, VolumeId, read, slice, list, list_snapshots, get_meta, is_of,
}
use celium.Vault.Volumes.Report.{
  IntegrityReport, check_volume, check_volumes, check_snapshot, check_snapshots, integrity_check,
}
use celium.Vault.Volumes.Access.{read-ok}
use celium.Vault.Volumes.Invariant.{IsVolume, IsSnapshot, IsWellFormed}

check_volume-clean :
    (g : MemInner) (rep : IntegrityReport) (id : VolumeId) (v : MemVolume)
    → IsVolume g.next g.rows id v
    → (check_volume g rep v.meta).errors ≡ rep.errors
unfolding check_volume
check_volume-clean g rep id v h =
    let (w, there, size) = h.stored in
    let row : get g.rows v.meta.id ≡ some w = rw h.named there in
    let fine : read g v.meta.id (v.meta.size_bytes - 1) 1
        ≡ ok (slice (v.meta.size_bytes - 1) 1 w.body) =
      read-ok g v.meta.id (v.meta.size_bytes - 1) 1 w row (omega (arith, h.bounded.0, size))
        (omega (arith, h.bounded.0, h.bounded.1)) in
    elim (Bool-cases (ltb 0 v.meta.size_bytes)) [ inl e ↦ rw (e, fine) refl | inr e ↦ rw e refl ]

check_volumes-clean :
    (g : MemInner) (rep : IntegrityReport) (vs : List MemVolume)
    → All (λ v. IsVolume g.next g.rows v.meta.id v) vs
    → (check_volumes g rep (map (λ v. v.meta) vs)).errors ≡ rep.errors
unfolding check_volumes
check_volumes-clean g rep [] h = refl
check_volumes-clean g rep (v ∷ vs) h =
    check_volumes-clean g (check_volume g rep v.meta) vs h.1
    ∙ check_volume-clean g rep v.meta.id v h.0

check_snapshot-clean :
    (g : MemInner) (rep : IntegrityReport) (s : MemSnapshot)
    → IsSnapshot g.rows s.meta.id s
    → (check_snapshot g rep s.meta).errors ≡ rep.errors
unfolding check_snapshot get_meta
check_snapshot-clean g rep s h =
    let (v, there, size) = h.parent in
    let same : eqb v.meta.size_bytes s.meta.size_bytes ≡ true =
      (eqb_iff v.meta.size_bytes s.meta.size_bytes).1 size in
    let found : get_meta g s.meta.volume ≡ some v.meta = rw (there, get_meta) refl in
    rw (found, same, check_snapshot) refl

check_snapshots-clean :
    (g : MemInner) (rep : IntegrityReport) (ss : List MemSnapshot)
    → All (λ s. IsSnapshot g.rows s.meta.id s) ss
    → (check_snapshots g rep (map (λ s. s.meta) (retain (is_of none) ss))).errors ≡ rep.errors
unfolding check_snapshots
check_snapshots-clean g rep [] h = refl
check_snapshots-clean g rep (s ∷ ss) h =
    check_snapshots-clean g (check_snapshot g rep s.meta) ss h.1 ∙ check_snapshot-clean g rep s h.0

-- In a well-formed volume store the integrity check reports no error.
pub integrity_check-clean : (g : MemInner) → IsWellFormed g → (integrity_check g).errors ≡ []
unfolding integrity_check list list_snapshots
integrity_check-clean g good =
    let start : IntegrityReport = record {
      volumes_checked = 0;
      snapshots_checked = 0;
      errors = [];
    } in
    check_snapshots-clean g (check_volumes g start (list g)) (values g.snaps) (
      Entries-values (IsSnapshot g.rows) (λ s. IsSnapshot g.rows s.meta.id s) g.snaps
        (λ k s h. record { named = refl; captured = h.captured; parent = h.parent }) good.snapshots)
    ∙ check_volumes-clean g start (values g.rows) (
        Entries-values (IsVolume g.next g.rows) (λ v. IsVolume g.next g.rows v.meta.id v) g.rows
          (λ k v h. subst (λ i. IsVolume g.next g.rows i v) (sym h.named) h) good.volumes)
