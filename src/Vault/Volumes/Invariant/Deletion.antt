-- ===== src/Vault/Volumes/Invariant/Deletion.antt =====
-- `delete` of crates/celvault/src/lib.rs: a volume goes with its snapshots, and what stays is
-- well-formed.
use celium.Prelude.{
  ◌≡◌, ◌≢◌, ◌⊎◌, refl, subst, true, List, [], ◌∷◌, arith, inl, inr, Bool-cases, any, All,
}
use celium.Prelude.Key.{bytes_eq, bytes_eq_iff, bytes_key}
use celium.Prelude.Map.{Map, remove, items, get-remove}
use celium.Prelude.Map.Entries.{Entries, Entries-mono, Entries-remove, Entries-all}
use celium.Vault.Volumes.{
  MemInner, MemSnapshot, VolumeId, SnapshotId, delete, snaps_of, remove_each,
}
use celium.Vault.Volumes.Invariant.{IsVolume, IsSnapshot, IsWellFormed}

-- Either the key of an entry is among the keys that go, or the entry is of another volume.
abbrev Kept : VolumeId → List SnapshotId → SnapshotId → MemSnapshot → Type 0
Kept id ks k s = (any (bytes_eq k) ks ≡ true) ⊎ (s.meta.volume ≢ id)

Kept-more :
    (id : VolumeId) (j : SnapshotId) (ks : List SnapshotId) (k : SnapshotId) (s : MemSnapshot)
    → Kept id ks k s
    → Kept id (j ∷ ks) k s
Kept-more id j ks k s (inl e) = inl (ground (arith, e))
Kept-more id j ks k s (inr f) = inr f

Kept-mono :
    (id : VolumeId) (j : SnapshotId) (ks : List SnapshotId) (xs : List (SnapshotId × MemSnapshot))
    → All (λ e. Kept id ks e.0 e.1) xs
    → All (λ e. Kept id (j ∷ ks) e.0 e.1) xs
Kept-mono id j ks [] h = tt
Kept-mono id j ks ((k, s) ∷ xs) h = (Kept-more id j ks k s h.0, Kept-mono id j ks xs h.1)

snaps_of-Kept :
    (id : VolumeId) (xs : List (SnapshotId × MemSnapshot))
    → All (λ e. Kept id (snaps_of id xs) e.0 e.1) xs
unfolding snaps_of
snaps_of-Kept id [] = tt
snaps_of-Kept id ((k, s) ∷ xs) = elim (Bool-cases (bytes_eq s.meta.volume id)) [
  | inl same ↦
      let first : k ∷ snaps_of id xs ≡ snaps_of id ((k, s) ∷ xs) = rw same refl in
      subst (λ ks. All (λ e. Kept id ks e.0 e.1) ((k, s) ∷ xs)) first
        (
          inl (ground (arith, bytes_eq_iff k k)),
          Kept-mono id k (snaps_of id xs) xs (snaps_of-Kept id xs),
        )
  | inr other ↦
      let first : snaps_of id xs ≡ snaps_of id ((k, s) ∷ xs) = rw other refl in
      subst (λ ks. All (λ e. Kept id ks e.0 e.1) ((k, s) ∷ xs)) first
        (inr (λ e. absurd (cc (other, (bytes_eq_iff s.meta.volume id).1 e))), snaps_of-Kept id xs)
]

-- What stays when the keys are removed one by one.
remove_each-Kept :
    (P : SnapshotId → MemSnapshot → Type 0) (id : VolumeId) (ks : List SnapshotId)
    (m : Map SnapshotId MemSnapshot)
    → Entries (λ k s. P k s × Kept id ks k s) m
    → Entries (λ k s. P k s × (s.meta.volume ≢ id)) (remove_each ks m)
unfolding remove_each
remove_each-Kept P id [] m h =
    Entries-mono (λ k s. P k s × Kept id [] k s) (λ k s. P k s × (s.meta.volume ≢ id)) m
      (λ k s p. (p.0, elim p.1 [ inl e ↦ absurd (cc e) | inr f ↦ f ])) h
remove_each-Kept P id (j ∷ ks) m h = remove_each-Kept P id ks (remove j m) (
    Entries-mono (λ k s. (P k s × Kept id (j ∷ ks) k s) × (j ≢ k)) (λ k s. P k s × Kept id ks k s)
      (remove j m)
      (λ k s p. (
        p.0.0,
        elim p.0.1 [ inl e ↦ inl (ground (arith, e, p.1, bytes_eq_iff k j)) | inr f ↦ inr f ],
      ))
      (Entries-remove (λ k s. P k s × Kept id (j ∷ ks) k s) j m h))

pub delete-IsWellFormed :
    (g : MemInner) (id : VolumeId) → IsWellFormed g → IsWellFormed (delete g id)
unfolding delete
delete-IsWellFormed g id good = record {
  counted = good.counted;
  volumes =
      Entries-mono (λ k v. IsVolume g.next g.rows k v × (id ≢ k))
        (IsVolume g.next (remove id g.rows)) (remove id g.rows)
        (λ k v h. record {
          named = h.0.named;
          numbered = h.0.numbered;
          bounded = h.0.bounded;
          stored =
              let (w, there, size) = h.0.stored in
              (w, ground (arith, get-remove id k g.rows, h.1, bytes_eq_iff id k, there), size);
        })
        (Entries-remove (IsVolume g.next g.rows) id g.rows good.volumes);
  snapshots =
      Entries-mono (λ k s. IsSnapshot g.rows k s × (s.meta.volume ≢ id))
        (IsSnapshot (remove id g.rows)) (remove_each (snaps_of id (items g.snaps)) g.snaps)
        (λ k s h. record {
          named = h.0.named;
          captured = h.0.captured;
          parent =
              let (v, there, size) = h.0.parent in
              (
                v,
                ground (
                  arith,
                  get-remove id s.meta.volume g.rows,
                  h.1,
                  bytes_eq_iff id s.meta.volume,
                  there,
                ),
                size,
              );
        })
        (remove_each-Kept (IsSnapshot g.rows) id (snaps_of id (items g.snaps)) g.snaps (
          Entries-all (IsSnapshot g.rows) (Kept id (snaps_of id (items g.snaps))) g.snaps
            good.snapshots (snaps_of-Kept id (items g.snaps))));
}
