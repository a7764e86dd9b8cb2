-- ===== src/Vault/Volumes/Snapshots.antt =====
-- Snapshots of crates/celvault/src/lib.rs: a restore brings back the bytes at the time of the
-- snapshot, unless the volume's id has an `@`.
use celium.Prelude.{
  ℕ, ◌+◌, ◌*◌, ◌-◌, ◌≤◌, ◌≡◌, refl, ap, ◌∙◌, subst, true, false, none, some, List, [], ◌∷◌, ◌++◌,
  arith, inl, inr, Option-cases, Bool-cases, length, any, eqb, eqb_iff,
}
use celium.Prelude.Key.{Bytes, bytes_eq, bytes_eq_iff, bytes_key}
use celium.Prelude.Map.{get, get-insert, get-insert_self}
use celium.Prelude.Words.{u64_max}
use celium.Prelude.Decimal.{decimal, split_once, parse_u64, parse_from}
use celium.Prelude.Error.{ok, err, CelResult-cases, invalid}
use celium.Vault.Volumes.{
  MemInner, MemVolume, SnapshotMeta, VolumeId, read, write, write_checks, overwrite, set_body,
  create_snapshot, snapshot_checks, snapshot_commit, snapshot_id, next_counter, restore_snapshot,
  restore_checks, split, parse_tail,
}
use celium.Vault.Volumes.Bodies.{length-overwrite}
use celium.Vault.Volumes.Access.{write-state}
use celium.Vault.Volumes.Ids.{split-snapshot_id}

-- Any number of writes, taken or refused.
unfoldable pub write_all : MemInner → List (VolumeId × ℕ × Bytes) → MemInner
write_all g [] = g
write_all g ((id, offset, bytes) ∷ ws) = write_all (write g id offset bytes).0 ws

-- A row of the length `n` under the id `id`, and the snapshots of `g`.
abbrev pub Holds : MemInner → VolumeId → ℕ → MemInner → Type 0
Holds g id n h =
    (h.snaps ≡ g.snaps) × ((w : MemVolume) × (get h.rows id ≡ some w) × (length w.body ≡ n))

write-Holds :
    (g h : MemInner) (id k : VolumeId) (n offset : ℕ) (bytes : Bytes)
    → Holds g id n h
    → Holds g id n (write h k offset bytes).0
unfolding write
write-Holds g h id k n offset bytes held = elim (CelResult-cases (write_checks h k offset bytes)) [
  | inr (e, bad) ↦ let same : (write h k offset bytes).0 ≡ h = rw (bad, write) refl in rw same held
  | inl (v, fine) ↦
      let taken : write h k offset bytes ≡ ((write h k offset bytes).0, ok tt) =
        rw (fine, write) refl in
      let (x, at, inside, small, state) =
        write-state h (write h k offset bytes).0 k offset bytes taken in
      let body = overwrite offset bytes x.body in
      let row : MemVolume = record x { body = body } in
      let (w, there, long) = held.1 in
      rw state (
        held.0,
        elim (Bool-cases (bytes_eq k id)) [
          | inl same ↦
              let name : k ≡ id = (bytes_eq_iff k id).0 same in
              let here : get h.rows id ≡ some x = subst (λ i. get h.rows i ≡ some x) name at in
              (
                row,
                ground (arith, get-insert k id row h.rows, same),
                length-overwrite offset bytes x.body inside ∙ cc (here, there, long),
              )
          | inr other ↦ (w, ground (arith, get-insert k id row h.rows, other, there), long)
        ],
      )
]

write_all-Holds :
    (g : MemInner) (id : VolumeId) (n : ℕ) (ws : List (VolumeId × ℕ × Bytes)) (h : MemInner)
    → Holds g id n h
    → Holds g id n (write_all h ws)
unfolding write_all
write_all-Holds g id n [] h held = held
write_all-Holds g id n ((k, offset, bytes) ∷ ws) h held =
    write_all-Holds g id n ws (write h k offset bytes).0 (write-Holds g h id k n offset bytes held)

-- The state behind a snapshot that was taken.
create_snapshot-state :
    (g g1 : MemInner) (id : VolumeId) (name : Bytes) (meta : SnapshotMeta)
    → create_snapshot g id name ≡ (g1, ok meta)
    → (v : MemVolume) × (get g.rows id ≡ some v)
      × (g1.rows ≡ g.rows)
      × (meta.id ≡ snapshot_id id (next_counter g id))
      × (get g1.snaps meta.id ≡ some (record { meta = meta; body = v.body }))
unfolding create_snapshot snapshot_commit
create_snapshot-state g g1 id name meta e = elim (CelResult-cases (snapshot_checks g id name)) [
  | inr (x, bad) ↦
      let refused : create_snapshot g id name ≡ (g, err x) = rw (bad, create_snapshot) refl in
      absurd (ground (arith, refused, e))
  | inl (v, fine) ↦
      let r = snapshot_commit g id name v in
      let taken : create_snapshot g id name ≡ (r.0, ok r.1) = rw (fine, create_snapshot) refl in
      let state : r.0 ≡ g1 = cc (taken, e) in
      let told : r.1 ≡ meta = cc (taken, e) in
      (
        v,
        ground (arith, fine),
        subst (λ s. s.rows ≡ g.rows) state refl,
        subst (λ m. m.id ≡ snapshot_id id (next_counter g id)) told refl,
        subst (λ s. get s.snaps meta.id ≡ some (record { meta = meta; body = v.body })) state
            (subst (λ m. get r.0.snaps m.id ≡ some (record { meta = m; body = v.body })) told
              (get-insert_self (snapshot_id id (next_counter g id))
                (record { meta = r.1; body = v.body }) g.snaps)),
      )
]

next_counter-fits : (g : MemInner) (id : VolumeId) → next_counter g id ≤ u64_max
next_counter-fits g id = elim (Option-cases (get g.next_snap id)) [
  | inl e ↦ rw (e, next_counter) (omega arith)
  | inr (n, e) ↦ rw (e, next_counter) (omega arith)
]

-- A volume with the body of another state's reads as it does there.
read-body :
    (g h : MemInner) (id : VolumeId) (o n : ℕ) (v w : MemVolume)
    → get g.rows id ≡ some v
    → read (set_body h id w v.body) id o n ≡ read g id o n
unfolding read
read-body g h id o n v w at = rw (get-insert_self id (record w { body = v.body }) h.rows, at) refl

-- A restore finds the volume by the id of the snapshot, and puts the captured bytes in place.
restore-captured :
    (g h : MemInner) (id : VolumeId) (n : ℕ) (meta : SnapshotMeta) (v : MemVolume)
    → get g.rows id ≡ some v
    → get h.snaps meta.id ≡ some (record { meta = meta; body = v.body })
    → ((w : MemVolume) × (get h.rows id ≡ some w) × (length w.body ≡ length v.body))
    → meta.id ≡ snapshot_id id n
    → n ≤ u64_max
    → any (eqb 64) id ≡ false
    → ((restore_snapshot h meta.id).1 ≡ ok tt)
      × ((o k : ℕ) → read (restore_snapshot h meta.id).0 id o k ≡ read g id o k)
unfolding restore_snapshot
restore-captured g h id n meta v at kept row ident fits plain =
    let (w, there, long) = row in
    let parts : split meta.id ≡ some (id, n) = ap split ident ∙ split-snapshot_id id n plain fits in
    let same : eqb (length w.body) (length v.body) ≡ true =
      (eqb_iff (length w.body) (length v.body)).1 long in
    let passed : restore_checks h meta.id ≡ ok (id, w, v.body) =
      rw (kept, parts, there, same) refl in
    let done : restore_snapshot h meta.id ≡ (set_body h id w v.body, ok tt) =
      rw (passed, restore_snapshot) refl in
    (ap (λ r. r.1) done, λ o k. ap (λ r. read r.0 id o k) done ∙ read-body g h id o k v w at)

-- After a snapshot is taken of a volume whose id has no `@`, and after any number of writes,
-- taken or refused, a restore of it succeeds and each range of the volume reads as it did when
-- the snapshot was taken.
pub restore-create_snapshot :
    (g g1 : MemInner) (id : VolumeId) (name : Bytes) (meta : SnapshotMeta)
    (ws : List (VolumeId × ℕ × Bytes))
    → create_snapshot g id name ≡ (g1, ok meta)
    → any (eqb 64) id ≡ false
    → ((restore_snapshot (write_all g1 ws) meta.id).1 ≡ ok tt)
      × ((o n : ℕ) → read (restore_snapshot (write_all g1 ws) meta.id).0 id o n ≡ read g id o n)
restore-create_snapshot g g1 id name meta ws e plain =
    let (v, at, rows, ident, snap) = create_snapshot-state g g1 id name meta e in
    let first : get g1.rows id ≡ some v = ap (λ m. get m id) rows ∙ at in
    let held = write_all-Holds g1 id (length v.body) ws g1 (refl, (v, first, refl)) in
    restore-captured g (write_all g1 ws) id (next_counter g id) meta v at
      (ap (λ m. get m meta.id) held.0 ∙ snap) held.1 ident (next_counter-fits g id) plain

-- No digit is an `@`.
parse_from-at : (acc : ℕ) (s : Bytes) → any (eqb 64) s ≡ true → parse_from acc s ≡ none
unfolding parse_from
parse_from-at acc [] h = ground (arith, h)
parse_from-at acc (c ∷ cs) h =
    let rest = parse_from-at (acc * 10 + (c - 48)) cs in ground (arith, h, rest)

parse_u64-at : (s : Bytes) → any (eqb 64) s ≡ true → parse_u64 s ≡ none
unfolding parse_u64
parse_u64-at [] h = refl
parse_u64-at (c ∷ []) h = parse_from-at 0 (c ∷ []) h
parse_u64-at (c ∷ d ∷ cs) h =
    ground (arith, h, parse_from-at 0 (d ∷ cs), parse_from-at 0 (c ∷ d ∷ cs))

-- The first `@` of the volume's id leaves the one before the counter in the tail.
split_once-at :
    (id tail : Bytes)
    → any (eqb 64) id ≡ true
    → (p : Bytes × Bytes) × (split_once 64 (id ++ 64 ∷ tail) ≡ some p) × (any (eqb 64) p.1 ≡ true)
unfolding split_once
split_once-at [] tail h = absurd (cc h)
split_once-at (c ∷ id) tail h = elim (Bool-cases (eqb 64 c)) [
  | inl first ↦ (([], id ++ 64 ∷ tail), rw first refl, any-at id tail)
  | inr other ↦
      let (p, e, late) = split_once-at id tail (rw other at h) in
      ((c ∷ p.0, p.1), rw (other, e) refl, late)
]
  where
    any-at : (xs ys : Bytes) → any (eqb 64) (xs ++ 64 ∷ ys) ≡ true
    any-at [] ys = refl
    any-at (x ∷ xs) ys = ground (arith, any-at xs ys)

parse_tail-at : (t : Bytes) → any (eqb 64) t ≡ true → parse_tail t ≡ none
parse_tail-at [] h = refl
parse_tail-at (c ∷ t) h = ground (arith, h, parse_u64-at t)

split-at : (id : VolumeId) (n : ℕ) → any (eqb 64) id ≡ true → split (snapshot_id id n) ≡ none
unfolding split
split-at id n h =
    let (p, e, late) = split_once-at id (115 ∷ decimal n) h in
    rw (e, parse_tail-at p.1 late, split) refl

-- A snapshot of a volume whose id has an `@`, once taken, is refused by a restore as malformed.
pub restore-at_sign :
    (g g1 : MemInner) (id : VolumeId) (name : Bytes) (meta : SnapshotMeta)
    → create_snapshot g id name ≡ (g1, ok meta)
    → any (eqb 64) id ≡ true
    → restore_snapshot g1 meta.id ≡ (g1, err (invalid "restore: malformed snapshot id"))
unfolding restore_snapshot
restore-at_sign g g1 id name meta e h =
    let (v, at, rows, ident, snap) = create_snapshot-state g g1 id name meta e in
    let parts : split meta.id ≡ none = ap split ident ∙ split-at id (next_counter g id) h in
    let refused : restore_checks g1 meta.id ≡ err (invalid "restore: malformed snapshot id") =
      rw (snap, parts) refl in
    rw (refused, restore_snapshot) refl
