-- ===== src/Vault/Volumes/Access.antt =====
-- Reads and writes of crates/celvault/src/lib.rs: what a read returns after a write, and where both
-- are refused.
use celium.Prelude.{
  ℕ, ◌+◌, ◌≤◌, ◌≡◌, ◌≢◌, ◌⊎◌, refl, sym, ap, ◌∙◌, subst, some, arith, inl, inr, Option-cases,
  Bool-cases, length,
}
use celium.Prelude.Key.{Bytes, bytes_eq, bytes_eq_iff, bytes_key}
use celium.Prelude.Map.{get, insert, get-insert, get-insert_self}
use celium.Prelude.Words.{u64_max}
use celium.Prelude.Error.{ok, err, CelResult-cases}
use celium.Vault.Volumes.Bodies.{slice-overwrite, slice-apart, length-overwrite}
use celium.Vault.Volumes.{
  MemInner, MemVolume, VolumeId, read, write, slice, overwrite, write_checks, set_body,
}

-- A range of a volume that a call may touch.
abbrev pub InRange : MemInner → VolumeId → ℕ → ℕ → Type 0
InRange g id offset len =
    (v : MemVolume) × (get g.rows id ≡ some v)
    × (offset + len ≤ length v.body)
    × (offset + len ≤ u64_max)

pub read-ok :
    (g : MemInner) (id : VolumeId) (offset len : ℕ) (v : MemVolume)
    → get g.rows id ≡ some v
    → offset + len ≤ length v.body
    → offset + len ≤ u64_max
    → read g id offset len ≡ ok (slice offset len v.body)
unfolding read
read-ok g id offset len v e inside small = ground arith

read-range :
    (g : MemInner) (id : VolumeId) (offset len : ℕ) (out : Bytes)
    → read g id offset len ≡ ok out
    → InRange g id offset len
unfolding read
read-range g id offset len out e = elim (Option-cases (get g.rows id)) [
  | inl gone ↦ absurd (ground (arith, gone, e))
  | inr (v, at) ↦ (v, at, ground (arith, at, e), ground (arith, at, e))
]

pub write-ok :
    (g : MemInner) (id : VolumeId) (offset : ℕ) (bytes : Bytes) (v : MemVolume)
    → get g.rows id ≡ some v
    → offset + length bytes ≤ length v.body
    → offset + length bytes ≤ u64_max
    → write g id offset bytes ≡ (set_body g id v (overwrite offset bytes v.body), ok tt)
unfolding write
write-ok g id offset bytes v e inside small =
    let passed : write_checks g id offset bytes ≡ ok v = ground arith in rw (passed, write) refl

write-range :
    (g g' : MemInner) (id : VolumeId) (offset : ℕ) (bytes : Bytes)
    → write g id offset bytes ≡ (g', ok tt)
    → InRange g id offset (length bytes)
unfolding write
write-range g g' id offset bytes e = elim (CelResult-cases (write_checks g id offset bytes)) [
  | inr (x, bad) ↦
      let refused : write g id offset bytes ≡ (g, err x) = rw (bad, write) refl in
      absurd (ground (arith, refused, e))
  | inl (w, good) ↦ elim (Option-cases (get g.rows id)) [
    | inl gone ↦ absurd (ground (arith, gone, good))
    | inr (v, at) ↦ (v, at, ground (arith, at, good), ground (arith, at, good))
  ]
]

-- The state behind a write that was taken: its volume's body, overwritten.
pub write-state :
    (g g' : MemInner) (id : VolumeId) (offset : ℕ) (bytes : Bytes)
    → write g id offset bytes ≡ (g', ok tt)
    → (v : MemVolume) × (get g.rows id ≡ some v)
      × (offset + length bytes ≤ length v.body)
      × (offset + length bytes ≤ u64_max)
      × (g' ≡ set_body g id v (overwrite offset bytes v.body))
write-state g g' id offset bytes e =
    let (v, at, inside, small) = write-range g g' id offset bytes e in
    (v, at, inside, small, ap (λ r. r.0) (sym e ∙ write-ok g id offset bytes v at inside small))

-- What a write that is taken puts in a volume, a read of the same range returns.
pub read-write :
    (g g' : MemInner) (id : VolumeId) (offset : ℕ) (bytes : Bytes)
    → write g id offset bytes ≡ (g', ok tt)
    → read g' id offset (length bytes) ≡ ok bytes
read-write g g' id offset bytes e =
    let (v, at, inside, small, state) = write-state g g' id offset bytes e in
    let body = overwrite offset bytes v.body in
    let row : get (set_body g id v body).rows id ≡ some (record v { body = body }) =
      get-insert_self id (record v { body = body }) g.rows in
    let same = length-overwrite offset bytes v.body inside in
    rw state (
      read-ok (set_body g id v body) id offset (length bytes) (record v { body = body }) row
        (omega (arith, same)) small
      ∙ ap ok (slice-overwrite offset bytes v.body inside))

-- A read of a range from a row depends on the length and on that range of its body alone.
read-same :
    (g g' : MemInner) (id : VolumeId) (o n : ℕ) (v w : MemVolume)
    → get g.rows id ≡ some v
    → get g'.rows id ≡ some w
    → length w.body ≡ length v.body
    → slice o n w.body ≡ slice o n v.body
    → read g' id o n ≡ read g id o n
unfolding read
read-same g g' id o n v w before after long same = rw (before, after, long, same) refl

-- A write that is taken changes no read of another volume, and no read of a range that it does
-- not meet, not even one that is refused.
pub read-write_apart :
    (g g' : MemInner) (id other : VolumeId) (offset o n : ℕ) (bytes : Bytes)
    → write g id offset bytes ≡ (g', ok tt)
    → (id ≢ other) ⊎ ((o + n ≤ offset) ⊎ (offset + length bytes ≤ o))
    → read g' other o n ≡ read g other o n
unfolding read
read-write_apart g g' id other offset o n bytes e (inl apart) =
    let (v, at, inside, small, state) = write-state g g' id offset bytes e in
    let w : MemVolume = record v { body = overwrite offset bytes v.body } in
    let row : get (insert id w g.rows) other ≡ get g.rows other =
      ground (arith, get-insert id other w g.rows, bytes_eq_iff id other) in
    rw (state, row) refl
read-write_apart g g' id other offset o n bytes e (inr apart) =
    let (v, at, inside, small, state) = write-state g g' id offset bytes e in
    let w : MemVolume = record v { body = overwrite offset bytes v.body } in
    elim (Bool-cases (bytes_eq id other)) [
      | inl same ↦
          let name : id ≡ other = (bytes_eq_iff id other).0 same in
          rw state (
            read-same g (set_body g id v w.body) other o n v w
              (subst (λ i. get g.rows i ≡ some v) name at)
              (ground (arith, get-insert id other w g.rows, same))
              (length-overwrite offset bytes v.body inside)
              (slice-apart o n offset bytes v.body inside apart))
      | inr differ ↦
          let row : get (insert id w g.rows) other ≡ get g.rows other =
            ground (arith, get-insert id other w g.rows, differ) in
          rw (state, row) refl
    ]
