-- ===== src/Vault/Volumes.antt =====
-- crates/celvault/src/lib.rs: the volume store in memory. The mutex makes each call one step from
-- a state to a state. A body is its list of bytes, and `usize` is 64 bits wide.
pub mod Bodies
pub mod Access
pub mod Ids
pub mod Invariant
pub mod Snapshots
pub mod History
pub mod Report
pub mod Integrity
pub mod Persistence
use celium.Prelude.{
  ℕ, ◌+◌, ◌-◌, ◌*◌, min, Bool, true, false, not, Option, none, some, List, [], ◌∷◌, ◌++◌, map, ltb,
  leb, eqb, length, take, drop, replicate, retain, if◌then◌else◌,
}
use celium.Prelude.Key.{Bytes, bytes_eq, bytes_key}
use celium.Prelude.Map.{Map, empty, get, insert, remove, values, items}
use celium.Prelude.Error.{CelError, CelResult, ok, err, ◌>>=◌, ◌>>◌, refuse_if, ok_or, invalid}
use celium.Prelude.Words.{u32_max, u64_max, saturating_add, checked_add}
use celium.Prelude.Text.{text}
use celium.Prelude.Decimal.{decimal, parse_u64, split_once}

abbrev pub VolumeId : Type 0
VolumeId = Bytes

abbrev pub SnapshotId : Type 0
SnapshotId = Bytes

-- `format!("{owner}/v{}", n)`
abbrev pub volume_id : Bytes → ℕ → VolumeId
volume_id owner n = owner ++ 47 ∷ 118 ∷ decimal n

-- `format!("{id}@s{counter}")`
abbrev pub snapshot_id : VolumeId → ℕ → SnapshotId
snapshot_id id n = id ++ 64 ∷ 115 ∷ decimal n

-- `tail.strip_prefix('s')?.parse().ok()?`
abbrev pub parse_tail : Bytes → Option ℕ
parse_tail [] = none
parse_tail (c ∷ cs) = if eqb c 115 then parse_u64 cs else none

unfoldable pub split : SnapshotId → Option (VolumeId × ℕ)
split id = elim (split_once 64 id) [
  | none ↦ none
  | some p ↦ elim (parse_tail p.1) [ none ↦ none | some n ↦ some (p.0, n) ]
]

pub record VolumeMeta : Type 0 where
  pub id : VolumeId
  pub owner : Bytes
  pub name : Bytes
  pub size_bytes : ℕ

pub record SnapshotMeta : Type 0 where
  pub id : SnapshotId
  pub volume : VolumeId
  pub name : Bytes
  pub size_bytes : ℕ

abbrev pub max_name : ℕ
max_name = 64

abbrev pub max_volume_bytes : ℕ
max_volume_bytes = 64 * 1024 * 1024

pub record MemVolume : Type 0 where
  pub meta : VolumeMeta
  pub body : Bytes

pub record MemSnapshot : Type 0 where
  pub meta : SnapshotMeta
  pub body : Bytes

pub record MemInner : Type 0 where
  pub next : ℕ
  pub rows : Map VolumeId MemVolume
  pub next_snap : Map VolumeId ℕ
  pub snaps : Map SnapshotId MemSnapshot

unfoldable pub new : MemInner
new = record { next = 0; rows = empty; next_snap = empty; snaps = empty }

abbrev pub validate_name : Bytes → CelResult (Unit {0})
validate_name name = do
  refuse_if (eqb (length name) 0) (invalid "volume name: empty")
  refuse_if (ltb max_name (length name)) (invalid "volume name: too long")

abbrev pub create_checks : Bytes → ℕ → CelResult (Unit {0})
create_checks name size_bytes = do
  validate_name name
  refuse_if (eqb size_bytes 0) (invalid "volume size: must be > 0")
  refuse_if (ltb max_volume_bytes size_bytes) (invalid "volume size: exceeds MAX_VOLUME_BYTES")

-- The part of `create` behind its checks.
unfoldable pub create_commit : MemInner → Bytes → Bytes → ℕ → MemInner × VolumeMeta
create_commit g owner name size_bytes =
    let n = saturating_add u64_max g.next 1 in
    let id = volume_id owner n in
    let meta : VolumeMeta = record {
      id = id;
      owner = owner;
      name = name;
      size_bytes = size_bytes;
    } in
    let row : MemVolume = record { meta = meta; body = replicate size_bytes 0 } in
    (record g { next = n; rows = insert id row g.rows }, meta)

unfoldable pub create : MemInner → Bytes → Bytes → ℕ → MemInner × CelResult VolumeMeta
create g owner name size_bytes = elim (create_checks name size_bytes) [
  | err e ↦ (g, err e)
  | ok _ ↦ let r = create_commit g owner name size_bytes in (r.0, ok r.1)
]

-- The keys of the snapshots of a volume, and their removal one by one.
unfoldable pub snaps_of : VolumeId → List (SnapshotId × MemSnapshot) → List SnapshotId
snaps_of id [] = []
snaps_of id ((k, s) ∷ rest) =
    let ks = snaps_of id rest in if bytes_eq s.meta.volume id then k ∷ ks else ks

unfoldable pub remove_each :
    List SnapshotId → Map SnapshotId MemSnapshot → Map SnapshotId MemSnapshot
remove_each [] m = m
remove_each (k ∷ ks) m = remove_each ks (remove k m)

unfoldable pub delete : MemInner → VolumeId → MemInner
delete g id = record g {
  rows = remove id g.rows;
  next_snap = remove id g.next_snap;
  snaps = remove_each (snaps_of id (items g.snaps)) g.snaps;
}

unfoldable pub list : MemInner → List VolumeMeta
list g = map (λ v. v.meta) (values g.rows)

unfoldable pub get_meta : MemInner → VolumeId → Option VolumeMeta
get_meta g id = elim (get g.rows id) [ none ↦ none | some v ↦ some v.meta ]

-- `body[off..end]`, for an `end` that the caller has checked.
abbrev pub slice : ℕ → ℕ → Bytes → Bytes
slice off len body = take len (drop off body)

-- `body[off..end].copy_from_slice(bytes)`, with the same check made.
abbrev pub overwrite : ℕ → Bytes → Bytes → Bytes
overwrite off bytes body = take off body ++ (bytes ++ drop (off + length bytes) body)

unfoldable pub read : MemInner → VolumeId → ℕ → ℕ → CelResult Bytes
read g id offset len = do
  v ← ok_or (get g.rows id) (invalid "volume: unknown id")
  end ← ok_or (checked_add u64_max offset len) (invalid "volume: read range overflow")
  refuse_if (ltb (length v.body) end) (invalid "volume: read past end")
  ok (slice offset len v.body)

abbrev pub write_checks : MemInner → VolumeId → ℕ → Bytes → CelResult MemVolume
write_checks g id offset bytes = do
  v ← ok_or (get g.rows id) (invalid "volume: unknown id")
  end ← ok_or (checked_add u64_max offset (length bytes)) (invalid "volume: write range overflow")
  refuse_if (ltb (length v.body) end) (invalid "volume: write past end")
  ok v

-- The row of a volume whose body is replaced.
abbrev pub set_body : MemInner → VolumeId → MemVolume → Bytes → MemInner
set_body g id v body = record g { rows = insert id (record v { body = body }) g.rows }

unfoldable pub write : MemInner → VolumeId → ℕ → Bytes → MemInner × CelResult (Unit {0})
write g id offset bytes = elim (write_checks g id offset bytes) [
  | err e ↦ (g, err e)
  | ok v ↦ (set_body g id v (overwrite offset bytes v.body), ok tt)
]

abbrev pub snapshot_checks : MemInner → VolumeId → Bytes → CelResult MemVolume
snapshot_checks g id name = do
  validate_name name
  ok_or (get g.rows id) (invalid "snapshot: unknown volume")

-- `entry(id).or_insert(0)`, then `saturating_add(1)`.
abbrev pub next_counter : MemInner → VolumeId → ℕ
next_counter g id = elim (get g.next_snap id) [
  | none ↦ saturating_add u64_max 0 1
  | some n ↦ saturating_add u64_max n 1
]

unfoldable pub snapshot_commit : MemInner → VolumeId → Bytes → MemVolume → MemInner × SnapshotMeta
snapshot_commit g id name v =
    let counter = next_counter g id in
    let snap_id = snapshot_id id counter in
    let meta : SnapshotMeta = record {
      id = snap_id;
      volume = id;
      name = name;
      size_bytes = length v.body;
    } in
    let snap : MemSnapshot = record { meta = meta; body = v.body } in
    (
      record g { next_snap = insert id counter g.next_snap; snaps = insert snap_id snap g.snaps },
      meta,
    )

unfoldable pub create_snapshot : MemInner → VolumeId → Bytes → MemInner × CelResult SnapshotMeta
create_snapshot g id name = elim (snapshot_checks g id name) [
  | err e ↦ (g, err e)
  | ok v ↦ let r = snapshot_commit g id name v in (r.0, ok r.1)
]

abbrev pub is_of : Option VolumeId → MemSnapshot → Bool
is_of none s = true
is_of (some v) s = bytes_eq s.meta.volume v

unfoldable pub list_snapshots : MemInner → Option VolumeId → List SnapshotMeta
list_snapshots g volume = map (λ s. s.meta) (retain (is_of volume) (values g.snaps))

unfoldable pub delete_snapshot : MemInner → SnapshotId → MemInner
delete_snapshot g id = record g { snaps = remove id g.snaps }

-- What `restore_snapshot` reads before it writes: the volume's id, its row, the captured bytes.
abbrev pub restore_checks : MemInner → SnapshotId → CelResult (VolumeId × MemVolume × Bytes)
restore_checks g id = do
  s ← ok_or (get g.snaps id) (invalid "restore: unknown snapshot")
  p ← ok_or (split id) (invalid "restore: malformed snapshot id")
  v ← ok_or (get g.rows p.0) (invalid "restore: volume gone")
  refuse_if (not (eqb (length v.body) (length s.body))) (invalid "restore: volume size changed")
  ok (p.0, v, s.body)

unfoldable pub restore_snapshot : MemInner → SnapshotId → MemInner × CelResult (Unit {0})
restore_snapshot g id = elim (restore_checks g id) [
  | err e ↦ (g, err e)
  | ok (vol_id, v, body) ↦ (set_body g vol_id v body, ok tt)
]
