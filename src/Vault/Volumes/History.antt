-- ===== src/Vault/Volumes/History.antt =====
-- Sequences of calls of the volume store of crates/celvault/src/lib.rs.
use celium.Prelude.{ℕ, ◌+◌, ◌≤◌, ◌<◌, List, [], ◌∷◌, arith, length, inl, inr}
use celium.Prelude.Key.{Bytes}
use celium.Prelude.Words.{u64_max}
use celium.Prelude.Error.{CelResult-cases}
use celium.Vault.Volumes.{
  MemInner, VolumeId, SnapshotId, new, create, create_checks, create_commit, delete, write,
  write_checks, create_snapshot, snapshot_checks, snapshot_commit, delete_snapshot,
  restore_snapshot, restore_checks,
}
use celium.Vault.Volumes.Invariant.{IsWellFormed, new-IsWellFormed}
use celium.Vault.Volumes.Invariant.Calls.{
  create-IsWellFormed, write-IsWellFormed, create_snapshot-IsWellFormed,
  delete_snapshot-IsWellFormed, restore_snapshot-IsWellFormed,
}
use celium.Vault.Volumes.Invariant.Deletion.{delete-IsWellFormed}

-- The calls that change the store.
pub data Call : Type 0 where
  creates : Bytes → Bytes → ℕ → Call
  deletes : VolumeId → Call
  writes : VolumeId → ℕ → Bytes → Call
  snapshots : VolumeId → Bytes → Call
  drops : SnapshotId → Call
  restores : SnapshotId → Call

unfoldable pub step : MemInner → Call → MemInner
step g (creates owner name size_bytes) = (create g owner name size_bytes).0
step g (deletes id) = delete g id
step g (writes id offset bytes) = (write g id offset bytes).0
step g (snapshots id name) = (create_snapshot g id name).0
step g (drops id) = delete_snapshot g id
step g (restores id) = (restore_snapshot g id).0

unfoldable pub run : MemInner → List Call → MemInner
run g [] = g
run g (c ∷ cs) = run (step g c) cs

-- A call gives out at most one number.
pub step-next : (g : MemInner) (c : Call) → g.next < u64_max → (step g c).next ≤ g.next + 1
unfolding step create create_commit delete write create_snapshot snapshot_commit delete_snapshot
    restore_snapshot
step-next g (creates owner name size_bytes) room =
    elim (CelResult-cases (create_checks name size_bytes)) [
      | inl (_, e) ↦ rw (e, step, create) (omega arith)
      | inr (_, e) ↦ rw (e, step, create) (omega arith)
    ]
step-next g (deletes id) room = omega arith
step-next g (writes id offset bytes) room =
    elim (CelResult-cases (write_checks g id offset bytes)) [
      | inl (_, e) ↦ rw (e, step, write) (omega arith)
      | inr (_, e) ↦ rw (e, step, write) (omega arith)
    ]
step-next g (snapshots id name) room = elim (CelResult-cases (snapshot_checks g id name)) [
  | inl (_, e) ↦ rw (e, step, create_snapshot) (omega arith)
  | inr (_, e) ↦ rw (e, step, create_snapshot) (omega arith)
]
step-next g (drops id) room = omega arith
step-next g (restores id) room = elim (CelResult-cases (restore_checks g id)) [
  | inl (_, e) ↦ rw (e, step, restore_snapshot) (omega arith)
  | inr (_, e) ↦ rw (e, step, restore_snapshot) (omega arith)
]

pub step-IsWellFormed :
    (g : MemInner) (c : Call) → IsWellFormed g → g.next < u64_max → IsWellFormed (step g c)
unfolding step
step-IsWellFormed g (creates owner name size_bytes) good room =
    create-IsWellFormed g owner name size_bytes good room
step-IsWellFormed g (deletes id) good room = delete-IsWellFormed g id good
step-IsWellFormed g (writes id offset bytes) good room = write-IsWellFormed g id offset bytes good
step-IsWellFormed g (snapshots id name) good room = create_snapshot-IsWellFormed g id name good
step-IsWellFormed g (drops id) good room = delete_snapshot-IsWellFormed g id good
step-IsWellFormed g (restores id) good room = restore_snapshot-IsWellFormed g id good

pub run_from-IsWellFormed :
    (cs : List Call) (g : MemInner)
    → IsWellFormed g
    → g.next + length cs ≤ u64_max
    → IsWellFormed (run g cs)
unfolding run
run_from-IsWellFormed [] g good room = good
run_from-IsWellFormed (c ∷ cs) g good room =
    run_from-IsWellFormed cs (step g c) (step-IsWellFormed g c good (omega arith))
      (omega (arith, step-next g c (omega arith)))

-- Every state that fewer than 2^64 calls reach from the empty volume store is well-formed: each
-- volume has a body of the size that it records, and each snapshot a living volume of its size.
pub run-new-IsWellFormed : (cs : List Call) → length cs ≤ u64_max → IsWellFormed (run new cs)
unfolding new
run-new-IsWellFormed cs room = run_from-IsWellFormed cs new new-IsWellFormed (omega arith)
