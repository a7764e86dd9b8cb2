-- ===== src/Vault/Witnesses.antt =====
-- Runs of the volume store of crates/celvault/src/lib.rs on one small volume, and the theorems
-- applied to them.
use celium.Prelude.{some, ℕ, ◌≡◌, refl, List, [], ◌∷◌, arith, inr}
use celium.Prelude.Key.{Bytes, bytes_eq, bytes_lt, bytes_key}
use celium.Prelude.Map.{empty, get, insert}
use celium.Prelude.Map.Assoc.{lookup, place}
use celium.Prelude.Decimal.{digits}
use celium.Prelude.Error.{ok, err, invalid}
use celium.Prelude.Text.{text}
use celium.Vault.Network.{LoadBalancer, least_conn, conn_at, pick}
use celium.Vault.Network.Pick.{IsLeast, pick-IsLeast}
use celium.Vault.Volumes.{
  MemInner, VolumeId, SnapshotMeta, new, create, create_commit, read, write, create_snapshot,
  snapshot_commit, restore_snapshot,
}
use celium.Vault.Volumes.Report.{integrity_check}
use celium.Vault.Volumes.Access.{read-write, read-write_apart}
use celium.Vault.Volumes.Snapshots.{write_all, restore-create_snapshot, restore-at_sign}
use celium.Vault.Volumes.Invariant.{IsWellFormed}
use celium.Vault.Volumes.History.{Call, creates, snapshots, step, run, run-new-IsWellFormed}
use celium.Vault.Volumes.Integrity.{integrity_check-clean}

abbrev disk : VolumeId
disk = text "n1/v1"

abbrev setup : List Call
setup = creates (text "n1") (text "disk") 4 ∷ snapshots disk (text "empty") ∷ []

abbrev store : MemInner
store = run new setup

abbrev written : MemInner
written = (write store disk 1 (7 ∷ 8 ∷ [])).0

write_runs : write store disk 1 (7 ∷ 8 ∷ []) ≡ (written, ok tt)
unfolding run step new create create_commit create_snapshot snapshot_commit write get insert lookup
    place empty bytes_eq bytes_lt digits
write_runs = refl

read-write_example : read written disk 1 2 ≡ ok (7 ∷ 8 ∷ [])
read-write_example = read-write store written disk 1 (7 ∷ 8 ∷ []) write_runs

read-write_apart_example : read written disk 3 1 ≡ read store disk 3 1
read-write_apart_example =
    read-write_apart store written disk disk 1 3 1 (7 ∷ 8 ∷ []) write_runs (inr (inr (omega arith)))

run-new-IsWellFormed_example : IsWellFormed (run new setup)
run-new-IsWellFormed_example = run-new-IsWellFormed setup (omega arith)

store-IsWellFormed : IsWellFormed store
store-IsWellFormed = run-new-IsWellFormed setup (omega arith)

integrity_check-clean_example : (integrity_check store).errors ≡ []
integrity_check-clean_example = integrity_check-clean store store-IsWellFormed

abbrev saved : MemInner
saved = (create_snapshot written disk (text "full")).0

abbrev full : SnapshotMeta
full = record { id = text "n1/v1@s2"; volume = disk; name = text "full"; size_bytes = 4 }

create_snapshot_runs : create_snapshot written disk (text "full") ≡ (saved, ok full)
unfolding run step new create create_commit create_snapshot snapshot_commit write get insert lookup
    place empty bytes_eq bytes_lt digits
create_snapshot_runs = refl

abbrev later : List (VolumeId × ℕ × Bytes)
later = (disk, 0, 1 ∷ 1 ∷ 1 ∷ 1 ∷ []) ∷ (disk, 9, 1 ∷ []) ∷ []

restore-create_snapshot_example :
    ((restore_snapshot (write_all saved later) (text "n1/v1@s2")).1 ≡ ok tt)
    × ((o n : ℕ)
        → read (restore_snapshot (write_all saved later) (text "n1/v1@s2")).0 disk o n
          ≡ read written disk o n)
restore-create_snapshot_example =
    restore-create_snapshot written saved disk (text "full") full later create_snapshot_runs refl

abbrev remote : MemInner
remote = (create new (text "n@1") (text "disk") 4).0

abbrev remote_saved : MemInner
remote_saved = (create_snapshot remote (text "n@1/v1") (text "s")).0

abbrev remote_meta : SnapshotMeta
remote_meta = record {
  id = text "n@1/v1@s1";
  volume = text "n@1/v1";
  name = text "s";
  size_bytes = 4;
}

remote_runs : create_snapshot remote (text "n@1/v1") (text "s") ≡ (remote_saved, ok remote_meta)
unfolding new create create_commit create_snapshot snapshot_commit get insert lookup place empty
    bytes_eq bytes_lt digits
remote_runs = refl

restore-at_sign_example :
    restore_snapshot remote_saved (text "n@1/v1@s1")
    ≡ (remote_saved, err (invalid "restore: malformed snapshot id"))
restore-at_sign_example =
    restore-at_sign remote remote_saved (text "n@1/v1") (text "s") remote_meta remote_runs refl

abbrev balancer : LoadBalancer
balancer = record {
  id = text "n1/lb1";
  owner = text "n1";
  name = text "web";
  network_id = text "n1/n1";
  vip = 0xa000064;
  frontend_port = 80;
  algo = least_conn;
  backends =
      record { vm_id = 1; ip = 0xa000002; port = 8080 }
      ∷ record { vm_id = 2; ip = 0xa000003; port = 8080 }
      ∷ [];
}

pick-IsLeast_example : (r : ℕ) × (pick balancer 0 (5 ∷ 3 ∷ []) ≡ some r) × IsLeast (5 ∷ 3 ∷ []) 2 r
unfolding conn_at
pick-IsLeast_example =
    pick-IsLeast balancer 0 (5 ∷ 3 ∷ []) refl (λ e. ground (arith, e)) (omega arith)
