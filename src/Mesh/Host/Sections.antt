-- ===== src/Mesh/Host/Sections.antt =====
-- The parts of the operations of crates/celmesh/src/host.rs that its mutexes make whole, and the threads
-- that stand between the two parts of an operation.
pub mod Whole
use celium.Prelude.{
  ℕ, zero, suc, ◌≡◌, refl, Bool, true, false, not, ◌&&◌, ◌||◌, Option, none, some, List, [], ◌∷◌,
  ◌++◌, any, inl, inr, Bool-cases, if◌then◌else◌,
}
use celium.Prelude.Key.{Bytes, bytes_eq, bytes_key}
use celium.Vault.Attachments.{VolumeAttachment}
use celium.Vault.Volumes
use celium.Vault.Volumes.{VolumeId}
use celium.Vault.Network.{NetworkId}
use celium.Mesh.Capabilities.{Capabilities, contains, required}
use celium.Mesh.Operations.{VmOp}
use celium.Mesh.Operations
use celium.Mesh.Membership.{NodeId}
use celium.Mesh.Replies.{HostResult, done, refused, HostResult-cases}
use celium.Mesh.Host.{MemVmHost, current_rows, attach_preserved}
use celium.Mesh.Host.Storage
use celium.Mesh.Host.Storage.{attached, attach_known, attach_commit, delete_commit}
use celium.Mesh.Host.Networking
use celium.Mesh.Host.Networking.{nic_checks, attach_nic_commit}
use celium.Mesh.Host.Apply.{apply, dispatch}
use celium.Mesh.Host.Effects.Stores.{deletion_of}

-- A thread that has run the first part of an operation, and what it keeps for the second.
pub data Section : Type 0 where
  deleting : VolumeId → Section
  attaching : ℕ → VolumeId → Bytes → Section
  attaching_nic : NetworkId → ℕ → Option ℕ → Section

abbrev pub nic_section : NetworkId → ℕ → HostResult (Option ℕ) → Option Section
nic_section id vm_id (refused e) = none
nic_section id vm_id (done ip) = some (attaching_nic id vm_id ip)

abbrev pub volume_section : ℕ → VolumeId → Bytes → HostResult (Unit {0}) → Option Section
volume_section vm_id id mount_name (refused e) = none
volume_section vm_id id mount_name (done _) = some (attaching vm_id id mount_name)

-- The first part, or `none` where the operation is refused or has one part only.
unfoldable pub first_part : MemVmHost → VmOp → Option Section
first_part h (Operations.delete_volume id) =
    if attached id h.slots then none else some (deleting id)
first_part h (Operations.attach_volume vm_id id mount_name) =
    volume_section vm_id id mount_name (attach_known h id mount_name)
first_part h (Operations.attach_nic id vm_id ip) = nic_section id vm_id (nic_checks h vm_id ip)
first_part h _ = none

unfoldable pub begin : MemVmHost → VmOp → Option Section
begin h op = if contains h.caps (required op) then first_part h op else none

unfoldable pub finish : MemVmHost → Section → MemVmHost
finish h (deleting id) = (delete_commit h id).0
finish h (attaching vm_id id mount_name) = (attach_commit h vm_id id mount_name).0
finish h (attaching_nic id vm_id ip) = (attach_nic_commit h id vm_id ip).0

-- The host, the threads between two parts, and the volumes that are lost: see `step`.
pub record Threads : Type 0 where
  pub host : MemVmHost
  pub pending : List Section
  pub lost : List VolumeId

-- One part of a thread: an operation without an interruption, a snapshot, the attachments that the
-- supervisor gives back to a VM, or the first or the second part of an operation.
pub data Call : Type 0 where
  operation : VmOp → Call
  snapshot : NodeId → Call
  reattached : ℕ → List VolumeAttachment → Call
  began : VmOp → Call
  ended : ℕ → Call

abbrev pub is_attaching : VolumeId → Section → Bool
is_attaching id (attaching vm_id other mount_name) = bytes_eq id other
is_attaching id _ = false

-- The thread at an index, and the others.
unfoldable pub taken : ℕ → List Section → Option (Section × List Section)
taken i [] = none
taken zero (x ∷ xs) = some (x, xs)
taken (suc i) (x ∷ xs) = elim (taken i xs) [ none ↦ none | some p ↦ some (p.0, x ∷ p.1) ]

-- Of the volumes that the supervisor names, those that the vault has not.
unfoldable pub unknown : Volumes.MemInner → List VolumeAttachment → List VolumeId
unknown vault [] = []
unknown vault (a ∷ l) = elim (Volumes.get_meta vault a.volume_id) [
  | none ↦ a.volume_id ∷ unknown vault l
  | some _ ↦ unknown vault l
]

-- A deletion while a thread is about to attach the volume.
abbrev pub lost_by : Threads → Option VolumeId → List VolumeId
lost_by m none = m.lost
lost_by m (some id) =
    if not (attached id m.host.slots) && any (is_attaching id) m.pending
    then id ∷ m.lost
    else m.lost

-- The second part of a deletion, when the volume has been attached since the first, or is about to be.
abbrev pub lost_at_end : Threads → Section → List Section → List VolumeId
lost_at_end m (deleting id) others =
    if attached id m.host.slots || any (is_attaching id) others then id ∷ m.lost else m.lost
lost_at_end m _ others = m.lost

abbrev pub end_taken : Threads → Option (Section × List Section) → Threads
end_taken m none = m
end_taken m (some (x, others)) = record {
  host = finish m.host x;
  pending = others;
  lost = lost_at_end m x others;
}

abbrev pub joined_by : Threads → Option Section → Threads
joined_by m none = m
joined_by m (some x) = record m { pending = x ∷ m.pending }

unfoldable pub step : Threads → Call → Threads
step m (operation op) = record m { host = (apply m.host op).0; lost = lost_by m (deletion_of op) }
step m (snapshot node) = record m { host = (current_rows m.host node).0 }
step m (reattached vm_id attachments) = record m {
  host = (attach_preserved m.host vm_id attachments).0;
  lost = unknown m.host.vault attachments ++ m.lost;
}
step m (began op) = joined_by m (begin m.host op)
step m (ended i) = end_taken m (taken i m.pending)

unfoldable pub run : Threads → List Call → Threads
run m [] = m
run m (c ∷ cs) = run (step m c) cs

abbrev pub start : MemVmHost → Threads
start h = record { host = h; pending = []; lost = [] }
