-- ===== src/Mesh/Host.antt =====
-- crates/celmesh/src/host.rs: the reference VM host. Each of its mutexes guards one part of the state.
-- The owner does not change once it is known, so an operation that reads it and then takes one more
-- mutex is one step. Three operations take the mutex of the slots and that of a store, one after the
-- other: Storage and Networking give both parts of these and the operation that runs without an
-- interruption; Sections has the parts of all threads in any order.
pub mod Storage
pub mod Networking
pub mod Apply
pub mod Sections
pub mod Effects
pub mod Lifecycle
pub mod Invariant
pub mod Waiting
pub mod History
pub mod Readers
mod Witnesses
use celium.Prelude.{
  ℕ, zero, suc, Bool, true, false, not, Option, none, some, List, [], ◌∷◌, ◌++◌, ltb, leb, eqb,
  length, any, if◌then◌else◌, String,
}
use celium.Prelude.Key.{Bytes, bytes_eq}
use celium.Prelude.Error.{CelResult, ok, err}
use celium.Prelude.Text.{text}
use celium.Vault.Attachments.{VolumeAttachment}
use celium.Vault.Volumes
use celium.Vault.Networks
use celium.Mesh.Capabilities
use celium.Mesh.Capabilities.{Capabilities}
use celium.Mesh.Operations.{RestartPolicy}
use celium.Mesh.Federation.{RemoteVm}
use celium.Mesh.Membership.{NodeId}
use celium.Mesh.Replies
use celium.Mesh.Replies.{
  VmOpReply, HostError, HostResult, done, refused, ◌>>=◌, ◌>>◌, refuse_if, some_or, plain,
}

abbrev pub max_slots : ℕ
max_slots = 4

-- The tags of a slot's state.
pub data SlotState : Type 0 where
  created running halted stopped faulted : SlotState

abbrev pub tag : SlotState → Bytes
tag created = text "created"
tag running = text "running"
tag halted = text "halted"
tag stopped = text "stopped"
tag faulted = text "faulted"

abbrev pub is_terminal : SlotState → Bool
is_terminal halted = true
is_terminal stopped = true
is_terminal faulted = true
is_terminal _ = false

abbrev pub is_running : SlotState → Bool
is_running running = true
is_running _ = false

pub record Slot : Type 0 where
  pub label : Bytes
  pub state : SlotState
  pub last_exit : Option ℕ
  pub restart_policy : RestartPolicy
  pub volumes : List VolumeAttachment
  pub image_path : Option Bytes
  pub cpu_count : Option ℕ
  pub memory_mib : Option ℕ
  pub boot_blob_crc32c : Option ℕ

-- The array of slots is the list of them.
abbrev pub Slots : Type 0
Slots = List (Option Slot)

pub record MemVmHost : Type 0 where
  pub slots : Slots
  pub vault : Volumes.MemInner
  pub nets : Networks.MemInner
  pub owner : Option Bytes
  pub caps : Capabilities

unfoldable pub with_stores : Volumes.MemInner → Networks.MemInner → MemVmHost
with_stores vault nets = record {
  slots = none ∷ none ∷ none ∷ none ∷ [];
  vault = vault;
  nets = nets;
  owner = none;
  caps = Capabilities.all;
}

unfoldable pub with_vault : Volumes.MemInner → MemVmHost
unfolding with_stores
with_vault vault = with_stores vault Networks.new

unfoldable pub new : MemVmHost
unfolding with_vault
new = with_vault Volumes.new

unfoldable pub with_caps : MemVmHost → Capabilities → MemVmHost
with_caps h caps = record h { caps = caps }

unfoldable pub remember_owner : MemVmHost → NodeId → MemVmHost
remember_owner h node = elim h.owner [ none ↦ record h { owner = some node } | some _ ↦ h ]

-- The slot at an index, and the slots with another one there.
unfoldable pub slot_at : Slots → ℕ → Option Slot
slot_at [] i = none
slot_at (s ∷ ss) zero = s
slot_at (s ∷ ss) (suc i) = slot_at ss i

unfoldable pub set_slot : Slots → ℕ → Option Slot → Slots
set_slot [] i x = []
set_slot (s ∷ ss) zero x = x ∷ ss
set_slot (s ∷ ss) (suc i) x = s ∷ set_slot ss i x

-- `slot_mut`: the slot that the caller then changes in place.
abbrev pub slot_mut : Slots → ℕ → HostResult Slot
slot_mut slots vm_id = do
  refuse_if (leb max_slots vm_id) "vm id out of range"
  some_or (slot_at slots vm_id) "vm not allocated"

-- A reply of a state that may have changed.
abbrev pub Outcome : Type 0
Outcome = MemVmHost × HostResult VmOpReply

-- The slot of `vm_id` is replaced, where the checks give a slot.
abbrev pub put_slot : MemVmHost → ℕ → HostResult Slot → (Slot → VmOpReply) → Outcome
put_slot h vm_id (refused e) reply = (h, refused e)
put_slot h vm_id (done s) reply =
    (record h { slots = set_slot h.slots vm_id (some s) }, done (reply s))

-- The loop over the slots: the first that is free, from the index.
unfoldable pub first_free : ℕ → Slots → Option ℕ
first_free i [] = none
first_free i (none ∷ ss) = some i
first_free i (some s ∷ ss) = first_free (suc i) ss

abbrev pub place_vm : MemVmHost → Slot → Option ℕ → Outcome
place_vm h s none = (h, refused (plain "vm registry full"))
place_vm h s (some i) = (record h { slots = set_slot h.slots i (some s) }, done (Replies.created i))

-- `VmOp::Create`
unfoldable pub create_vm :
    MemVmHost → Bytes → RestartPolicy → Option Bytes → Option ℕ → Option ℕ → Option ℕ → Outcome
create_vm h label policy image cpus memory crc =
    if ltb 32 (length label)
    then (h, refused (plain "label > 32 chars"))
    else place_vm h
        (record {
          label = label;
          state = created;
          last_exit = none;
          restart_policy = policy;
          volumes = [];
          image_path = image;
          cpu_count = cpus;
          memory_mib = memory;
          boot_blob_crc32c = crc;
        })
        (first_free 0 h.slots)

-- `VmOp::Start`: the exit code 12 is that of a halted guest.
abbrev pub started : Slots → ℕ → HostResult Slot
started slots vm_id = do
  s ← slot_mut slots vm_id
  refuse_if (is_terminal s.state) "vm already terminal"
  refuse_if (is_running s.state) "vm already running"
  done (record s { state = halted; last_exit = some 12 })

unfoldable pub start_vm : MemVmHost → ℕ → Outcome
start_vm h vm_id = put_slot h vm_id (started h.slots vm_id) (λ s. Replies.state vm_id (tag s.state))

-- `VmOp::Stop`
abbrev pub stopped_slot : Slots → ℕ → HostResult Slot
stopped_slot slots vm_id = do
  s ← slot_mut slots vm_id
  done (if is_terminal s.state then s else record s { state = stopped })

unfoldable pub stop_vm : MemVmHost → ℕ → Outcome
stop_vm h vm_id =
    put_slot h vm_id (stopped_slot h.slots vm_id) (λ s. Replies.state vm_id (tag s.state))

-- `VmOp::Delete`
abbrev pub delete_checks : Slots → ℕ → HostResult (Unit {0})
delete_checks slots vm_id = do
  s ← slot_mut slots vm_id
  refuse_if (not (is_terminal s.state)) "vm not terminal; stop first"

unfoldable pub delete_vm : MemVmHost → ℕ → Outcome
delete_vm h vm_id = elim (delete_checks h.slots vm_id) [
  | refused e ↦ (h, refused e)
  | done _ ↦ (record h { slots = set_slot h.slots vm_id none }, done (Replies.deleted vm_id))
]

-- The rows of the slots, from the index.
unfoldable pub rows_from : NodeId → ℕ → Slots → List RemoteVm
rows_from node i [] = []
rows_from node i (none ∷ ss) = rows_from node (suc i) ss
rows_from node i (some s ∷ ss) =
    record {
      owner = node;
      vm_id = i;
      label = s.label;
      state = tag s.state;
      last_exit = s.last_exit;
      epoch = 0;
      hlc = 0;
      owner_alive = true;
      restart_policy = s.restart_policy;
      volumes = s.volumes;
      image_path = s.image_path;
      cpu_count = s.cpu_count;
      memory_mib = s.memory_mib;
      boot_blob_crc32c = s.boot_blob_crc32c;
    }
    ∷ rows_from node (suc i) ss

unfoldable pub current_rows : MemVmHost → NodeId → MemVmHost × List RemoteVm
current_rows h node = (remember_owner h node, rows_from node 0 h.slots)

-- `attach_preserved`
unfoldable pub attach_preserved :
    MemVmHost → ℕ → List VolumeAttachment → MemVmHost × HostResult (Unit {0})
attach_preserved h vm_id attachments = elim (slot_mut h.slots vm_id) [
  | refused e ↦ (h, refused e)
  | done s ↦ (
    record h { slots = set_slot h.slots vm_id (some (record s { volumes = attachments })) },
    done tt,
  )
]
