-- ===== src/Mesh/Host/Effects.antt =====
-- What an operation of the host in crates/celmesh/src/host.rs does to the host: nothing, a call of
-- one of its stores, or a change of one slot.
pub mod Stores
use celium.Prelude.{
  ℕ, zero, suc, ◌+◌, ◌≡◌, refl, sym, ap, ◌∙◌, subst, Bool, true, false, not, Option, none, some,
  List, [], ◌∷◌, ◌++◌, inl, inr, Bool-cases, Option-cases, ltb, leb, length, retain, arith,
  if◌then◌else◌,
}
use celium.Prelude.Key.{Bytes, bytes_key}
use celium.Prelude.Error.{ok, err, CelResult-cases}
use celium.Vault.Attachments.{VolumeAttachment}
use celium.Vault.Volumes
use celium.Vault.Volumes.{VolumeId, SnapshotId, MemVolume}
use celium.Vault.Volumes.History
use celium.Vault.Volumes.Persistence.{is_deletion}
use celium.Vault.Network.Addresses.{parse}
use celium.Vault.Networks
use celium.Vault.Networks.History as NetHistory
use celium.Vault.Networks.Nics
use celium.Vault.Networks.Policies
use celium.Prelude.Map.{get}
use celium.Mesh.Host.Storage
use celium.Mesh.Host.Storage.{with_vault_state, attached, attach_checks, detached}
use celium.Mesh.Host.Networking
use celium.Mesh.Host.Networking.{with_nets_state, network_checks, nic_checks, balancer_checks}
use celium.Mesh.Capabilities.{contains, required}
use celium.Mesh.Operations.{VmOp, RestartPolicy}
use celium.Mesh.Operations
use celium.Mesh.Replies.{VmOpReply, HostResult, done, refused, HostResult-cases}
use celium.Mesh.Host.{
  MemVmHost, Slot, Slots, SlotState, created, running, halted, stopped, faulted, is_terminal,
  is_running, slot_at, set_slot, slot_mut, put_slot, first_free, place_vm, create_vm, started,
  start_vm, stopped_slot, stop_vm, delete_checks, delete_vm, max_slots,
}

-- What one operation can do to the state of a VM.
pub data Transition : Option SlotState → Option SlotState → Type 0 where
  stays : {s : Option SlotState} → Transition s s
  creates : Transition none (some created)
  starts : Transition (some created) (some halted)
  stops : {s : SlotState} → is_terminal s ≡ false → Transition (some s) (some stopped)
  deletes : {s : SlotState} → is_terminal s ≡ true → Transition (some s) none

pub slot_mut-done :
    (slots : Slots) (i : ℕ) (s : Slot) → slot_mut slots i ≡ done s → slot_at slots i ≡ some s
slot_mut-done slots i s e = elim (Bool-cases (leb max_slots i)) [
  | inl outside ↦ absurd (cc (rw (slot_mut, outside) at e))
  | inr inside ↦ elim (Option-cases (slot_at slots i)) [
    | inl missing ↦ absurd (cc (rw (slot_mut, inside, missing) at e))
    | inr (x, there) ↦
        let found : done x ≡ done s = rw (slot_mut, inside, there) at e in
        there ∙ ap some (cc found)
  ]
]

-- The host with another slot.
abbrev pub with_slot : MemVmHost → ℕ → Option Slot → MemVmHost
with_slot h i x = record h { slots = set_slot h.slots i x }

-- With the volume that the operation is to delete, where it is one that deletes.
pub data Effect (h : MemVmHost) (target : Option VolumeId) : MemVmHost → Type 0 where
  idle : Effect h target h
  vault_called :
      (c : History.Call)
      → is_deletion c ≡ false
      → Effect h target (with_vault_state h (History.step h.vault c))
  volume_deleted :
      (id : VolumeId)
      → target ≡ some id
      → attached id h.slots ≡ false
      → Effect h target (with_vault_state h (Volumes.delete h.vault id))
  nets_called :
      (c : NetHistory.Call) → Effect h target (with_nets_state h (NetHistory.step h.nets c))
  vm_created :
      (i : ℕ) (t : Slot)
      → slot_at h.slots i ≡ none
      → t.state ≡ created
      → t.volumes ≡ []
      → Effect h target (with_slot h i (some t))
  vm_changed :
      (i : ℕ) (s t : Slot)
      → slot_at h.slots i ≡ some s
      → Transition (some s.state) (some t.state)
      → t.volumes ≡ s.volumes
      → Effect h target (with_slot h i (some t))
  vm_deleted :
      (i : ℕ) (s : Slot)
      → slot_at h.slots i ≡ some s
      → is_terminal s.state ≡ true
      → Effect h target (with_slot h i none)
  volume_attached :
      (i : ℕ) (s t : Slot) (a : VolumeAttachment) (v : MemVolume)
      → slot_at h.slots i ≡ some s
      → t.state ≡ s.state
      → t.volumes ≡ s.volumes ++ a ∷ []
      → get h.vault.rows a.volume_id ≡ some v
      → Effect h target (with_slot h i (some t))
  volume_detached :
      (i : ℕ) (s t : Slot) (keep : VolumeAttachment → Bool)
      → slot_at h.slots i ≡ some s
      → t.state ≡ s.state
      → t.volumes ≡ retain keep s.volumes
      → Effect h target (with_slot h i (some t))

first_free-none :
    (slots : Slots) (i j : ℕ)
    → first_free i slots ≡ some j
    → (k : ℕ) × (j ≡ i + k) × (slot_at slots k ≡ none)
unfolding first_free slot_at
first_free-none [] i j e = absurd (cc e)
first_free-none (none ∷ ss) i j e = let same : i ≡ j = cc e in (0, omega (arith, same), refl)
first_free-none (some s ∷ ss) i j e =
    let (k, at, free) = first_free-none ss (suc i) j e in (suc k, omega (arith, at), free)

pub create_vm-Effect :
    (h : MemVmHost) (label : Bytes) (policy : RestartPolicy) (image : Option Bytes)
    (cpus memory crc : Option ℕ)
    → Effect h none (create_vm h label policy image cpus memory crc).0
unfolding create_vm
create_vm-Effect h label policy image cpus memory crc = elim (Bool-cases (ltb 32 (length label))) [
  | inl long ↦ rw (create_vm, long) idle
  | inr short ↦ elim (Option-cases (first_free 0 h.slots)) [
    | inl full ↦ rw (create_vm, short, full) idle
    | inr (j, there) ↦
        let (k, at, free) = first_free-none h.slots 0 j there in
        let same : k ≡ j = omega (arith, at) in
        rw (create_vm, short, there)
          (vm_created j _ (subst (λ i. slot_at h.slots i ≡ none) same free) refl refl)
  ]
]

only_created : (x : SlotState) → is_terminal x ≡ false → is_running x ≡ false → x ≡ created
only_created created e f = refl
only_created running e f = absurd (cc f)
only_created halted e f = absurd (cc e)
only_created stopped e f = absurd (cc e)
only_created faulted e f = absurd (cc e)

started-done :
    (slots : Slots) (i : ℕ) (t : Slot)
    → started slots i ≡ done t
    → (s : Slot) × (slot_at slots i ≡ some s)
      × (s.state ≡ created)
      × (record s { state = halted; last_exit = some 12 } ≡ t)
started-done slots i t e = elim (HostResult-cases (slot_mut slots i)) [
  | inr (x, bad) ↦ absurd (cc (rw (started, bad) at e))
  | inl (s, fine) ↦ elim (Bool-cases (is_terminal s.state)) [
    | inl over ↦ absurd (cc (rw (started, fine, over) at e))
    | inr live ↦ elim (Bool-cases (is_running s.state)) [
      | inl runs ↦ absurd (cc (rw (started, fine, live, runs) at e))
      | inr idle_state ↦
          let result : done (record s { state = halted; last_exit = some 12 }) ≡ done t =
            rw (started, fine, live, idle_state) at e in
          (s, slot_mut-done slots i s fine, only_created s.state live idle_state, cc result)
    ]
  ]
]

pub start_vm-Effect : (h : MemVmHost) (i : ℕ) → Effect h none (start_vm h i).0
unfolding start_vm
start_vm-Effect h i = elim (HostResult-cases (started h.slots i)) [
  | inr (x, bad) ↦ rw (start_vm, bad) idle
  | inl (t, fine) ↦
      let (s, there, fresh, same) = started-done h.slots i t fine in
      let after : t.state ≡ halted = ap (λ (x : Slot). x.state) (sym same) in
      rw (start_vm, fine)
        (vm_changed i s t there (rw (fresh, after) starts)
          (ap (λ (x : Slot). x.volumes) (sym same)))
]

pub stop_vm-Effect : (h : MemVmHost) (i : ℕ) → Effect h none (stop_vm h i).0
unfolding stop_vm
stop_vm-Effect h i = elim (HostResult-cases (slot_mut h.slots i)) [
  | inr (x, bad) ↦ rw (stop_vm, stopped_slot, bad) idle
  | inl (s, fine) ↦
      let there = slot_mut-done h.slots i s fine in
      elim (Bool-cases (is_terminal s.state)) [
        | inl over ↦ rw (stop_vm, stopped_slot, fine, over) (vm_changed i s s there stays refl)
        | inr live ↦
            rw (stop_vm, stopped_slot, fine, live)
              (vm_changed i s (record s { state = stopped }) there (stops live) refl)
      ]
]

pub delete_vm-Effect : (h : MemVmHost) (i : ℕ) → Effect h none (delete_vm h i).0
unfolding delete_vm
delete_vm-Effect h i = elim (HostResult-cases (slot_mut h.slots i)) [
  | inr (x, bad) ↦ rw (delete_vm, delete_checks, bad) idle
  | inl (s, fine) ↦ elim (Bool-cases (is_terminal s.state)) [
    | inr live ↦ rw (delete_vm, delete_checks, fine, live) idle
    | inl over ↦
        rw (delete_vm, delete_checks, fine, over)
          (vm_deleted i s (slot_mut-done h.slots i s fine) over)
  ]
]
