-- ===== src/Mesh/Host/Lifecycle.antt =====
-- The life of a VM of the host in crates/celmesh/src/host.rs.
use celium.Prelude.{ℕ, zero, suc, ◌≡◌, sym, subst, Option, none, some, [], ◌∷◌}
use celium.Mesh.Operations.{VmOp}
use celium.Mesh.Host.{MemVmHost, Slot, Slots, SlotState, slot_at, set_slot}
use celium.Mesh.Host.Apply.{apply}
use celium.Vault.Volumes.{VolumeId}
use celium.Mesh.Host.Effects.{
  Transition, stays, creates, deletes, Effect, idle, vault_called, volume_deleted, nets_called,
  vm_created, vm_changed, vm_deleted, volume_attached, volume_detached,
}
use celium.Mesh.Host.Effects.Stores.{apply-Effect, deletion_of}

-- The state of the VM in a slot.
abbrev pub state_of : Option Slot → Option SlotState
state_of none = none
state_of (some s) = some s.state

abbrev pub state_at : Slots → ℕ → Option SlotState
state_at slots i = state_of (slot_at slots i)

-- Only the slot that is set can change.
set_slot-Transition :
    (slots : Slots) (i : ℕ) (x : Option Slot)
    → Transition (state_at slots i) (state_of x)
    → (j : ℕ) → Transition (state_at slots j) (state_at (set_slot slots i x) j)
unfolding slot_at set_slot
set_slot-Transition [] i x t j = stays
set_slot-Transition (s ∷ ss) zero x t zero = t
set_slot-Transition (s ∷ ss) zero x t (suc j) = stays
set_slot-Transition (s ∷ ss) (suc i) x t zero = stays
set_slot-Transition (s ∷ ss) (suc i) x t (suc j) = set_slot-Transition ss i x t j

-- A slot that is replaced keeps to the life of a VM, and the other slots stay.
replace-Transition :
    (slots : Slots) (i : ℕ) (x y : Option Slot)
    → slot_at slots i ≡ x
    → Transition (state_of x) (state_of y)
    → (j : ℕ) → Transition (state_at slots j) (state_at (set_slot slots i y) j)
replace-Transition slots i x y there t =
    set_slot-Transition slots i y (subst (λ z. Transition (state_of z) (state_of y)) (sym there) t)

Effect-Transition :
    (h g : MemVmHost) (target : Option VolumeId)
    → Effect h target g
    → (j : ℕ) → Transition (state_at h.slots j) (state_at g.slots j)
Effect-Transition h _ target idle j = stays
Effect-Transition h _ target (vault_called c e) j = stays
Effect-Transition h _ target (volume_deleted id same e) j = stays
Effect-Transition h _ target (nets_called c) j = stays
Effect-Transition h _ target (vm_created i t free fresh blank) j =
    replace-Transition h.slots i none (some t) free (rw fresh creates) j
Effect-Transition h _ target (vm_changed i s t there change same) j =
    replace-Transition h.slots i (some s) (some t) there change j
Effect-Transition h _ target (vm_deleted i s there over) j =
    replace-Transition h.slots i (some s) none there (deletes over) j
Effect-Transition h _ target (volume_attached i s t a v there same more known) j =
    replace-Transition h.slots i (some s) (some t) there (rw same stays) j
Effect-Transition h _ target (volume_detached i s t keep there same fewer) j =
    replace-Transition h.slots i (some s) (some t) there (rw same stays) j

-- Whatever operation a host applies, the state of each slot stays or makes one step of a VM's
-- life: a free slot gets a created VM, a created one is started and is then halted, one that is
-- not terminal is stopped, and one that is terminal is deleted.
pub apply-Transition :
    (h : MemVmHost) (op : VmOp) (i : ℕ)
    → Transition (state_at h.slots i) (state_at (apply h op).0.slots i)
apply-Transition h op i = Effect-Transition h (apply h op).0 (deletion_of op) (apply-Effect h op) i
