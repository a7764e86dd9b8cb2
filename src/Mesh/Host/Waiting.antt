-- ===== src/Mesh/Host/Waiting.antt =====
-- The threads of the host in crates/celmesh/src/host.rs that stand between the two parts of an
-- operation, past a part of another thread.
pub mod Parts
use celium.Prelude.{
  ℕ, ◌⊎◌, ap, subst, sym, ◌∙◌, any, All, Bool, true, false, not, ◌++◌, inl, inr, Bool-cases,
  Option-cases, ltb, if◌then◌else◌, ◌&&◌, ◌||◌, zero, suc, ◌+◌, ◌≤◌, ◌<◌, ◌≡◌, refl, Option, none,
  some, List, [], ◌∷◌, arith, length,
}
use celium.Prelude.Key.{Bytes, bytes_key, bytes_eq, bytes_eq_iff}
use celium.Prelude.Map.{get-empty}
use celium.Prelude.Words.{u32_max}
use celium.Vault.Volumes
use celium.Vault.Volumes.Invariant as VolumeInvariant
use celium.Vault.Networks
use celium.Vault.Networks.Invariant as NetInvariant
use celium.Mesh.Operations.{VmOp}
use celium.Mesh.Membership.{NodeId}
use celium.Mesh.Capabilities.{Capabilities}
use celium.Mesh.Host.{
  MemVmHost, slot_at, new, with_vault, with_stores, with_caps, remember_owner, current_rows,
  attach_preserved, Slot, slot_mut, set_slot,
}
use celium.Mesh.Host.Invariant.{
  IsWellFormed, Stored, Stored-mono, Stored-more, Stored-remove, Stored-lose, AllStored,
  AllStored-append, AllStored-more, set_slot-stored, IsWellFormed-more, delete-lose,
}
use celium.Mesh.Host.Invariant.Preserved.{
  IsCounted, IsCounted-later, Effect-IsCounted, Effect-IsWellFormed,
}
use celium.Mesh.Host.Effects.{
  Effect, idle, vault_called, volume_deleted, nets_called, vm_created, vm_changed, vm_deleted,
  volume_attached, volume_detached, slot_mut-done,
}
use celium.Mesh.Host.Effects.Stores.{apply-Effect, deletion_of, get_meta-row}
use celium.Mesh.Host.Apply.{apply}
use celium.Mesh.Host.Sections.{
  Section, deleting, attaching, attaching_nic, Threads, Call, operation, snapshot, reattached,
  began, ended, is_attaching, taken, unknown, lost_by, lost_at_end, end_taken, joined_by, begin,
  first_part, finish, step, run, start, volume_section, nic_section,
}
use celium.Mesh.Replies.{HostResult, done, refused, HostResult-cases}
use celium.Mesh.Host.Storage.{attached, attach_known, attach_slot, is_attachment_of}
use celium.Vault.Attachments.{VolumeAttachment}
use celium.Vault.Volumes.{VolumeId, MemVolume, get_meta}
use celium.Vault.Volumes.History as VolumeHistory
use celium.Vault.Volumes.Persistence.{step-Keeps}
use celium.Vault.Networks.History as NetHistory
use celium.Prelude.Map.{Map, get, remove}

pub some_inj {ℓ} : {A : Type ℓ} {a b : A} → some a ≡ some b → a ≡ b
some_inj e = cc

-- A thread that is about to attach has a volume that is there, or lost.
abbrev pub Fits : Map VolumeId MemVolume → List VolumeId → Section → Type 0
Fits rows lost (attaching vm_id id mount_name) = Stored rows lost id
Fits rows lost _ = Unit

pub record IsSound (m : Threads) (k : ℕ) : Type 0 where
  pub good : IsWellFormed m.host m.lost
  pub counted : IsCounted m.host.vault m.host.nets k
  pub waiting : All (Fits m.host.vault.rows m.lost) m.pending

pub Fits-mono :
    (rows new_rows : Map VolumeId MemVolume) (more lost : List VolumeId) (xs : List Section)
    → ((id : VolumeId) → Stored rows lost id → Stored new_rows lost id)
    → All (Fits rows lost) xs
    → All (Fits new_rows (more ++ lost)) xs
Fits-mono rows new_rows more lost [] f h = tt
Fits-mono rows new_rows more lost (attaching vm_id id mount_name ∷ xs) f h =
    (Stored-more new_rows more lost id (f id h.0), Fits-mono rows new_rows more lost xs f h.1)
Fits-mono rows new_rows more lost (deleting id ∷ xs) f h =
    (tt, Fits-mono rows new_rows more lost xs f h.1)
Fits-mono rows new_rows more lost (attaching_nic id vm_id ip ∷ xs) f h =
    (tt, Fits-mono rows new_rows more lost xs f h.1)

pub Fits-lose :
    (rows : Map VolumeId MemVolume) (lost : List VolumeId) (gone : VolumeId) (xs : List Section)
    → All (Fits rows lost) xs
    → All (Fits (remove gone rows) (gone ∷ lost)) xs
Fits-lose rows lost gone [] h = tt
Fits-lose rows lost gone (attaching vm_id id mount_name ∷ xs) h =
    (Stored-lose rows lost gone id h.0, Fits-lose rows lost gone xs h.1)
Fits-lose rows lost gone (deleting id ∷ xs) h = (tt, Fits-lose rows lost gone xs h.1)
Fits-lose rows lost gone (attaching_nic id vm_id ip ∷ xs) h = (tt, Fits-lose rows lost gone xs h.1)

-- Nobody is about to attach the volume that is taken out.
pub Fits-remove :
    (rows : Map VolumeId MemVolume) (lost : List VolumeId) (gone : VolumeId) (xs : List Section)
    → any (is_attaching gone) xs ≡ false
    → All (Fits rows lost) xs
    → All (Fits (remove gone rows) lost) xs
Fits-remove rows lost gone [] e h = tt
Fits-remove rows lost gone (attaching vm_id id mount_name ∷ xs) e h = (
  Stored-remove rows lost gone id (ground (arith, e)) h.0,
  Fits-remove rows lost gone xs (ground (arith, e)) h.1,
)
Fits-remove rows lost gone (deleting id ∷ xs) e h = (tt, Fits-remove rows lost gone xs e h.1)
Fits-remove rows lost gone (attaching_nic id vm_id ip ∷ xs) e h =
    (tt, Fits-remove rows lost gone xs e h.1)

pub taken-All {ℓ} :
    (P : Section → Type ℓ) (i : ℕ) (xs others : List Section) (x : Section)
    → taken i xs ≡ some (x, others)
    → All P xs
    → P x × All P others
unfolding taken
taken-All P i [] others x e h = absurd (cc e)
taken-All P zero (y ∷ ys) others x e h =
    let same : (y, ys) ≡ (x, others) = some_inj e in
    (subst P (ap (λ p. p.0) same) h.0, subst (All P) (ap (λ p. p.1) same) h.1)
taken-All P (suc i) (y ∷ ys) others x e h = elim (Option-cases (taken i ys)) [
  | inl missing ↦ absurd (cc (rw (taken, missing) at e))
  | inr ((z, rest), there) ↦
      let same : (z, y ∷ rest) ≡ (x, others) = some_inj (rw (taken, there) at e) in
      let (here, more) = taken-All P i ys rest z there h.1 in
      (subst P (ap (λ p. p.0) same) here, subst (All P) (ap (λ p. p.1) same) (h.0, more))
]

lost_by-more :
    (m : Threads) (target : Option VolumeId)
    → (more : List VolumeId) × (lost_by m target ≡ more ++ m.lost)
lost_by-more m none = ([], refl)
lost_by-more m (some id) =
    elim (Bool-cases (not (attached id m.host.slots) && any (is_attaching id) m.pending)) [
      | inl raced ↦ (id ∷ [], rw raced refl)
      | inr calm ↦ ([], rw calm refl)
    ]

Fits-later :
    (m : Threads) (rows : Map VolumeId MemVolume) (target : Option VolumeId)
    → ((id : VolumeId) → Stored m.host.vault.rows m.lost id → Stored rows m.lost id)
    → All (Fits m.host.vault.rows m.lost) m.pending
    → All (Fits rows (lost_by m target)) m.pending
Fits-later m rows target f h =
    let (more, same) = lost_by-more m target in
    rw same (Fits-mono m.host.vault.rows rows more m.lost m.pending f h)

Fits-deleted :
    (m : Threads) (target : Option VolumeId) (id : VolumeId)
    → target ≡ some id
    → attached id m.host.slots ≡ false
    → All (Fits m.host.vault.rows m.lost) m.pending
    → All (Fits (remove id m.host.vault.rows) (lost_by m target)) m.pending
Fits-deleted m target id named free h = elim (Bool-cases (any (is_attaching id) m.pending)) [
  | inl raced ↦ rw (named, free, raced) (Fits-lose m.host.vault.rows m.lost id m.pending h)
  | inr calm ↦ rw (named, free, calm) (Fits-remove m.host.vault.rows m.lost id m.pending calm h)
]

-- The threads that wait, past an operation that runs without an interruption.
Effect-Fits :
    (m : Threads) (g : MemVmHost) (target : Option VolumeId)
    → Effect m.host target g
    → All (Fits m.host.vault.rows m.lost) m.pending
    → All (Fits g.vault.rows (lost_by m target)) m.pending
unfolding Volumes.delete
Effect-Fits m _ target idle h = Fits-later m m.host.vault.rows target (λ id k. k) h
Effect-Fits m _ target (vault_called call e) h =
    Fits-later m (VolumeHistory.step m.host.vault call).rows target
      (λ id.
        Stored-mono m.host.vault.rows (VolumeHistory.step m.host.vault call).rows m.lost id
          (step-Keeps m.host.vault call e))
      h
Effect-Fits m _ target (volume_deleted id named free) h = Fits-deleted m target id named free h
Effect-Fits m _ target (nets_called call) h = Fits-later m m.host.vault.rows target (λ id k. k) h
Effect-Fits m _ target (vm_created i t free fresh blank) h =
    Fits-later m m.host.vault.rows target (λ id k. k) h
Effect-Fits m _ target (vm_changed i s t there change same) h =
    Fits-later m m.host.vault.rows target (λ id k. k) h
Effect-Fits m _ target (vm_deleted i s there over) h =
    Fits-later m m.host.vault.rows target (λ id k. k) h
Effect-Fits m _ target (volume_attached i s t a v there same more known) h =
    Fits-later m m.host.vault.rows target (λ id k. k) h
Effect-Fits m _ target (volume_detached i s t keep there same fewer) h =
    Fits-later m m.host.vault.rows target (λ id k. k) h

pub operation-IsSound :
    (m : Threads) (k : ℕ) (op : VmOp)
    → k < u32_max
    → IsSound m k
    → IsSound (step m (operation op)) (suc k)
unfolding step
operation-IsSound m k op room p =
    let e = apply-Effect m.host op in
    let g = (apply m.host op).0 in
    let (more, same) = lost_by-more m (deletion_of op) in
    record {
      good = subst (IsWellFormed g) (sym same) (
          IsWellFormed-more g more m.lost
            (Effect-IsWellFormed m.host g (deletion_of op) m.lost k room p.counted p.good e));
      counted = Effect-IsCounted m.host g (deletion_of op) k room p.counted e;
      waiting = Effect-Fits m g (deletion_of op) e p.waiting;
    }
