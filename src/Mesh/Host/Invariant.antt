-- ===== src/Mesh/Host/Invariant.antt =====
-- The well-formed states of the host in crates/celmesh/src/host.rs: its stores are well-formed, and
-- the attachments of its VMs are of volumes that the vault has, but for a list of lost volumes.
pub mod Preserved
use celium.Prelude.{
  ℕ, zero, suc, ◌≤◌, ◌<◌, ◌≡◌, ◌⊎◌, ◌∙◌, subst, Bool, true, false, Option, none, some, List, [],
  ◌∷◌, ◌++◌, arith, inl, inr, Bool-cases, All, any, retain,
}
use celium.Prelude.Key.{bytes_eq, bytes_eq_iff, bytes_key}
use celium.Prelude.Map.{Map, get, remove}
use celium.Prelude.Map.Cases.{get-remove_other}
use celium.Prelude.Words.{u32_max}
use celium.Vault.Attachments.{VolumeAttachment}
use celium.Vault.Volumes
use celium.Vault.Volumes.{VolumeId, MemVolume}
use celium.Vault.Volumes.Invariant as VolumeInvariant
use celium.Vault.Volumes.Invariant.Deletion.{delete-IsWellFormed}
use celium.Vault.Volumes.History as VolumeHistory
use celium.Vault.Volumes.Persistence.{Keeps, step-Keeps}
use celium.Vault.Networks
use celium.Vault.Networks.Invariant as NetInvariant
use celium.Vault.Networks.History as NetHistory
use celium.Mesh.Host.{MemVmHost, Slot, Slots, slot_at, set_slot}
use celium.Mesh.Host.Storage.{attached, is_attachment_of}
use celium.Mesh.Host.Effects.{
  Effect, idle, vault_called, volume_deleted, nets_called, vm_created, vm_changed, vm_deleted,
  volume_attached, volume_detached,
}

-- The volume is there, or it is one of those that are lost.
abbrev pub is_lost : List VolumeId → VolumeId → Bool
is_lost lost id = any (bytes_eq id) lost

abbrev pub Stored : Map VolumeId MemVolume → List VolumeId → VolumeId → Type 0
Stored rows lost id = (is_lost lost id ≡ true) ⊎ ((v : MemVolume) × (get rows id ≡ some v))

-- So is the volume of each attachment.
abbrev pub AllStored : Map VolumeId MemVolume → List VolumeId → List VolumeAttachment → Type 0
AllStored rows lost l = All (λ a. Stored rows lost a.volume_id) l

pub record IsWellFormed (h : MemVmHost) (lost : List VolumeId) : Type 0 where
  pub volumes : VolumeInvariant.IsWellFormed h.vault
  pub networks : NetInvariant.IsWellFormed h.nets
  pub stored :
      (i : ℕ) (s : Slot) → slot_at h.slots i ≡ some s → AllStored h.vault.rows lost s.volumes

pub Stored-mono :
    (m n : Map VolumeId MemVolume) (lost : List VolumeId) (id : VolumeId)
    → Keeps m n
    → Stored m lost id
    → Stored n lost id
Stored-mono m n lost id keeps (inl gone) = inl gone
Stored-mono m n lost id keeps (inr (v, there)) = inr (keeps id v there)

pub AllStored-mono :
    (m n : Map VolumeId MemVolume) (lost : List VolumeId) (l : List VolumeAttachment)
    → Keeps m n
    → AllStored m lost l
    → AllStored n lost l
AllStored-mono m n lost [] keeps h = tt
AllStored-mono m n lost (a ∷ l) keeps h =
    (Stored-mono m n lost a.volume_id keeps h.0, AllStored-mono m n lost l keeps h.1)

pub AllStored-append :
    (m : Map VolumeId MemVolume) (lost : List VolumeId) (l : List VolumeAttachment)
    (a : VolumeAttachment)
    → AllStored m lost l
    → Stored m lost a.volume_id
    → AllStored m lost (l ++ a ∷ [])
AllStored-append m lost [] a h there = (there, tt)
AllStored-append m lost (b ∷ l) a h there = (h.0, AllStored-append m lost l a h.1 there)

pub AllStored-retain :
    (m : Map VolumeId MemVolume) (lost : List VolumeId) (keep : VolumeAttachment → Bool)
    (l : List VolumeAttachment)
    → AllStored m lost l
    → AllStored m lost (retain keep l)
AllStored-retain m lost keep [] h = tt
AllStored-retain m lost keep (a ∷ l) h = elim (Bool-cases (keep a)) [
  | inl yes_keep ↦ rw yes_keep (h.0, AllStored-retain m lost keep l h.1)
  | inr no_keep ↦ rw no_keep (AllStored-retain m lost keep l h.1)
]

-- The volumes but the one that is taken out are stored as before.
pub Stored-remove :
    (m : Map VolumeId MemVolume) (lost : List VolumeId) (gone id : VolumeId)
    → bytes_eq gone id ≡ false
    → Stored m lost id
    → Stored (remove gone m) lost id
Stored-remove m lost gone id apart (inl e) = inl e
Stored-remove m lost gone id apart (inr (v, there)) =
    inr (v, get-remove_other gone id m apart ∙ there)

pub AllStored-remove :
    (m : Map VolumeId MemVolume) (lost : List VolumeId) (id : VolumeId) (l : List VolumeAttachment)
    → any (is_attachment_of id) l ≡ false
    → AllStored m lost l
    → AllStored (remove id m) lost l
AllStored-remove m lost id [] e h = tt
AllStored-remove m lost id (a ∷ l) e h =
    let apart : bytes_eq id a.volume_id ≡ false =
      ground (arith, e, bytes_eq_iff id a.volume_id, bytes_eq_iff a.volume_id id) in
    let rest : any (is_attachment_of id) l ≡ false = ground (arith, e) in
    (Stored-remove m lost id a.volume_id apart h.0, AllStored-remove m lost id l rest h.1)

-- A longer list of lost volumes.
pub any-more {ℓ} :
    {A : Type ℓ} (p : A → Bool) (xs ys : List A) → any p ys ≡ true → any p (xs ++ ys) ≡ true
any-more p [] ys h = h
any-more p (x ∷ xs) ys h = let ih = any-more p xs ys h in ground (arith, ih)

pub Stored-more :
    (m : Map VolumeId MemVolume) (more lost : List VolumeId) (id : VolumeId)
    → Stored m lost id
    → Stored m (more ++ lost) id
Stored-more m more lost id (inl e) = inl (any-more (bytes_eq id) more lost e)
Stored-more m more lost id (inr there) = inr there

pub AllStored-more :
    (m : Map VolumeId MemVolume) (more lost : List VolumeId) (l : List VolumeAttachment)
    → AllStored m lost l
    → AllStored m (more ++ lost) l
AllStored-more m more lost [] h = tt
AllStored-more m more lost (a ∷ l) h =
    (Stored-more m more lost a.volume_id h.0, AllStored-more m more lost l h.1)

pub IsWellFormed-more :
    (h : MemVmHost) (more lost : List VolumeId)
    → IsWellFormed h lost
    → IsWellFormed h (more ++ lost)
IsWellFormed-more h more lost good = record {
  volumes = good.volumes;
  networks = good.networks;
  stored = λ i s there. AllStored-more h.vault.rows more lost s.volumes (good.stored i s there);
}

-- A volume that is lost may be taken out.
pub Stored-lose :
    (m : Map VolumeId MemVolume) (lost : List VolumeId) (gone id : VolumeId)
    → Stored m lost id
    → Stored (remove gone m) (gone ∷ lost) id
Stored-lose m lost gone id h = elim (Bool-cases (bytes_eq gone id)) [
  | inl same ↦ inl (ground (arith, bytes_eq_iff gone id, bytes_eq_iff id gone, same))
  | inr apart ↦
      Stored-more (remove gone m) (gone ∷ []) lost id (Stored-remove m lost gone id apart h)
]

AllStored-lose :
    (m : Map VolumeId MemVolume) (lost : List VolumeId) (gone : VolumeId)
    (l : List VolumeAttachment)
    → AllStored m lost l
    → AllStored (remove gone m) (gone ∷ lost) l
AllStored-lose m lost gone [] h = tt
AllStored-lose m lost gone (a ∷ l) h =
    (Stored-lose m lost gone a.volume_id h.0, AllStored-lose m lost gone l h.1)

pub delete-lose :
    (h : MemVmHost) (lost : List VolumeId) (id : VolumeId)
    → IsWellFormed h lost
    → IsWellFormed (record h { vault = Volumes.delete h.vault id }) (id ∷ lost)
unfolding Volumes.delete
delete-lose h lost id good = record {
  volumes = delete-IsWellFormed h.vault id good.volumes;
  networks = good.networks;
  stored = λ i s there. AllStored-lose h.vault.rows lost id s.volumes (good.stored i s there);
}

pub attached-slot :
    (id : VolumeId) (slots : Slots) (i : ℕ) (s : Slot)
    → attached id slots ≡ false
    → slot_at slots i ≡ some s
    → any (is_attachment_of id) s.volumes ≡ false
unfolding attached slot_at
attached-slot id [] i s e there = absurd (cc there)
attached-slot id (none ∷ ss) zero s e there = absurd (cc there)
attached-slot id (none ∷ ss) (suc i) s e there = attached-slot id ss i s e there
attached-slot id (some t ∷ ss) zero s e there =
    let same : t ≡ s = cc there in
    let here : any (is_attachment_of id) t.volumes ≡ false = ground (arith, e) in
    subst (λ (x : Slot). any (is_attachment_of id) x.volumes ≡ false) same here
attached-slot id (some t ∷ ss) (suc i) s e there = attached-slot id ss i s (ground (arith, e)) there

-- What is found in changed slots is the new one, or was there.
pub set_slot-cases :
    (slots : Slots) (i : ℕ) (x : Option Slot) (j : ℕ) (s : Slot)
    → slot_at (set_slot slots i x) j ≡ some s
    → (x ≡ some s) ⊎ (slot_at slots j ≡ some s)
unfolding slot_at set_slot
set_slot-cases [] i x j s e = inr e
set_slot-cases (t ∷ ss) zero x zero s e = inl e
set_slot-cases (t ∷ ss) zero x (suc j) s e = inr e
set_slot-cases (t ∷ ss) (suc i) x zero s e = inr e
set_slot-cases (t ∷ ss) (suc i) x (suc j) s e = set_slot-cases ss i x j s e

pub set_slot-stored :
    (h : MemVmHost) (lost : List VolumeId) (i : ℕ) (t : Slot)
    → IsWellFormed h lost
    → AllStored h.vault.rows lost t.volumes
    → IsWellFormed (record h { slots = set_slot h.slots i (some t) }) lost
set_slot-stored h lost i t good fine = record {
  volumes = good.volumes;
  networks = good.networks;
  stored = λ j s e. elim (set_slot-cases h.slots i (some t) j s e) [
    | inl new_one ↦
        let same : t ≡ s = cc new_one in
        subst (λ (x : Slot). AllStored h.vault.rows lost x.volumes) same fine
    | inr old ↦ good.stored j s old
  ];
}
