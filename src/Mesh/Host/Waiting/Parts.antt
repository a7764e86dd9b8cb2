-- ===== src/Mesh/Host/Waiting/Parts.antt =====
-- The attachments that the supervisor gives back, and the second parts of the operations, on the host of
-- crates/celmesh/src/host.rs with its waiting threads.
use celium.Prelude.{
  ℕ, ◌⊎◌, subst, sym, any, All, Bool, false, ◌++◌, inl, inr, Bool-cases, Option-cases, ◌||◌, suc,
  ◌<◌, ◌≡◌, refl, none, some, List, [], ◌∷◌, arith,
}
use celium.Prelude.Key.{Bytes, bytes_key, bytes_eq_iff}
use celium.Prelude.Words.{u32_max}
use celium.Vault.Volumes
use celium.Mesh.Host.{MemVmHost, attach_preserved, slot_mut}
use celium.Mesh.Host.Invariant.{
  IsWellFormed, Stored, AllStored, AllStored-append, AllStored-more, set_slot-stored,
  IsWellFormed-more, delete-lose,
}
use celium.Mesh.Host.Invariant.Preserved.{
  IsCounted, IsCounted-later, Effect-IsCounted, Effect-IsWellFormed,
}
use celium.Mesh.Host.Effects.{Effect, volume_deleted, nets_called, slot_mut-done}
use celium.Mesh.Host.Effects.Stores.{get_meta-row}
use celium.Mesh.Host.Sections.{
  Section, deleting, attaching, attaching_nic, Threads, reattached, is_attaching, unknown,
  end_taken, finish, step,
}
use celium.Mesh.Replies.{HostResult-cases}
use celium.Mesh.Host.Storage.{attached, attach_slot, is_attachment_of}
use celium.Vault.Attachments.{VolumeAttachment}
use celium.Vault.Volumes.{VolumeId, MemVolume, get_meta}
use celium.Vault.Networks.History as NetHistory
use celium.Mesh.Host.Waiting.{Fits, Fits-mono, Fits-lose, Fits-remove, IsSound}

unknown_next :
    (vault : Volumes.MemInner) (a : VolumeAttachment) (l : List VolumeAttachment)
    → (unknown vault (a ∷ l) ≡ a.volume_id ∷ unknown vault l)
      ⊎ (((m : Volumes.VolumeMeta) × (get_meta vault a.volume_id ≡ some m))
          × (unknown vault (a ∷ l) ≡ unknown vault l))
unfolding unknown
unknown_next vault a l = elim (Option-cases (get_meta vault a.volume_id)) [
  | inl missing ↦ inl (rw (unknown, missing) refl)
  | inr (m, known) ↦ inr ((m, known), rw (unknown, known) refl)
]

unknown-AllStored :
    (vault : Volumes.MemInner) (lost : List VolumeId) (l : List VolumeAttachment)
    → AllStored vault.rows (unknown vault l ++ lost) l
unknown-AllStored vault lost [] = tt
unknown-AllStored vault lost (a ∷ l) =
    let rest = unknown-AllStored vault lost l in
    elim (unknown_next vault a l) [
      | inl same ↦
          subst (λ u. AllStored vault.rows (u ++ lost) (a ∷ l)) (sym same)
            (
              inl (ground (arith, bytes_eq_iff a.volume_id a.volume_id)),
              AllStored-more vault.rows (a.volume_id ∷ []) (unknown vault l ++ lost) l rest,
            )
      | inr ((m, known), same) ↦
          subst (λ u. AllStored vault.rows (u ++ lost) (a ∷ l)) (sym same)
            (inr (get_meta-row vault a.volume_id m known), rest)
    ]

pub reattached-IsSound :
    (m : Threads) (k : ℕ) (vm_id : ℕ) (l : List VolumeAttachment)
    → IsSound m k
    → IsSound (step m (reattached vm_id l)) (suc k)
unfolding step attach_preserved
reattached-IsSound m k vm_id l p =
    let more = unknown m.host.vault l in
    let good = IsWellFormed-more m.host more m.lost p.good in
    let counted = IsCounted-later m.host.vault m.host.nets k p.counted in
    let waiting =
      Fits-mono m.host.vault.rows m.host.vault.rows more m.lost m.pending (λ id s. s) p.waiting in
    elim (HostResult-cases (slot_mut m.host.slots vm_id)) [
      | inr (x, bad) ↦
          rw (attach_preserved, bad) (record { good = good; counted = counted; waiting = waiting })
      | inl (s, fine) ↦
          rw (attach_preserved, fine)
            (record {
              good =
                  set_slot-stored m.host (more ++ m.lost) vm_id (record s { volumes = l }) good
                    (unknown-AllStored m.host.vault m.lost l);
              counted = counted;
              waiting = waiting;
            })
    ]

attached_now :
    (h : MemVmHost) (lost : List VolumeId) (vm_id : ℕ) (id : VolumeId) (mount_name : Bytes)
    → IsWellFormed h lost
    → Stored h.vault.rows lost id
    → IsWellFormed (finish h (attaching vm_id id mount_name)) lost
      × ((finish h (attaching vm_id id mount_name)).vault ≡ h.vault)
      × ((finish h (attaching vm_id id mount_name)).nets ≡ h.nets)
unfolding finish
attached_now h lost vm_id id mount_name good there =
    elim (HostResult-cases (slot_mut h.slots vm_id)) [
      | inr (x, bad) ↦ rw (finish, attach_slot, bad) (good, refl, refl)
      | inl (s, fine) ↦ elim (Bool-cases (any (is_attachment_of id) s.volumes)) [
        | inl twice ↦ rw (finish, attach_slot, fine, twice) (good, refl, refl)
        | inr once ↦
            let a : VolumeAttachment = record { volume_id = id; mount_name = mount_name } in
            rw (finish, attach_slot, fine, once)
              (
                set_slot-stored h lost vm_id (record s { volumes = s.volumes ++ a ∷ [] }) good
                    (AllStored-append h.vault.rows lost s.volumes a
                      (good.stored vm_id s (slot_mut-done h.slots vm_id s fine)) there),
                refl,
                refl,
              )
      ]
    ]

left_false : (a b : Bool) → (a || b) ≡ false → a ≡ false
left_false a b e = ground (arith, e)

right_false : (a b : Bool) → (a || b) ≡ false → b ≡ false
right_false a b e = ground (arith, e)

deleted-IsCounted :
    (h : MemVmHost) (id : VolumeId) (k : ℕ)
    → IsCounted h.vault h.nets k
    → IsCounted (Volumes.delete h.vault id) h.nets (suc k)
unfolding Volumes.delete
deleted-IsCounted h id k c = record {
  next = omega (arith, c.next);
  counters = NetHistory.Counts-later h.nets k c.counters;
}

-- The second part of a thread that waits.
pub end-IsSound :
    (m : Threads) (k : ℕ) (x : Section) (others : List Section)
    → k < u32_max
    → IsSound m k
    → Fits m.host.vault.rows m.lost x
    → All (Fits m.host.vault.rows m.lost) others
    → IsSound (end_taken m (some (x, others))) (suc k)
unfolding finish Volumes.delete NetHistory.step
end-IsSound m k (attaching vm_id id mount_name) others room p fits rest =
    let (good, vault, nets) = attached_now m.host m.lost vm_id id mount_name p.good fits in
    record {
      good = good;
      counted = rw (vault, nets) (IsCounted-later m.host.vault m.host.nets k p.counted);
      waiting = rw vault rest;
    }
end-IsSound m k (attaching_nic id vm_id ip) others room p fits rest =
    let e : Effect m.host none (finish m.host (attaching_nic id vm_id ip)) =
      nets_called (NetHistory.attaches id vm_id ip) in
    record {
      good = Effect-IsWellFormed m.host _ none m.lost k room p.counted p.good e;
      counted = Effect-IsCounted m.host _ none k room p.counted e;
      waiting = rest;
    }
end-IsSound m k (deleting id) others room p fits rest =
    elim (Bool-cases (attached id m.host.slots || any (is_attaching id) others)) [
      | inl raced ↦ rw raced (record {
        good = delete-lose m.host m.lost id p.good;
        counted = deleted-IsCounted m.host id k p.counted;
        waiting = Fits-lose m.host.vault.rows m.lost id others rest;
      })
      | inr calm ↦
          let e : Effect m.host (some id) (finish m.host (deleting id)) =
            volume_deleted id refl (left_false _ _ calm) in
          rw calm (record {
            good = Effect-IsWellFormed m.host _ (some id) m.lost k room p.counted p.good e;
            counted = deleted-IsCounted m.host id k p.counted;
            waiting = Fits-remove m.host.vault.rows m.lost id others (right_false _ _ calm) rest;
          })
    ]
