-- ===== src/Mesh/Host/History.antt =====
-- The threads of the host in crates/celmesh/src/host.rs: the parts of their operations in any order,
-- the snapshots of its VMs that the mesh takes, and the attachments that the supervisor gives back.
use celium.Prelude.{
  ℕ, subst, inl, inr, Bool-cases, Option-cases, ltb, if◌then◌else◌, zero, suc, ◌+◌, ◌≤◌, ◌<◌, ◌≡◌,
  refl, Option, none, some, List, [], ◌∷◌, arith, length,
}
use celium.Prelude.Key.{Bytes, bytes_key}
use celium.Prelude.Map.{get-empty}
use celium.Prelude.Words.{u32_max}
use celium.Vault.Volumes
use celium.Vault.Volumes.Invariant as VolumeInvariant
use celium.Vault.Networks
use celium.Vault.Networks.Invariant as NetInvariant
use celium.Mesh.Operations.{VmOp}
use celium.Mesh.Membership.{NodeId}
use celium.Mesh.Capabilities.{Capabilities}
use celium.Mesh.Host.{
  MemVmHost, slot_at, new, with_vault, with_stores, with_caps, remember_owner, current_rows,
}
use celium.Mesh.Host.Invariant.{IsWellFormed}
use celium.Mesh.Host.Invariant.Preserved.{IsCounted-later}
use celium.Mesh.Host.Effects.Stores.{get_meta-row}
use celium.Mesh.Host.Sections.{
  Section, deleting, Threads, Call, operation, snapshot, reattached, began, ended, taken, begin,
  first_part, step, run, start, volume_section, nic_section,
}
use celium.Mesh.Replies.{HostResult-cases}
use celium.Mesh.Host.Storage.{attached, attach_known}
use celium.Vault.Volumes.{VolumeId, MemVolume, get_meta}
use celium.Mesh.Host.Waiting.{Fits, IsSound, taken-All, operation-IsSound, some_inj}
use celium.Mesh.Host.Waiting.Parts.{reattached-IsSound, end-IsSound}
use celium.Vault.Attachments.{max_mount}
use celium.Vault.Network.{NetworkId}
use celium.Mesh.Capabilities.{contains, required}
use celium.Mesh.Operations
use celium.Mesh.Host.Networking.{nic_checks}

-- Nothing but the owner changes.
with_owner-IsWellFormed :
    (h : MemVmHost) (lost : List VolumeId) (owner : Option NodeId)
    → IsWellFormed h lost
    → IsWellFormed (record h { owner = owner }) lost
with_owner-IsWellFormed h lost owner good = record {
  volumes = good.volumes;
  networks = good.networks;
  stored = good.stored;
}

remember_by :
    (h : MemVmHost) (node : NodeId)
    → (owner : Option NodeId) × (remember_owner h node ≡ record h { owner = owner })
unfolding remember_owner
remember_by h node = pick_owner h.owner
  where
    pick_owner :
        (o : Option NodeId)
        → (owner : Option NodeId) × ((elim o as (λ _. MemVmHost) [
          | none ↦ record h { owner = some node }
          | some _ ↦ h
        ])
            ≡ record h { owner = owner })
    pick_owner none = (some node, refl)
    pick_owner (some x) = (h.owner, refl)

volume_section-Fits :
    (h : MemVmHost) (lost : List VolumeId) (vm_id : ℕ) (id : VolumeId) (mount_name : Bytes)
    (x : Section)
    → volume_section vm_id id mount_name (attach_known h id mount_name) ≡ some x
    → Fits h.vault.rows lost x
volume_section-Fits h lost vm_id id mount_name x e = elim (Option-cases (get_meta h.vault id)) [
  | inr (m, known) ↦ elim (Bool-cases (ltb max_mount (length mount_name))) [
    | inl long ↦ absurd (cc (rw (attach_known, long) at e))
    | inr short ↦
        subst (Fits h.vault.rows lost) (some_inj (rw (attach_known, short, known) at e))
          (inr (get_meta-row h.vault id m known))
  ]
  | inl missing ↦ elim (Bool-cases (ltb max_mount (length mount_name))) [
    | inl long ↦ absurd (cc (rw (attach_known, long) at e))
    | inr short ↦ absurd (cc (rw (attach_known, short, missing) at e))
  ]
]

delete_section-Fits :
    (h : MemVmHost) (lost : List VolumeId) (id : VolumeId) (x : Section)
    → (if attached id h.slots then none else some (deleting id)) ≡ some x
    → Fits h.vault.rows lost x
delete_section-Fits h lost id x e = elim (Bool-cases (attached id h.slots)) [
  | inl busy ↦ absurd (cc (rw busy at e))
  | inr free ↦ subst (Fits h.vault.rows lost) (some_inj (rw free at e)) tt
]

nic_section-Fits :
    (h : MemVmHost) (lost : List VolumeId) (id : NetworkId) (vm_id : ℕ) (ip : Option Bytes)
    (x : Section)
    → nic_section id vm_id (nic_checks h vm_id ip) ≡ some x
    → Fits h.vault.rows lost x
nic_section-Fits h lost id vm_id ip x e = elim (HostResult-cases (nic_checks h vm_id ip)) [
  | inr (y, bad) ↦ absurd (cc (rw bad at e))
  | inl (y, fine) ↦ subst (Fits h.vault.rows lost) (some_inj (rw fine at e)) tt
]

-- A thread that has run its first part.
first_part-Fits :
    (h : MemVmHost) (lost : List VolumeId) (op : VmOp) (x : Section)
    → first_part h op ≡ some x
    → Fits h.vault.rows lost x
unfolding first_part
first_part-Fits h lost (Operations.create label policy image cpus memory crc) x e = absurd (cc e)
first_part-Fits h lost (Operations.start vm_id) x e = absurd (cc e)
first_part-Fits h lost (Operations.stop vm_id) x e = absurd (cc e)
first_part-Fits h lost (Operations.delete vm_id) x e = absurd (cc e)
first_part-Fits h lost Operations.list x e = absurd (cc e)
first_part-Fits h lost (Operations.create_volume name size) x e = absurd (cc e)
first_part-Fits h lost (Operations.delete_volume id) x e = delete_section-Fits h lost id x e
first_part-Fits h lost Operations.list_volumes x e = absurd (cc e)
first_part-Fits h lost (Operations.attach_volume vm_id id mount_name) x e =
    volume_section-Fits h lost vm_id id mount_name x e
first_part-Fits h lost (Operations.detach_volume vm_id id) x e = absurd (cc e)
first_part-Fits h lost (Operations.read_volume id offset len) x e = absurd (cc e)
first_part-Fits h lost (Operations.write_volume id offset bytes) x e = absurd (cc e)
first_part-Fits h lost (Operations.create_snapshot id name) x e = absurd (cc e)
first_part-Fits h lost (Operations.list_snapshots id) x e = absurd (cc e)
first_part-Fits h lost (Operations.delete_snapshot id) x e = absurd (cc e)
first_part-Fits h lost (Operations.restore_snapshot id) x e = absurd (cc e)
first_part-Fits h lost (Operations.create_network name cidr) x e = absurd (cc e)
first_part-Fits h lost (Operations.delete_network id) x e = absurd (cc e)
first_part-Fits h lost Operations.list_networks x e = absurd (cc e)
first_part-Fits h lost (Operations.attach_nic id vm_id ip) x e =
    nic_section-Fits h lost id vm_id ip x e
first_part-Fits h lost (Operations.detach_nic id) x e = absurd (cc e)
first_part-Fits h lost Operations.list_nics x e = absurd (cc e)
first_part-Fits h lost (Operations.create_security_group name rules) x e = absurd (cc e)
first_part-Fits h lost (Operations.delete_security_group id) x e = absurd (cc e)
first_part-Fits h lost Operations.list_security_groups x e = absurd (cc e)
first_part-Fits h lost (Operations.create_load_balancer name id vip port algo backends) x e =
    absurd (cc e)
first_part-Fits h lost (Operations.delete_load_balancer id) x e = absurd (cc e)
first_part-Fits h lost Operations.list_load_balancers x e = absurd (cc e)

begin-IsSound :
    (m : Threads) (k : ℕ) (op : VmOp) → IsSound m k → IsSound (step m (began op)) (suc k)
unfolding step begin
begin-IsSound m k op p =
    let counted = IsCounted-later m.host.vault m.host.nets k p.counted in
    let same : IsSound m (suc k) = record {
      good = p.good;
      counted = counted;
      waiting = p.waiting;
    } in
    elim (Bool-cases (contains m.host.caps (required op))) [
      | inr denied ↦ rw (begin, denied) same
      | inl granted ↦ elim (Option-cases (first_part m.host op)) [
        | inl nothing ↦ rw (begin, granted, nothing) same
        | inr (x, there) ↦
            rw (begin, granted, there)
              (record {
                good = p.good;
                counted = counted;
                waiting = (first_part-Fits m.host m.lost op x there, p.waiting);
              })
      ]
    ]

ended-IsSound :
    (m : Threads) (k i : ℕ) → k < u32_max → IsSound m k → IsSound (step m (ended i)) (suc k)
unfolding step
ended-IsSound m k i room p = elim (Option-cases (taken i m.pending)) [
  | inl missing ↦
      rw (step, missing)
        (record {
          good = p.good;
          counted = IsCounted-later m.host.vault m.host.nets k p.counted;
          waiting = p.waiting;
        })
  | inr ((x, others), there) ↦
      let (fits, rest) =
        taken-All (Fits m.host.vault.rows m.lost) i m.pending others x there p.waiting in
      rw (step, there) (end-IsSound m k x others room p fits rest)
]

snapshot-IsSound :
    (m : Threads) (k : ℕ) (node : NodeId) → IsSound m k → IsSound (step m (snapshot node)) (suc k)
unfolding step current_rows
snapshot-IsSound m k node p =
    let (owner, same) = remember_by m.host node in
    rw same (record {
      good = with_owner-IsWellFormed m.host m.lost owner p.good;
      counted = IsCounted-later m.host.vault m.host.nets k p.counted;
      waiting = p.waiting;
    })

step-IsSound :
    (m : Threads) (c : Call) (k : ℕ) → k < u32_max → IsSound m k → IsSound (step m c) (suc k)
step-IsSound m (operation op) k room p = operation-IsSound m k op room p
step-IsSound m (snapshot node) k room p = snapshot-IsSound m k node p
step-IsSound m (reattached vm_id l) k room p = reattached-IsSound m k vm_id l p
step-IsSound m (began op) k room p = begin-IsSound m k op p
step-IsSound m (ended i) k room p = ended-IsSound m k i room p

zero_more : (k : ℕ) → k + 0 ≡ k
zero_more k = omega arith

one_more : (k n : ℕ) → k + suc n ≡ suc k + n
one_more k n = omega arith

run-IsSound :
    (cs : List Call) (m : Threads) (k : ℕ)
    → k + length cs ≤ u32_max
    → IsSound m k
    → IsSound (run m cs) (k + length cs)
unfolding run
run-IsSound [] m k room p = rw (zero_more k) p
run-IsSound (c ∷ cs) m k room p = rw (one_more k (length cs)) (
    run-IsSound cs (step m c) (suc k) (omega (arith, room))
      (step-IsSound m c k (omega (arith, room)) p))

no_slots : (i : ℕ) → slot_at (none ∷ none ∷ none ∷ none ∷ []) i ≡ none
unfolding slot_at
no_slots zero = refl
no_slots (suc zero) = refl
no_slots (suc (suc zero)) = refl
no_slots (suc (suc (suc zero))) = refl
no_slots (suc (suc (suc (suc i)))) = refl

-- Threads run the parts of their operations on a new host in any order, with any capabilities,
-- with snapshots between them and attachments that the supervisor gives back; after fewer than
-- 2^32 parts both stores are well-formed, and each attachment of a VM is of a volume that the
-- vault has, or of one that the run lists as lost: its deletion was tried while an attachment of
-- it was in flight, or ended after one had been made since its check; or the vault did not have
-- it when the supervisor gave it back.
pub run_host-IsWellFormed :
    (caps : Capabilities) (cs : List Call)
    → length cs ≤ u32_max
    → IsWellFormed
        (run (start (with_caps new caps)) cs).host
        (run (start (with_caps new caps)) cs).lost
unfolding new with_vault with_stores with_caps Volumes.new Networks.new
run_host-IsWellFormed caps cs room =
    (run-IsSound cs (start (with_caps new caps)) 0 (omega (arith, room)) (record {
      good = record {
        volumes = VolumeInvariant.new-IsWellFormed;
        networks = NetInvariant.new-IsWellFormed;
        stored = λ i s e. absurd (cc (no_slots i, e));
      };
      counted = record {
        next = omega arith;
        counters = record { nets = omega arith; nics = λ id n e. absurd (cc (get-empty id, e)) };
      };
      waiting = tt;
    })).good
