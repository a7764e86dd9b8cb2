-- ===== src/Mesh/Host/Sections/Whole.antt =====
-- An operation of crates/celmesh/src/host.rs whose parts no other thread comes between.
use celium.Prelude.{
  ◌≡◌, ◌∙◌, refl, ap, all, Bool, true, false, Bool-cases, inl, inr, none, some, Option, List, [],
  ◌∷◌, arith,
}
use celium.Vault.Volumes.{VolumeId}
use celium.Mesh.Operations
use celium.Mesh.Host.{MemVmHost, current_rows}
use celium.Mesh.Host.Storage.{attached}
use celium.Mesh.Host.Apply.{apply}
use celium.Mesh.Host.Sections.{
  start, run, step, lost_by, Call, operation, snapshot, reattached, began, ended,
}
use celium.Mesh.Host.Effects.Stores.{deletion_of}

abbrev is_whole : Call → Bool
is_whole (operation op) = true
is_whole (snapshot node) = true
is_whole _ = false

alone_lost : (h : MemVmHost) (target : Option VolumeId) → lost_by (start h) target ≡ []
alone_lost h none = refl
alone_lost h (some id) = elim (Bool-cases (attached id h.slots)) [
  | inl busy ↦ rw busy refl
  | inr free ↦ rw free refl
]

alone_step :
    (h : MemVmHost) (c : Call) → is_whole c ≡ true → (g : MemVmHost) × (step (start h) c ≡ start g)
unfolding step
alone_step h (operation op) e = ((apply h op).0, rw (alone_lost h (deletion_of op)) refl)
alone_step h (snapshot node) e = ((current_rows h node).0, refl)
alone_step h (reattached vm_id l) e = absurd (cc e)
alone_step h (began op) e = absurd (cc e)
alone_step h (ended i) e = absurd (cc e)

-- A run of operations without interruptions, and of snapshots, loses no volume.
run-whole : (h : MemVmHost) (cs : List Call) → all is_whole cs ≡ true → (run (start h) cs).lost ≡ []
unfolding run
run-whole h [] e = refl
run-whole h (c ∷ cs) e =
    let (g, same) = alone_step h c (ground (arith, e)) in
    ap (λ m. (run m cs).lost) same ∙ run-whole g cs (ground (arith, e))
