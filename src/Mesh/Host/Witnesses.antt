-- ===== src/Mesh/Host/Witnesses.antt =====
-- Runs of the host in crates/celmesh/src/host.rs, and the theorems applied to them.
use celium.Prelude.{◌≡◌, refl, none, List, [], ◌∷◌, arith}
use celium.Prelude.Text.{text}
use celium.Mesh.Operations.{VmOp, always}
use celium.Mesh.Operations
use celium.Mesh.Capabilities.{Capabilities, contains, vm_lifecycle_read, volume_read, ◌∣∣◌}
use celium.Mesh.Capabilities
use celium.Mesh.Host.{MemVmHost, new, with_caps}
use celium.Mesh.Host.Apply.{apply}
use celium.Mesh.Host.Effects.{Transition}
use celium.Mesh.Host.Lifecycle.{state_at, apply-Transition}
use celium.Mesh.Host.Invariant.{IsWellFormed}
use celium.Mesh.Host.Sections.{Call, operation, snapshot, reattached, began, ended, run, start}
use celium.Mesh.Host.History.{run_host-IsWellFormed}
use celium.Mesh.Host.Readers.{IsReader, apply_all, apply_all-reader}

abbrev boot : VmOp
boot = Operations.create (text "vm") always none none none none

abbrev calls : List Call
calls =
    snapshot (text "a")
    ∷ operation boot
    ∷ operation (Operations.create_volume (text "disk") 8)
    ∷ began (Operations.delete_volume (text "a/v1"))
    ∷ operation (Operations.attach_volume 0 (text "a/v1") (text "data"))
    ∷ ended 0
    ∷ reattached 0 []
    ∷ operation (Operations.create_network (text "lan") (text "10.0.0.0/29"))
    ∷ operation (Operations.attach_nic (text "a/n1") 0 none)
    ∷ operation (Operations.start 0)
    ∷ []

run_host-IsWellFormed_example :
    IsWellFormed
      (run (start (with_caps new Capabilities.all)) calls).host
      (run (start (with_caps new Capabilities.all)) calls).lost
run_host-IsWellFormed_example = run_host-IsWellFormed Capabilities.all calls (omega arith)

abbrev running_host : MemVmHost
running_host = (run (start (with_caps new Capabilities.all)) calls).host

apply-Transition_example :
    Transition
      (state_at running_host.slots 0)
      (state_at (apply running_host (Operations.delete 0)).0.slots 0)
apply-Transition_example = apply-Transition running_host (Operations.delete 0) 0

abbrev viewer : Capabilities
viewer = vm_lifecycle_read ∣∣ volume_read

viewer-IsReader : IsReader (with_caps new viewer).caps
unfolding contains with_caps
viewer-IsReader = record {
  vms = refl;
  volumes = refl;
  attachments = refl;
  snapshots = refl;
  networks = refl;
  groups = refl;
  balancers = refl;
}

apply_all-reader_example :
    apply_all (with_caps new viewer) (boot ∷ Operations.list_volumes ∷ []) ≡ with_caps new viewer
apply_all-reader_example =
    apply_all-reader (with_caps new viewer) (boot ∷ Operations.list_volumes ∷ []) viewer-IsReader

abbrev booted : MemVmHost
booted = (apply (with_caps new Capabilities.all) boot).0
