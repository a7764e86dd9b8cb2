-- ===== src/Mesh/Host/Invariant/Preserved.antt =====
-- The operations of the host in crates/celmesh/src/host.rs, and its well-formed states.
use celium.Prelude.{ℕ, suc, ◌≤◌, ◌<◌, Option, none, List, arith, inl, inr}
use celium.Prelude.Key.{bytes_key}
use celium.Prelude.Words.{u32_max}
use celium.Vault.Volumes
use celium.Vault.Volumes.{VolumeId, MemVolume}
use celium.Vault.Volumes.Invariant.Deletion.{delete-IsWellFormed}
use celium.Vault.Volumes.History as VolumeHistory
use celium.Vault.Volumes.Persistence.{step-Keeps}
use celium.Vault.Networks
use celium.Vault.Networks.History as NetHistory
use celium.Mesh.Host.{MemVmHost}
use celium.Mesh.Host.Effects.{
  Effect, idle, vault_called, volume_deleted, nets_called, vm_created, vm_changed, vm_deleted,
  volume_attached, volume_detached,
}
use celium.Mesh.Host.Invariant.{
  IsWellFormed, AllStored-mono, AllStored-append, AllStored-retain, AllStored-remove,
  set_slot-cases, set_slot-stored, attached-slot,
}

-- The counters of both stores, against the number of calls.
pub record IsCounted (vault : Volumes.MemInner) (nets : Networks.MemInner) (k : ℕ) : Type 0 where
  pub next : vault.next ≤ k
  pub counters : NetHistory.Counts nets k

pub IsCounted-later :
    (vault : Volumes.MemInner) (nets : Networks.MemInner) (k : ℕ)
    → IsCounted vault nets k
    → IsCounted vault nets (suc k)
IsCounted-later vault nets k c = record {
  next = omega (arith, c.next);
  counters = NetHistory.Counts-later nets k c.counters;
}

pub Effect-IsCounted :
    (h g : MemVmHost) (target : Option VolumeId) (k : ℕ)
    → k < u32_max
    → IsCounted h.vault h.nets k
    → Effect h target g
    → IsCounted g.vault g.nets (suc k)
unfolding Volumes.delete
Effect-IsCounted h _ target k room c idle = IsCounted-later h.vault h.nets k c
Effect-IsCounted h _ target k room c (vault_called call e) = record {
  next = omega (arith, VolumeHistory.step-next h.vault call (omega (arith, c.next, room)), c.next);
  counters = NetHistory.Counts-later h.nets k c.counters;
}
Effect-IsCounted h _ target k room c (volume_deleted id named e) = record {
  next = omega (arith, c.next);
  counters = NetHistory.Counts-later h.nets k c.counters;
}
Effect-IsCounted h _ target k room c (nets_called call) = record {
  next = omega (arith, c.next);
  counters = NetHistory.step-Counts h.nets call k c.counters;
}
Effect-IsCounted h _ target k room c (vm_created i t free fresh blank) =
    IsCounted-later h.vault h.nets k c
Effect-IsCounted h _ target k room c (vm_changed i s t there change same) =
    IsCounted-later h.vault h.nets k c
Effect-IsCounted h _ target k room c (vm_deleted i s there over) =
    IsCounted-later h.vault h.nets k c
Effect-IsCounted h _ target k room c (volume_attached i s t a v there same more known) =
    IsCounted-later h.vault h.nets k c
Effect-IsCounted h _ target k room c (volume_detached i s t keep there same fewer) =
    IsCounted-later h.vault h.nets k c

pub Effect-IsWellFormed :
    (h g : MemVmHost) (target : Option VolumeId) (lost : List VolumeId) (k : ℕ)
    → k < u32_max
    → IsCounted h.vault h.nets k
    → IsWellFormed h lost
    → Effect h target g
    → IsWellFormed g lost
unfolding Volumes.delete
Effect-IsWellFormed h _ target lost k room c good idle = good
Effect-IsWellFormed h _ target lost k room c good (vault_called call e) = record {
  volumes = VolumeHistory.step-IsWellFormed h.vault call good.volumes (omega (arith, c.next, room));
  networks = good.networks;
  stored = λ i s there.
      AllStored-mono h.vault.rows (VolumeHistory.step h.vault call).rows lost s.volumes
        (step-Keeps h.vault call e) (good.stored i s there);
}
Effect-IsWellFormed h _ target lost k room c good (volume_deleted id named free) = record {
  volumes = delete-IsWellFormed h.vault id good.volumes;
  networks = good.networks;
  stored = λ i s there.
      AllStored-remove h.vault.rows lost id s.volumes (attached-slot id h.slots i s free there)
        (good.stored i s there);
}
Effect-IsWellFormed h _ target lost k room c good (nets_called call) = record {
  volumes = good.volumes;
  networks = NetHistory.step-IsWellFormed h.nets call k c.counters room good.networks;
  stored = good.stored;
}
Effect-IsWellFormed h _ target lost k room c good (vm_created i t free fresh blank) =
    set_slot-stored h lost i t good (rw blank tt)
Effect-IsWellFormed h _ target lost k room c good (vm_changed i s t there change same) =
    set_slot-stored h lost i t good (rw same (good.stored i s there))
Effect-IsWellFormed h _ target lost k room c good (vm_deleted i s there over) = record {
  volumes = good.volumes;
  networks = good.networks;
  stored = λ j t e. elim (set_slot-cases h.slots i none j t e) [
    | inl gone ↦ absurd (cc gone)
    | inr old ↦ good.stored j t old
  ];
}
Effect-IsWellFormed h _ target lost k room c good
      (volume_attached i s t a v there same more known) =
    set_slot-stored h lost i t good (
      rw more
        (AllStored-append h.vault.rows lost s.volumes a (good.stored i s there) (inr (v, known))))
Effect-IsWellFormed h _ target lost k room c good (volume_detached i s t keep there same fewer) =
    set_slot-stored h lost i t good
      (rw fewer (AllStored-retain h.vault.rows lost keep s.volumes (good.stored i s there)))
