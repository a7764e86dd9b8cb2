-- ===== src/Mesh/Replies.antt =====
-- crates/celmesh/src/proto.rs: the replies to the operations that travel between nodes, and the
-- errors of a host before they are put into words.
use celium.Prelude.{
  ℕ, ◌≡◌, ◌⊎◌, refl, inl, inr, Bool, true, false, Option, none, some, List, String,
}
use celium.Prelude.Key.{Bytes}
use celium.Prelude.Error.{CelError, CelResult, ok, err}
use celium.Vault.Volumes.{VolumeId, SnapshotId, VolumeMeta, SnapshotMeta}
use celium.Vault.Attachments.{VolumeAttachment}
use celium.Vault.Network.{
  NetworkId, NicId, SecurityGroupId, LoadBalancerId, VirtualNetwork, Nic, SecurityGroup,
  LoadBalancer,
}
use celium.Mesh.Federation.{RemoteVm}

pub data VmOpReply : Type 0 where
  created : ℕ → VmOpReply
  state : ℕ → Bytes → VmOpReply
  deleted : ℕ → VmOpReply
  listed : List RemoteVm → VmOpReply
  volume_created : VolumeMeta → VmOpReply
  volume_deleted : VolumeId → VmOpReply
  volumes_listed : List VolumeMeta → VmOpReply
  attachments : ℕ → List VolumeAttachment → VmOpReply
  volume_data : VolumeId → Bytes → VmOpReply
  volume_written : VolumeId → ℕ → VmOpReply
  snapshot_created : SnapshotMeta → VmOpReply
  snapshots_listed : List SnapshotMeta → VmOpReply
  snapshot_deleted snapshot_restored : SnapshotId → VmOpReply
  network_created : VirtualNetwork → VmOpReply
  network_deleted : NetworkId → VmOpReply
  networks_listed : List VirtualNetwork → VmOpReply
  nic_attached : Nic → VmOpReply
  nic_detached : NicId → VmOpReply
  nics_listed : List Nic → VmOpReply
  security_group_created : SecurityGroup → VmOpReply
  security_group_deleted : SecurityGroupId → VmOpReply
  security_groups_listed : List SecurityGroup → VmOpReply
  load_balancer_created : LoadBalancer → VmOpReply
  load_balancer_deleted : LoadBalancerId → VmOpReply
  load_balancers_listed : List LoadBalancer → VmOpReply

-- `capability denied: {tag}`, a text alone, or a text before the error of a store.
pub data HostError : Type 0 where
  denied : String → HostError
  plain : String → HostError
  store : String → CelError → HostError

pub data HostResult {ℓ} (A : Type ℓ) : Type ℓ where
  done : A → HostResult A
  refused : HostError → HostResult A

infixl 5 ◌>>=◌ ◌>>◌
abbrev pub ◌>>=◌ {ℓ κ} :
    {A : Type ℓ} {B : Type κ} → HostResult A → (A → HostResult B) → HostResult B
done a >>= f = f a
refused e >>= f = refused e

abbrev pub ◌>>◌ {ℓ} : {B : Type ℓ} → HostResult (Unit {0}) → HostResult B → HostResult B
m >> k = m >>= λ _. k

-- `if c { return Err(e.into()); }`
abbrev pub refuse_if : Bool → String → HostResult (Unit {0})
refuse_if true e = refused (plain e)
refuse_if false e = done tt

-- `o.ok_or_else(|| e.to_string())?`
abbrev pub some_or {ℓ} : {A : Type ℓ} → Option A → String → HostResult A
some_or none e = refused (plain e)
some_or (some a) e = done a

-- `r.map_err(|e| format!("{context}: {e:?}"))?`
abbrev pub context {ℓ} : {A : Type ℓ} → String → CelResult A → HostResult A
context c (ok a) = done a
context c (err e) = refused (store c e)

pub HostResult-cases {ℓ} :
    {A : Type ℓ} (r : HostResult A) → ((a : A) × (r ≡ done a)) ⊎ ((e : HostError) × (r ≡ refused e))
HostResult-cases (done a) = inl (a, refl)
HostResult-cases (refused e) = inr (e, refl)
