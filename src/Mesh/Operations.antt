-- ===== src/Mesh/Operations.antt =====
-- crates/celmesh/src/proto.rs: the operations that travel between nodes.
use celium.Prelude.{ℕ, Option, List}
use celium.Prelude.Key.{Bytes}
use celium.Vault.Network.{
  NetworkId, NicId, SecurityGroupId, SecurityRule, LoadBalancerId, LbAlgo, LbBackend,
}
use celium.Vault.Volumes.{VolumeId, SnapshotId}

-- `RestartPolicy` of crates/celmesh/src/federation.rs.
pub data RestartPolicy : Type 0 where
  never always : RestartPolicy

-- A variant's fields are the arguments, in their order.
pub data VmOp : Type 0 where
  create : Bytes → RestartPolicy → Option Bytes → Option ℕ → Option ℕ → Option ℕ → VmOp
  start stop delete : ℕ → VmOp
  list : VmOp
  create_volume : Bytes → ℕ → VmOp
  delete_volume : VolumeId → VmOp
  list_volumes : VmOp
  attach_volume : ℕ → VolumeId → Bytes → VmOp
  detach_volume : ℕ → VolumeId → VmOp
  read_volume : VolumeId → ℕ → ℕ → VmOp
  write_volume : VolumeId → ℕ → Bytes → VmOp
  create_snapshot : VolumeId → Bytes → VmOp
  list_snapshots : Option VolumeId → VmOp
  delete_snapshot restore_snapshot : SnapshotId → VmOp
  create_network : Bytes → Bytes → VmOp
  delete_network : NetworkId → VmOp
  list_networks : VmOp
  attach_nic : NetworkId → ℕ → Option Bytes → VmOp
  detach_nic : NicId → VmOp
  list_nics : VmOp
  create_security_group : Bytes → List SecurityRule → VmOp
  delete_security_group : SecurityGroupId → VmOp
  list_security_groups : VmOp
  create_load_balancer : Bytes → NetworkId → Bytes → ℕ → LbAlgo → List LbBackend → VmOp
  delete_load_balancer : LoadBalancerId → VmOp
  list_load_balancers : VmOp
