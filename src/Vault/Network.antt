-- ===== src/Vault/Network.antt =====
-- crates/celvault/src/network.rs: the records of the networking surface, and the choice that a load
-- balancer makes. An IPv4 address is its 32-bit number.
pub mod Blocks
pub mod Addresses
pub mod Pick
use celium.Prelude.{
  ℕ, zero, suc, ◌%◌, Bool, Option, none, some, List, [], ◌∷◌, ltb, length, if◌then◌else◌,
}
use celium.Prelude.Key.{Bytes}
use celium.Prelude.Words.{u32_max}

abbrev pub NetworkId : Type 0
NetworkId = Bytes

abbrev pub NicId : Type 0
NicId = Bytes

abbrev pub SecurityGroupId : Type 0
SecurityGroupId = Bytes

abbrev pub LoadBalancerId : Type 0
LoadBalancerId = Bytes

abbrev pub MacBytes : Type 0
MacBytes = List ℕ

pub record Cidr4 : Type 0 where
  pub base : ℕ
  pub prefix_len : ℕ

pub record VirtualNetwork : Type 0 where
  pub id : NetworkId
  pub owner : Bytes
  pub name : Bytes
  pub cidr : Cidr4

pub record Nic : Type 0 where
  pub id : NicId
  pub network_id : NetworkId
  pub vm_id : ℕ
  pub ip : ℕ
  pub mac : MacBytes

pub data Direction : Type 0 where
  ingress egress : Direction

pub data L4Proto : Type 0 where
  tcp udp icmp any_proto : L4Proto

pub record SecurityRule : Type 0 where
  pub direction : Direction
  pub proto : L4Proto
  pub port_min : ℕ
  pub port_max : ℕ
  pub cidr : Cidr4
  pub allow : Bool

pub record SecurityGroup : Type 0 where
  pub id : SecurityGroupId
  pub owner : Bytes
  pub name : Bytes
  pub rules : List SecurityRule

pub data LbAlgo : Type 0 where
  round_robin least_conn : LbAlgo

pub record LbBackend : Type 0 where
  pub vm_id : ℕ
  pub ip : ℕ
  pub port : ℕ

pub record LoadBalancer : Type 0 where
  pub id : LoadBalancerId
  pub owner : Bytes
  pub name : Bytes
  pub network_id : NetworkId
  pub vip : ℕ
  pub frontend_port : ℕ
  pub algo : LbAlgo
  pub backends : List LbBackend

-- `least_conn.get(i).copied().unwrap_or(0)`
unfoldable pub conn_at : List ℕ → ℕ → ℕ
conn_at [] i = 0
conn_at (n ∷ ns) zero = n
conn_at (n ∷ ns) (suc i) = conn_at ns i

-- The loop over the backends, with the index, `best` and `best_n`.
unfoldable pub best_loop : List ℕ → ℕ → ℕ → ℕ → List LbBackend → ℕ
best_loop conns i best best_n [] = best
best_loop conns i best best_n (b ∷ bs) =
    let n = conn_at conns i in
    best_loop conns (suc i) (if ltb n best_n then i else best) (if ltb n best_n then n else best_n)
      bs

-- The index by the algorithm, of a list that is not empty.
unfoldable pub choose : LbAlgo → List LbBackend → ℕ → List ℕ → ℕ
choose round_robin bs tick conns = tick % length bs
choose least_conn bs tick conns = best_loop conns 0 0 u32_max bs

unfoldable pub pick : LoadBalancer → ℕ → List ℕ → Option ℕ
pick lb tick conns = elim lb.backends [
  | [] ↦ none
  | b ∷ bs ↦ some (choose lb.algo lb.backends tick conns)
]
