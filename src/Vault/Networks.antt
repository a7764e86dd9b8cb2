-- ===== src/Vault/Networks.antt =====
-- crates/celvault/src/network.rs: the network store in memory. The mutex makes each call one step
-- from a state to a state, and `usize` is 64 bits wide.
pub mod Nics
pub mod Policies
pub mod Scan
pub mod Ids
pub mod Invariant
pub mod History
pub mod Deletion
mod Witnesses
use celium.Prelude.{
  ℕ, zero, suc, ◌+◌, ◌*◌, ◌/◌, ◌%◌, ◌^◌, Bool, true, false, not, Option, none, some, List, [], ◌∷◌,
  ◌++◌, all, any, ltb, leb, eqb, length, bit_and, if◌then◌else◌,
}
use celium.Prelude.Key.{Bytes, bytes_eq, bytes_key, nat_key}
use celium.Prelude.Map.{Map, empty, get, insert, remove, values, items, len}
use celium.Prelude.Error.{
  CelError, CelResult, ok, err, ◌>>=◌, ◌>>◌, refuse_if, ok_or, invalid, exhausted,
}
use celium.Prelude.Words.{u32_max, u64_max, saturating_add}
use celium.Prelude.Decimal.{decimal}
use celium.Vault.Network.{
  NetworkId, NicId, SecurityGroupId, LoadBalancerId, MacBytes, Cidr4, VirtualNetwork, Nic,
  SecurityRule, SecurityGroup, LbAlgo, LbBackend, LoadBalancer,
}
use celium.Vault.Network.Blocks.{capacity, nth_host, contains}
use Prim.Native.Nat.{bit_xor}

abbrev pub max_name : ℕ
max_name = 64

abbrev pub max_nics_per_network : ℕ
max_nics_per_network = 256

abbrev pub max_rules_per_group : ℕ
max_rules_per_group = 32

abbrev pub max_backends_per_lb : ℕ
max_backends_per_lb = 32

-- The addresses that a network has given out, with the NIC of each.
abbrev pub UsedIps : Type 0
UsedIps = Map ℕ NicId

pub record MemInner : Type 0 where
  pub next_net : ℕ
  pub next_sg : ℕ
  pub next_lb : ℕ
  pub next_nic : Map NetworkId ℕ
  pub used_ips : Map NetworkId UsedIps
  pub networks : Map NetworkId VirtualNetwork
  pub nics : Map NicId Nic
  pub sgs : Map SecurityGroupId SecurityGroup
  pub lbs : Map LoadBalancerId LoadBalancer

unfoldable pub new : MemInner
new = record {
  next_net = 0;
  next_sg = 0;
  next_lb = 0;
  next_nic = empty;
  used_ips = empty;
  networks = empty;
  nics = empty;
  sgs = empty;
  lbs = empty;
}

abbrev pub validate_name : Bytes → CelResult (Unit {0})
validate_name name = do
  refuse_if (eqb (length name) 0) (invalid "name: empty")
  refuse_if (ltb max_name (length name)) (invalid "name: too long")

-- `format!("{owner}/n{}", n)`, and the ids of the other resources.
abbrev pub network_id : Bytes → ℕ → NetworkId
network_id owner n = owner ++ 47 ∷ 110 ∷ decimal n

abbrev pub nic_id : NetworkId → ℕ → NicId
nic_id network n = network ++ 47 ∷ 110 ∷ 105 ∷ 99 ∷ decimal n

abbrev pub group_id : Bytes → ℕ → SecurityGroupId
group_id owner n = owner ++ 47 ∷ 115 ∷ 103 ∷ decimal n

abbrev pub balancer_id : Bytes → ℕ → LoadBalancerId
balancer_id owner n = owner ++ 47 ∷ 108 ∷ 98 ∷ decimal n

unfoldable pub create_network_commit : MemInner → Bytes → Bytes → Cidr4 → MemInner × VirtualNetwork
create_network_commit g owner name cidr =
    let n = saturating_add u64_max g.next_net 1 in
    let id = network_id owner n in
    let net : VirtualNetwork = record { id = id; owner = owner; name = name; cidr = cidr } in
    (
      record g {
        next_net = n;
        networks = insert id net g.networks;
        next_nic = insert id 0 g.next_nic;
        used_ips = insert id empty g.used_ips;
      },
      net,
    )

unfoldable pub create_network :
    MemInner → Bytes → Bytes → Cidr4 → MemInner × CelResult VirtualNetwork
create_network g owner name cidr = elim (validate_name name) [
  | err e ↦ (g, err e)
  | ok _ ↦ let r = create_network_commit g owner name cidr in (r.0, ok r.1)
]

-- The keys of the load balancers of a network, and their removal one by one.
unfoldable pub lbs_of : NetworkId → List (LoadBalancerId × LoadBalancer) → List LoadBalancerId
lbs_of id [] = []
lbs_of id ((k, lb) ∷ rest) =
    let ks = lbs_of id rest in if bytes_eq lb.network_id id then k ∷ ks else ks

unfoldable pub remove_each :
    List LoadBalancerId → Map LoadBalancerId LoadBalancer → Map LoadBalancerId LoadBalancer
remove_each [] m = m
remove_each (k ∷ ks) m = remove_each ks (remove k m)

-- `!used.is_empty()`, where there is a map of used addresses.
abbrev pub has_nics : MemInner → NetworkId → Bool
has_nics g id = elim (get g.used_ips id) [ none ↦ false | some used ↦ ltb 0 (len used) ]

unfoldable pub delete_network_commit : MemInner → NetworkId → MemInner
delete_network_commit g id = record g {
  networks = remove id g.networks;
  next_nic = remove id g.next_nic;
  used_ips = remove id g.used_ips;
  lbs = remove_each (lbs_of id (items g.lbs)) g.lbs;
}

unfoldable pub delete_network : MemInner → NetworkId → MemInner × CelResult (Unit {0})
delete_network g id =
    if has_nics g id
    then (g, err (invalid "network: NICs still attached"))
    else (delete_network_commit g id, ok tt)

unfoldable pub list_networks : MemInner → List VirtualNetwork
list_networks g = values g.networks

unfoldable pub get_network : MemInner → NetworkId → Option VirtualNetwork
get_network g id = get g.networks id
