-- ===== src/Vault/Networks/Invariant.antt =====
-- The well-formed states of the network store of crates/celvault/src/network.rs.
pub mod Fresh
pub mod Attached
pub mod Attach
pub mod Detach
pub mod Create
pub mod Delete
pub mod Policies
use celium.Prelude.{ℕ, ◌≤◌, ◌≡◌, true, none, some, arith, all}
use celium.Prelude.Key.{Bytes, bytes_key, nat_key}
use celium.Prelude.Map.{Map, empty, get, len, get-empty}
use celium.Prelude.Words.{u32_max, u64_max}
use celium.Vault.Network.{
  Cidr4, NetworkId, NicId, VirtualNetwork, Nic, LoadBalancerId, LoadBalancer,
}
use celium.Vault.Network.Blocks.{IsBlock, contains}
use celium.Vault.Networks.{MemInner, UsedIps, new, nic_id, max_nics_per_network}
use celium.Vault.Networks.Ids.{rank}

-- A network under its id has a block, a counter, and the addresses that it has given out.
pub record IsNetwork (g : MemInner) (id : NetworkId) (net : VirtualNetwork) : Type 0 where
  pub named : net.id ≡ id
  pub numbered : (r : ℕ) × (rank id ≡ some r) × (r ≤ g.next_net)
  pub block : IsBlock net.cidr
  pub pool : (used : UsedIps) × (get g.used_ips id ≡ some used) × (len used ≤ max_nics_per_network)
  pub counter : (n : ℕ) × (get g.next_nic id ≡ some n)

-- A NIC under its id has an address of its network, booked there for it alone, and an id with a
-- number that its network has given out.
pub record IsNic (g : MemInner) (id : NicId) (nic : Nic) : Type 0 where
  pub named : nic.id ≡ id
  pub home :
      (net : VirtualNetwork) × (get g.networks nic.network_id ≡ some net)
      × (contains net.cidr nic.ip ≡ true)
  pub booked :
      (used : UsedIps) × (get g.used_ips nic.network_id ≡ some used) × (get used nic.ip ≡ some id)
  pub numbered :
      (n : ℕ) × (r : ℕ) × (get g.next_nic nic.network_id ≡ some n)
      × (id ≡ nic_id nic.network_id r)
      × (r ≤ n)

-- A load balancer's addresses are in the block of its network.
pub record IsBalancer (g : MemInner) (lb : LoadBalancer) : Type 0 where
  pub home :
      (net : VirtualNetwork) × (get g.networks lb.network_id ≡ some net)
      × (contains net.cidr lb.vip ≡ true)
      × (all (λ b. contains net.cidr b.ip) lb.backends ≡ true)

pub record IsWellFormed (g : MemInner) : Type 0 where
  pub counted : g.next_net ≤ u64_max
  pub counters : (id : NetworkId) (n : ℕ) → get g.next_nic id ≡ some n → n ≤ u32_max
  pub networked :
      (id : NetworkId) (net : VirtualNetwork) → get g.networks id ≡ some net → IsNetwork g id net
  pub pooled :
      (id : NetworkId) (used : UsedIps)
      → get g.used_ips id ≡ some used
      → (net : VirtualNetwork) × (get g.networks id ≡ some net)
  pub assigned :
      (id : NetworkId) (used : UsedIps) (a : ℕ) (nid : NicId)
      → get g.used_ips id ≡ some used
      → get used a ≡ some nid
      → (nic : Nic) × (get g.nics nid ≡ some nic) × (nic.network_id ≡ id) × (nic.ip ≡ a)
  pub placed : (id : NicId) (nic : Nic) → get g.nics id ≡ some nic → IsNic g id nic
  pub balanced :
      (id : LoadBalancerId) (lb : LoadBalancer) → get g.lbs id ≡ some lb → IsBalancer g lb

pub new-IsWellFormed : IsWellFormed new
unfolding new
new-IsWellFormed = record {
  counted = omega arith;
  counters = λ id n e. absurd (cc (get-empty id, e));
  networked = λ id net e. absurd (cc (get-empty id, e));
  pooled = λ id used e. absurd (cc (get-empty id, e));
  assigned = λ id used a nid e f. absurd (cc (get-empty id, e));
  placed = λ id nic e. absurd (cc (get-empty id, e));
  balanced = λ id lb e. absurd (cc (get-empty id, e));
}
