-- ===== src/Vault/Networks/Invariant/Create.antt =====
-- `create_network` of crates/celvault/src/network.rs keeps the network store well-formed.
use celium.Prelude.{ℕ, ◌≤◌, ◌<◌, ◌≡◌, refl, sym, ◌∙◌, subst, false, none, some, arith, inl, inr}
use celium.Prelude.Key.{Bytes, bytes_eq, bytes_key, nat_key}
use celium.Prelude.Map.{empty, get, insert, get-insert_self, get-empty}
use celium.Prelude.Map.Cases.{get-insert_other, insert-cases, absent-differs}
use celium.Prelude.Map.Sizes.{len-empty}
use celium.Prelude.Error.{CelResult-cases}
use celium.Prelude.Words.{u64_max, saturating_add}
use celium.Vault.Network.{NetworkId, NicId, VirtualNetwork, Nic, Cidr4, LoadBalancer}
use celium.Vault.Network.Blocks.{IsBlock}
use celium.Vault.Networks.{
  MemInner, network_id, create_network, create_network_commit, validate_name,
}
use celium.Vault.Networks.Ids.{rank, rank-network_id}
use celium.Vault.Networks.Invariant.{IsNetwork, IsNic, IsBalancer, IsWellFormed}
use celium.Vault.Networks.Invariant.Fresh.{network_id-fresh}

module _ (g : MemInner) (id : NetworkId) (net : VirtualNetwork) (n : ℕ) (good : IsWellFormed g)
    (fresh : get g.networks id ≡ none) where
  -- The state behind `create_network`.
  abbrev created : MemInner
  created = record g {
    next_net = n;
    networks = insert id net g.networks;
    next_nic = insert id 0 g.next_nic;
    used_ips = insert id empty g.used_ips;
  }

  IsNetwork-before :
      (k : NetworkId) (x : VirtualNetwork)
      → g.next_net ≤ n
      → bytes_eq id k ≡ false
      → IsNetwork g k x
      → IsNetwork created k x
  IsNetwork-before k x later other h = record {
    named = h.named;
    numbered = let (r, ranked, old) = h.numbered in (r, ranked, omega (arith, old, later));
    block = h.block;
    pool =
        let (u, at, small) = h.pool in
        (u, get-insert_other id k empty g.used_ips other ∙ at, small);
    counter = let (m, at) = h.counter in (m, get-insert_other id k 0 g.next_nic other ∙ at);
  }

  IsNic-before : (k : NicId) (x : Nic) → IsNic g k x → IsNic created k x
  IsNic-before k x h =
      let (home, there, inside) = h.home in
      let other = absent-differs id x.network_id home g.networks fresh there in
      record {
        named = h.named;
        home = (home, get-insert_other id x.network_id net g.networks other ∙ there, inside);
        booked =
            let (u, at, mine) = h.booked in
            (u, get-insert_other id x.network_id empty g.used_ips other ∙ at, mine);
        numbered =
            let (m, r, at, name, low) = h.numbered in
            (m, r, get-insert_other id x.network_id 0 g.next_nic other ∙ at, name, low);
      }

  IsBalancer-before : (lb : LoadBalancer) → IsBalancer g lb → IsBalancer created lb
  IsBalancer-before lb h = record {
    home =
        let (home, there, vip, ips) = h.home in
        let other = absent-differs id lb.network_id home g.networks fresh there in
        (home, get-insert_other id lb.network_id net g.networks other ∙ there, vip, ips);
  }

  created-IsWellFormed :
      g.next_net ≤ n
      → n ≤ u64_max
      → net.id ≡ id
      → rank id ≡ some n
      → IsBlock net.cidr
      → IsWellFormed created
  created-IsWellFormed later fits name ranked block = record {
    counted = fits;
    counters = λ k m e. elim (insert-cases id k 0 m g.next_nic e) [
      | inl (_, same) ↦ omega (arith, same)
      | inr (_, old) ↦ good.counters k m old
    ];
    networked = λ k x e. elim (insert-cases id k net x g.networks e) [
      | inl (same, equal) ↦
          subst (λ y. IsNetwork created k y) equal
            (subst (λ j. IsNetwork created j net) same
              (record {
                named = name;
                numbered = (n, ranked, omega arith);
                block = block;
                pool =
                    (empty, get-insert_self id empty g.used_ips, omega (arith, len-empty ℕ NicId));
                counter = (0, get-insert_self id 0 g.next_nic);
              }))
      | inr (other, old) ↦ IsNetwork-before k x later other (good.networked k x old)
    ];
    pooled = λ k u e. elim (insert-cases id k empty u g.used_ips e) [
      | inl (same, _) ↦ (
        net,
        subst (λ j. get (insert id net g.networks) j ≡ some net) same
            (get-insert_self id net g.networks),
      )
      | inr (other, old) ↦
          let (x, at) = good.pooled k u old in (x, get-insert_other id k net g.networks other ∙ at)
    ];
    assigned = λ k u a nid e f. elim (insert-cases id k empty u g.used_ips e) [
      | inl (_, same) ↦ absurd (cc (get-empty a, subst (λ m. get m a ≡ some nid) (sym same) f))
      | inr (_, old) ↦ good.assigned k u a nid old f
    ];
    placed = λ k x e. IsNic-before k x (good.placed k x e);
    balanced = λ k lb e. IsBalancer-before lb (good.balanced k lb e);
  }

pub create_network-IsWellFormed :
    (g : MemInner) (owner name : Bytes) (cidr : Cidr4)
    → IsWellFormed g
    → IsBlock cidr
    → g.next_net < u64_max
    → IsWellFormed (create_network g owner name cidr).0
unfolding create_network create_network_commit
create_network-IsWellFormed g owner name cidr good block room =
    elim (CelResult-cases (validate_name name)) [
      | inr (e, bad) ↦
          let same : (create_network g owner name cidr).0 ≡ g = rw (create_network, bad) refl in
          rw same good
      | inl (_, fine) ↦
          let n = saturating_add u64_max g.next_net 1 in
          let id = network_id owner n in
          let net : VirtualNetwork = record { id = id; owner = owner; name = name; cidr = cidr } in
          let fresh = network_id-fresh g owner n good (omega (arith, room)) (omega arith) in
          let same : (create_network g owner name cidr).0 ≡ created g id net n good fresh =
            rw (create_network, fine, create_network_commit) refl in
          rw same (
            created-IsWellFormed g id net n good fresh (omega (arith, room)) (omega arith) refl
              (rank-network_id owner n (omega arith)) block)
    ]
