-- ===== src/Vault/Networks/Invariant/Delete.antt =====
-- `delete_network` of crates/celvault/src/network.rs keeps the network store well-formed.
use celium.Prelude.{
  ◌≡◌, refl, ◌∙◌, true, false, some, arith, inl, inr, Bool-cases, ltb, any, List, [], ◌∷◌,
}
use celium.Prelude.Key.{bytes_eq, bytes_eq_iff, bytes_key, nat_key}
use celium.Prelude.Map.{Map, get, remove, items, len}
use celium.Prelude.Map.Assoc.{lookup}
use celium.Prelude.Map.Cases.{get-remove_other, remove-cases}
use celium.Prelude.Map.Sizes.{remove-less}
use celium.Vault.Network.{NetworkId, NicId, LoadBalancerId, VirtualNetwork, Nic, LoadBalancer}
use celium.Vault.Networks.{
  MemInner, delete_network, delete_network_commit, has_nics, lbs_of, remove_each,
}
use celium.Vault.Networks.Invariant.{IsNetwork, IsNic, IsBalancer, IsWellFormed}

-- A load balancer of the network is among the keys that go.
lbs_of-lookup :
    (id : NetworkId) (k : LoadBalancerId) (lb : LoadBalancer)
    (xs : List (LoadBalancerId × LoadBalancer))
    → lookup k xs ≡ some lb
    → bytes_eq lb.network_id id ≡ true
    → any (bytes_eq k) (lbs_of id xs) ≡ true
unfolding lookup lbs_of
lbs_of-lookup id k lb [] e of = absurd (cc e)
lbs_of-lookup id k lb ((j, x) ∷ xs) e of =
    ground (arith, e, of, lbs_of-lookup id k lb xs, bytes_eq_iff j k, bytes_eq_iff k j)

-- What stays when the keys are removed one by one.
remove_each-some :
    (ks : List LoadBalancerId) (k : LoadBalancerId) (lb : LoadBalancer)
    (m : Map LoadBalancerId LoadBalancer)
    → get (remove_each ks m) k ≡ some lb
    → (get m k ≡ some lb) × (any (bytes_eq k) ks ≡ false)
unfolding remove_each
remove_each-some [] k lb m e = (e, refl)
remove_each-some (j ∷ ks) k lb m e =
    let (at, kept) = remove_each-some ks k lb (remove j m) e in
    let (other, old) = remove-cases j k lb m at in
    (old, ground (arith, other, kept, bytes_eq_iff j k, bytes_eq_iff k j))

lbs_left :
    (g : MemInner) (id : NetworkId) (k : LoadBalancerId) (lb : LoadBalancer)
    → get (delete_network_commit g id).lbs k ≡ some lb
    → (get g.lbs k ≡ some lb) × (bytes_eq id lb.network_id ≡ false)
unfolding delete_network_commit get items
lbs_left g id k lb e =
    let (old, kept) = remove_each-some (lbs_of id (items g.lbs)) k lb g.lbs e in
    elim (Bool-cases (bytes_eq lb.network_id id)) [
      | inl same ↦ absurd (cc (kept, lbs_of-lookup id k lb (items g.lbs) old same))
      | inr other ↦
          (old, ground (arith, other, bytes_eq_iff id lb.network_id, bytes_eq_iff lb.network_id id))
    ]

module _ (g : MemInner) (id : NetworkId) (good : IsWellFormed g)
    (unused : has_nics g id ≡ false) where
  -- No NIC is on the network.
  elsewhere : (k : NicId) (x : Nic) → IsNic g k x → bytes_eq id x.network_id ≡ false
  elsewhere k x h = elim (Bool-cases (bytes_eq id x.network_id)) [
    | inr other ↦ other
    | inl same ↦
        let name : id ≡ x.network_id = (bytes_eq_iff id x.network_id).0 same in
        let (u, at, mine) = h.booked in
        let here : get g.used_ips id ≡ some u = rw name at in
        let nothing : ltb 0 (len u) ≡ false = rw (has_nics, here) at unused in
        absurd (ground (arith, nothing, remove-less x.ip k u mine))
  ]

  IsNetwork-left :
      (k : NetworkId) (x : VirtualNetwork)
      → bytes_eq id k ≡ false
      → IsNetwork g k x
      → IsNetwork (delete_network_commit g id) k x
  unfolding delete_network_commit
  IsNetwork-left k x other h = record {
    named = h.named;
    numbered = h.numbered;
    block = h.block;
    pool = let (u, at, small) = h.pool in (u, get-remove_other id k g.used_ips other ∙ at, small);
    counter = let (m, at) = h.counter in (m, get-remove_other id k g.next_nic other ∙ at);
  }

  IsNic-left : (k : NicId) (x : Nic) → IsNic g k x → IsNic (delete_network_commit g id) k x
  unfolding delete_network_commit
  IsNic-left k x h =
      let other = elsewhere k x h in
      record {
        named = h.named;
        home =
            let (net, at, inside) = h.home in
            (net, get-remove_other id x.network_id g.networks other ∙ at, inside);
        booked =
            let (u, at, mine) = h.booked in
            (u, get-remove_other id x.network_id g.used_ips other ∙ at, mine);
        numbered =
            let (m, r, at, name, low) = h.numbered in
            (m, r, get-remove_other id x.network_id g.next_nic other ∙ at, name, low);
      }

  IsBalancer-left :
      (k : LoadBalancerId) (lb : LoadBalancer)
      → get (delete_network_commit g id).lbs k ≡ some lb
      → IsBalancer (delete_network_commit g id) lb
  unfolding delete_network_commit
  IsBalancer-left k lb e =
      let (old, other) = lbs_left g id k lb e in
      record {
        home =
            let (net, at, vip, ips) = (good.balanced k lb old).home in
            (net, get-remove_other id lb.network_id g.networks other ∙ at, vip, ips);
      }

  commit-IsWellFormed : IsWellFormed (delete_network_commit g id)
  unfolding delete_network_commit
  commit-IsWellFormed = record {
    counted = good.counted;
    counters = λ k n e. good.counters k n (remove-cases id k n g.next_nic e).1;
    networked = λ k x e.
        let (other, old) = remove-cases id k x g.networks e in
        IsNetwork-left k x other (good.networked k x old);
    pooled = λ k u e.
        let (other, old) = remove-cases id k u g.used_ips e in
        let (x, at) = good.pooled k u old in (x, get-remove_other id k g.networks other ∙ at);
    assigned = λ k u a nid e f. good.assigned k u a nid (remove-cases id k u g.used_ips e).1 f;
    placed = λ k x e. IsNic-left k x (good.placed k x e);
    balanced = IsBalancer-left;
  }

pub delete_network-IsWellFormed :
    (g : MemInner) (id : NetworkId) → IsWellFormed g → IsWellFormed (delete_network g id).0
unfolding delete_network
delete_network-IsWellFormed g id good = elim (Bool-cases (has_nics g id)) [
  | inl busy ↦
      let same : (delete_network g id).0 ≡ g = rw (delete_network, busy) refl in rw same good
  | inr unused ↦
      let same : (delete_network g id).0 ≡ delete_network_commit g id =
        rw (delete_network, unused) refl in
      rw same (commit-IsWellFormed g id good unused)
]
