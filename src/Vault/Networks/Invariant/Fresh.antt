-- ===== src/Vault/Networks/Invariant/Fresh.antt =====
-- The next ids of the network store of crates/celvault/src/network.rs name nothing that is there.
use celium.Prelude.{
  ℕ, suc, ◌≤◌, ◌<◌, ◌≡◌, sym, ap, ◌∙◌, none, some, arith, inl, inr, Option-cases, subst,
}
use celium.Prelude.Key.{Bytes, bytes_key}
use celium.Prelude.Map.{get}
use celium.Prelude.Words.{u32_max, u64_max}
use celium.Vault.Network.{NetworkId}
use celium.Vault.Networks.{MemInner, network_id, nic_id}
use celium.Vault.Networks.Ids.{rank-network_id, nic_rank, nic_rank-nic_id, nic_id-network}
use celium.Vault.Networks.Invariant.{IsWellFormed}

pub network_id-fresh :
    (g : MemInner) (owner : Bytes) (n : ℕ)
    → IsWellFormed g
    → g.next_net < n
    → n ≤ u64_max
    → get g.networks (network_id owner n) ≡ none
network_id-fresh g owner n good late fits =
    let id = network_id owner n in
    elim (Option-cases (get g.networks id)) [
      | inl missing ↦ missing
      | inr (net, there) ↦
          let (r, ranked, old) = (good.networked id net there).numbered in
          let clash : some n ≡ some r = sym (rank-network_id owner n fits) ∙ ranked in
          absurd (ground (arith, clash, old, late))
    ]

pub nic_id-fresh :
    (g : MemInner) (id : NetworkId) (n : ℕ)
    → IsWellFormed g
    → get g.next_nic id ≡ some n
    → n < u32_max
    → get g.nics (nic_id id (suc n)) ≡ none
nic_id-fresh g id n good count room = elim (Option-cases (get g.nics (nic_id id (suc n)))) [
  | inl missing ↦ missing
  | inr (nic, there) ↦
      let (m, r, counts, named, old) = (good.placed (nic_id id (suc n)) nic there).numbered in
      let low : m ≤ u32_max = good.counters nic.network_id m counts in
      let mine = nic_rank-nic_id id (suc n) (omega (arith, room)) in
      let theirs = nic_rank-nic_id nic.network_id r (omega (arith, low, old)) in
      let clash : some (suc n) ≡ some r = sym mine ∙ ap nic_rank named ∙ theirs in
      let ranks : suc n ≡ r = cc clash in
      let same : nic_id id (suc n) ≡ nic_id nic.network_id (suc n) =
        subst (λ k. nic_id id (suc n) ≡ nic_id nic.network_id k) (sym ranks) named in
      let home : id ≡ nic.network_id = nic_id-network id nic.network_id (suc n) same in
      let counts_here : get g.next_nic id ≡ some m = rw home counts in
      let counter : some n ≡ some m = sym count ∙ counts_here in
      let equal : n ≡ m = cc counter in absurd (omega (arith, equal, ranks, old))
]
