-- ===== src/Vault/Networks/Deletion.antt =====
-- `delete_network` of crates/celvault/src/network.rs is refused for a network with NICs, and for no
-- other.
use celium.Prelude.{◌≡◌, ◌↔◌, refl, ap, true, some, arith, inl, inr, Bool-cases, Option-cases, ltb}
use celium.Prelude.Key.{bytes_key, nat_key}
use celium.Prelude.Map.{get, len}
use celium.Prelude.Map.Sizes.{remove-less, some_entry}
use celium.Prelude.Error.{err, invalid}
use celium.Vault.Network.{NetworkId, NicId, Nic}
use celium.Vault.Networks.{MemInner, delete_network, has_nics}
use celium.Vault.Networks.Invariant.{IsWellFormed}

has_nics_iff :
    (g : MemInner) (id : NetworkId)
    → IsWellFormed g
    → (has_nics g id ≡ true)
      ↔ ((nid : NicId) × (nic : Nic) × (get g.nics nid ≡ some nic) × (nic.network_id ≡ id))
has_nics_iff g id good = (
  (λ busy. elim (Option-cases (get g.used_ips id)) [
    | inl missing ↦ absurd (cc (rw (has_nics, missing) at busy))
    | inr (used, pool) ↦
        let full : ltb 0 (len used) ≡ true = rw (has_nics, pool) at busy in
        let (a, nid, booked) = some_entry used (ground (arith, full)) in
        let (nic, there, of, has) = good.assigned id used a nid pool booked in (nid, nic, there, of)
  ]),
  (λ e.
      let (nid, nic, there, of) = e in
      let (used, pool, booked) = (good.placed nid nic there).booked in
      let here : get g.used_ips id ≡ some used = rw (← of) pool in
      rw (has_nics, here) (ground (arith, remove-less nic.ip nid used booked))),
)

-- In a well-formed network store the deletion of a network is refused exactly if a NIC of the
-- store is on that network.
pub delete_network-refused :
    (g : MemInner) (id : NetworkId)
    → IsWellFormed g
    → (delete_network g id ≡ (g, err (invalid "network: NICs still attached")))
      ↔ ((nid : NicId) × (nic : Nic) × (get g.nics nid ≡ some nic) × (nic.network_id ≡ id))
unfolding delete_network
delete_network-refused g id good = elim (Bool-cases (has_nics g id)) [
  | inl busy ↦ ((λ _. (has_nics_iff g id good).0 busy), (λ _. rw (delete_network, busy) refl))
  | inr free ↦ (
    (λ e.
        let outcome : (delete_network g id).1 ≡ err (invalid "network: NICs still attached") =
          ap (λ r. r.1) e in
        absurd (cc (rw (delete_network, free) at outcome))),
    (λ there. absurd (cc (free, (has_nics_iff g id good).1 there))),
  )
]
