-- ===== src/Vault/Networks/Invariant/Detach.antt =====
-- `detach_nic` of crates/celvault/src/network.rs keeps the network store well-formed.
use celium.Prelude.{
  ℕ, ◌≡◌, ◌⊎◌, refl, sym, ap, ◌∙◌, subst, false, some, arith, inl, inr, Bool-cases, Option-cases,
  eqb, eqb_iff,
}
use celium.Prelude.Key.{bytes_eq, bytes_eq_iff, bytes_key, nat_key}
use celium.Prelude.Map.{get, insert, remove, len, get-insert_self}
use celium.Prelude.Map.Cases.{get-insert_other, get-remove_other, insert-cases, remove-cases}
use celium.Prelude.Map.Sizes.{len-remove}
use celium.Vault.Network.{NetworkId, NicId, VirtualNetwork, Nic}
use celium.Vault.Networks.{MemInner, UsedIps}
use celium.Vault.Networks.Nics.{detach_nic, release}
use celium.Vault.Networks.Invariant.{IsNetwork, IsNic, IsWellFormed}

-- The state behind `detach_nic`, from the NIC and the addresses in use.
abbrev detached : MemInner → NicId → Nic → UsedIps → MemInner
detached g id nic used = record g {
  nics = remove id g.nics;
  used_ips = insert nic.network_id (remove nic.ip used) g.used_ips;
}

module _ (g : MemInner) (id : NicId) (nic : Nic) (used : UsedIps) (good : IsWellFormed g)
    (there : get g.nics id ≡ some nic) (pool : get g.used_ips nic.network_id ≡ some used)
    (mine : get used nic.ip ≡ some id) where
  IsNetwork-left :
      (k : NetworkId) (net : VirtualNetwork)
      → IsNetwork g k net
      → IsNetwork (detached g id nic used) k net
  IsNetwork-left k net h = record {
    named = h.named;
    numbered = h.numbered;
    block = h.block;
    counter = h.counter;
    pool = elim (Bool-cases (bytes_eq nic.network_id k)) [
      | inl same ↦
          let name : nic.network_id ≡ k = (bytes_eq_iff nic.network_id k).0 same in
          let (u, at, small) = h.pool in
          let equal : some u ≡ some used = sym at ∙ ap (get g.used_ips) (sym name) ∙ pool in
          let shared : u ≡ used = cc equal in
          (
            remove nic.ip used,
            subst
                (λ j.
                  get (insert nic.network_id (remove nic.ip used) g.used_ips) j
                  ≡ some (remove nic.ip used))
                name (get-insert_self nic.network_id (remove nic.ip used) g.used_ips),
            omega (arith, len-remove nic.ip used, ap (λ (m : UsedIps). len m) shared, small),
          )
      | inr other ↦
          let (u, at, small) = h.pool in
          (u, get-insert_other nic.network_id k _ g.used_ips other ∙ at, small)
    ];
  }

  -- A NIC that has another network or another address has another id.
  other_nic :
      (nid : NicId) (x : Nic)
      → get g.nics nid ≡ some x
      → (bytes_eq nic.network_id x.network_id ≡ false) ⊎ (eqb nic.ip x.ip ≡ false)
      → bytes_eq id nid ≡ false
  other_nic nid x at differs = elim (Bool-cases (bytes_eq id nid)) [
    | inr other ↦ other
    | inl same ↦
        let name : id ≡ nid = (bytes_eq_iff id nid).0 same in
        let found : some nic ≡ some x = sym there ∙ ap (get g.nics) name ∙ at in
        let equal : nic ≡ x = cc found in
        elim differs [
          | inl networks ↦ absurd (
              cc (
                networks,
                (bytes_eq_iff nic.network_id x.network_id).1 (ap (λ (y : Nic). y.network_id) equal),
              ))
          | inr addresses ↦
              absurd (cc (addresses, (eqb_iff nic.ip x.ip).1 (ap (λ (y : Nic). y.ip) equal)))
        ]
  ]

  IsNic-left :
      (k : NicId) (x : Nic)
      → bytes_eq id k ≡ false
      → IsNic g k x
      → IsNic (detached g id nic used) k x
  IsNic-left k x differs h = record {
    named = h.named;
    home = h.home;
    numbered = h.numbered;
    booked = elim (Bool-cases (bytes_eq nic.network_id x.network_id)) [
      | inr other ↦
          let (u, at, has) = h.booked in
          (u, get-insert_other nic.network_id x.network_id _ g.used_ips other ∙ at, has)
      | inl same ↦
          let name : nic.network_id ≡ x.network_id =
            (bytes_eq_iff nic.network_id x.network_id).0 same in
          let (u, at, has) = h.booked in
          let equal : some u ≡ some used = sym at ∙ ap (get g.used_ips) (sym name) ∙ pool in
          let shared : u ≡ used = cc equal in
          let here : get used x.ip ≡ some k = subst (λ m. get m x.ip ≡ some k) shared has in
          (
            remove nic.ip used,
            subst
                (λ j.
                  get (insert nic.network_id (remove nic.ip used) g.used_ips) j
                  ≡ some (remove nic.ip used))
                name (get-insert_self nic.network_id (remove nic.ip used) g.used_ips),
            elim (Bool-cases (eqb nic.ip x.ip)) [
              | inr apart ↦ get-remove_other nic.ip x.ip used apart ∙ here
              | inl shares ↦
                  let address : nic.ip ≡ x.ip = (eqb_iff nic.ip x.ip).0 shares in
                  let clash : some id ≡ some k = sym mine ∙ ap (get used) address ∙ here in
                  let ids : id ≡ k = cc clash in absurd (cc (differs, (bytes_eq_iff id k).1 ids))
            ],
          )
    ];
  }

  assigned_left :
      (k : NetworkId) (u : UsedIps) (a : ℕ) (nid : NicId)
      → get (detached g id nic used).used_ips k ≡ some u
      → get u a ≡ some nid
      → (x : Nic) × (get (remove id g.nics) nid ≡ some x) × (x.network_id ≡ k) × (x.ip ≡ a)
  assigned_left k u a nid e f =
      elim (insert-cases nic.network_id k (remove nic.ip used) u g.used_ips e) [
        | inl (name, same) ↦
            let (apart, old) =
              remove-cases nic.ip a nid used (subst (λ m. get m a ≡ some nid) (sym same) f) in
            let (x, at, of, has) = good.assigned nic.network_id used a nid pool old in
            let differs = other_nic nid x at (inr (rw has apart)) in
            (x, get-remove_other id nid g.nics differs ∙ at, of ∙ name, has)
        | inr (other, old) ↦
            let (x, at, of, has) = good.assigned k u a nid old f in
            let differs = other_nic nid x at (inl (rw of other)) in
            (x, get-remove_other id nid g.nics differs ∙ at, of, has)
      ]

  detached-IsWellFormed : IsWellFormed (detached g id nic used)
  detached-IsWellFormed = record {
    counted = good.counted;
    counters = good.counters;
    networked = λ k net e. IsNetwork-left k net (good.networked k net e);
    pooled = λ k u e. elim (insert-cases nic.network_id k (remove nic.ip used) u g.used_ips e) [
      | inl (name, _) ↦
          let (net, at) = good.pooled nic.network_id used pool in
          (net, ap (get g.networks) (sym name) ∙ at)
      | inr (_, old) ↦ good.pooled k u old
    ];
    assigned = assigned_left;
    placed = λ k x e.
        let (differs, old) = remove-cases id k x g.nics e in
        IsNic-left k x differs (good.placed k x old);
    balanced = λ k lb e. record { home = (good.balanced k lb e).home };
  }

pub detach_nic-IsWellFormed :
    (g : MemInner) (id : NicId) → IsWellFormed g → IsWellFormed (detach_nic g id)
unfolding detach_nic
detach_nic-IsWellFormed g id good = elim (Option-cases (get g.nics id)) [
  | inl missing ↦ let same : detach_nic g id ≡ g = rw (detach_nic, missing) refl in rw same good
  | inr (nic, there) ↦
      let (used, pool, mine) = (good.placed id nic there).booked in
      let same : detach_nic g id ≡ detached g id nic used =
        rw (detach_nic, there, release, pool) refl in
      rw same (detached-IsWellFormed g id nic used good there pool mine)
]
