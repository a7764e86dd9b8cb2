-- ===== src/Vault/Networks/Invariant/Attached.antt =====
-- The state that `attach_nic` of crates/celvault/src/network.rs leaves behind is well-formed.
use celium.Prelude.{
  ℕ, suc, ◌<◌, ◌≡◌, refl, sym, ap, ◌∙◌, subst, true, none, some, arith, inl, inr, Bool-cases,
}
use celium.Prelude.Key.{bytes_eq, bytes_eq_iff, bytes_key, nat_key}
use celium.Prelude.Map.{get, insert, len, get-insert_self}
use celium.Prelude.Map.Cases.{get-insert_other, get-insert_fresh, insert-cases}
use celium.Prelude.Map.Sizes.{len-insert}
use celium.Prelude.Words.{u32_max}
use celium.Vault.Network.{NetworkId, NicId, VirtualNetwork, Nic}
use celium.Vault.Network.Blocks.{contains}
use celium.Vault.Networks.{MemInner, UsedIps, nic_id, max_nics_per_network}
use celium.Vault.Networks.Invariant.{IsNetwork, IsNic, IsWellFormed}

-- The state behind `attach_nic`, from the new NIC and the addresses in use before.
abbrev pub attached : MemInner → Nic → UsedIps → ℕ → MemInner
attached g nic used n = record g {
  next_nic = insert nic.network_id n g.next_nic;
  used_ips = insert nic.network_id (insert nic.ip nic.id used) g.used_ips;
  nics = insert nic.id nic g.nics;
}

-- A NIC that can be attached: its network is there with a number to give, and its address is free.
pub record Attachable (g : MemInner) (nic : Nic) (used : UsedIps) (n : ℕ) : Type 0 where
  pub home :
      (net : VirtualNetwork) × (get g.networks nic.network_id ≡ some net)
      × (contains net.cidr nic.ip ≡ true)
  pub pool : get g.used_ips nic.network_id ≡ some used
  pub few : len used < max_nics_per_network
  pub free : get used nic.ip ≡ none
  pub count : get g.next_nic nic.network_id ≡ some n
  pub room : n < u32_max
  pub fresh : get g.nics nic.id ≡ none
  pub name : nic.id ≡ nic_id nic.network_id (suc n)

module _ (g : MemInner) (nic : Nic) (used : UsedIps) (n : ℕ) (here : Attachable g nic used n)
    (good : IsWellFormed g) where
  -- The pool of a network, as it was or with the new address.
  IsNetwork-after :
      (id : NetworkId) (net : VirtualNetwork)
      → IsNetwork g id net
      → IsNetwork (attached g nic used (suc n)) id net
  IsNetwork-after id net h = record {
    named = h.named;
    numbered = h.numbered;
    block = h.block;
    pool = elim (Bool-cases (bytes_eq nic.network_id id)) [
      | inl same ↦ (
        insert nic.ip nic.id used,
        subst
            (λ k.
              get (insert nic.network_id (insert nic.ip nic.id used) g.used_ips) k
              ≡ some (insert nic.ip nic.id used))
            ((bytes_eq_iff nic.network_id id).0 same)
            (get-insert_self nic.network_id (insert nic.ip nic.id used) g.used_ips),
        omega (arith, len-insert nic.ip nic.id used, here.few),
      )
      | inr other ↦
          let (u, there, small) = h.pool in
          (u, get-insert_other nic.network_id id _ g.used_ips other ∙ there, small)
    ];
    counter = elim (Bool-cases (bytes_eq nic.network_id id)) [
      | inl same ↦ (
        suc n,
        subst (λ k. get (insert nic.network_id (suc n) g.next_nic) k ≡ some (suc n))
            ((bytes_eq_iff nic.network_id id).0 same)
            (get-insert_self nic.network_id (suc n) g.next_nic),
      )
      | inr other ↦
          let (m, there) = h.counter in
          (m, get-insert_other nic.network_id id (suc n) g.next_nic other ∙ there)
    ];
  }

  -- A NIC that was there before.
  IsNic-after :
      (id : NicId) (old : Nic) → IsNic g id old → IsNic (attached g nic used (suc n)) id old
  IsNic-after id old h = record {
    named = h.named;
    home = h.home;
    booked = elim (Bool-cases (bytes_eq nic.network_id old.network_id)) [
      | inl same ↦
          let name : nic.network_id ≡ old.network_id =
            (bytes_eq_iff nic.network_id old.network_id).0 same in
          let (u, pool, mine) = h.booked in
          let equal : some u ≡ some used = sym pool ∙ ap (get g.used_ips) (sym name) ∙ here.pool in
          let shared : u ≡ used = cc equal in
          (
            insert nic.ip nic.id used,
            subst
                (λ k.
                  get (insert nic.network_id (insert nic.ip nic.id used) g.used_ips) k
                  ≡ some (insert nic.ip nic.id used))
                name (get-insert_self nic.network_id (insert nic.ip nic.id used) g.used_ips),
            get-insert_fresh nic.ip old.ip nic.id id used here.free
                (subst (λ x. get x old.ip ≡ some id) shared mine),
          )
      | inr other ↦
          let (u, pool, mine) = h.booked in
          (u, get-insert_other nic.network_id old.network_id _ g.used_ips other ∙ pool, mine)
    ];
    numbered = elim (Bool-cases (bytes_eq nic.network_id old.network_id)) [
      | inl same ↦
          let name : nic.network_id ≡ old.network_id =
            (bytes_eq_iff nic.network_id old.network_id).0 same in
          let (m, r, count, named, low) = h.numbered in
          let equal : some m ≡ some n = sym count ∙ ap (get g.next_nic) (sym name) ∙ here.count in
          let counts : m ≡ n = cc equal in
          (
            suc n,
            r,
            subst (λ k. get (insert nic.network_id (suc n) g.next_nic) k ≡ some (suc n)) name
                (get-insert_self nic.network_id (suc n) g.next_nic),
            named,
            omega (arith, low, counts),
          )
      | inr other ↦
          let (m, r, count, named, low) = h.numbered in
          (
            m,
            r,
            get-insert_other nic.network_id old.network_id (suc n) g.next_nic other ∙ count,
            named,
            low,
          )
    ];
  }

  new-IsNic : IsNic (attached g nic used (suc n)) nic.id nic
  new-IsNic = record {
    named = refl;
    home = here.home;
    booked = (
      insert nic.ip nic.id used,
      get-insert_self nic.network_id (insert nic.ip nic.id used) g.used_ips,
      get-insert_self nic.ip nic.id used,
    );
    numbered =
        (suc n, suc n, get-insert_self nic.network_id (suc n) g.next_nic, here.name, omega arith);
  }

  -- An address in use, of the new NIC or of another.
  assigned_after :
      (id : NetworkId) (u : UsedIps) (a : ℕ) (nid : NicId)
      → get (attached g nic used (suc n)).used_ips id ≡ some u
      → get u a ≡ some nid
      → (x : Nic) × (get (attached g nic used (suc n)).nics nid ≡ some x)
        × (x.network_id ≡ id)
        × (x.ip ≡ a)
  assigned_after id u a nid e f =
      elim (insert-cases nic.network_id id (insert nic.ip nic.id used) u g.used_ips e) [
        | inl (name, same) ↦
            let at : get (insert nic.ip nic.id used) a ≡ some nid =
              subst (λ m. get m a ≡ some nid) (sym same) f in
            elim (insert-cases nic.ip a nic.id nid used at) [
              | inl (address, mine) ↦ (
                nic,
                subst (λ k. get (insert nic.id nic g.nics) k ≡ some nic) mine
                    (get-insert_self nic.id nic g.nics),
                name,
                address,
              )
              | inr (_, old) ↦
                  let (x, there, of, has) = good.assigned nic.network_id used a nid here.pool old in
                  (x, get-insert_fresh nic.id nid nic x g.nics here.fresh there, of ∙ name, has)
            ]
        | inr (_, old) ↦
            let (x, there, of, has) = good.assigned id u a nid old f in
            (x, get-insert_fresh nic.id nid nic x g.nics here.fresh there, of, has)
      ]

  pub attached-IsWellFormed : IsWellFormed (attached g nic used (suc n))
  attached-IsWellFormed = record {
    counted = good.counted;
    counters = λ id m e. elim (insert-cases nic.network_id id (suc n) m g.next_nic e) [
      | inl (_, same) ↦ omega (arith, same, here.room)
      | inr (_, old) ↦ good.counters id m old
    ];
    networked = λ id net e. IsNetwork-after id net (good.networked id net e);
    pooled = λ id u e.
        elim (insert-cases nic.network_id id (insert nic.ip nic.id used) u g.used_ips e) [
          | inl (name, _) ↦
              let (net, there, _) = here.home in (net, ap (get g.networks) (sym name) ∙ there)
          | inr (_, old) ↦ good.pooled id u old
        ];
    assigned = assigned_after;
    placed = λ id x e. elim (insert-cases nic.id id nic x g.nics e) [
      | inl (name, same) ↦
          subst (λ y. IsNic (attached g nic used (suc n)) id y) same
            (subst (λ k. IsNic (attached g nic used (suc n)) k nic) name new-IsNic)
      | inr (_, old) ↦ IsNic-after id x (good.placed id x old)
    ];
    balanced = λ id lb e. record { home = (good.balanced id lb e).home };
  }
