-- ===== src/Vault/Networks/Invariant/Attach.antt =====
-- `attach_nic` of crates/celvault/src/network.rs keeps the network store well-formed.
use celium.Prelude.{
  ℕ, suc, ◌<◌, ◌≡◌, refl, ap, ◌∙◌, subst, true, Option, none, some, arith, inl, inr, Bool-cases,
  Option-cases, leb,
}
use celium.Prelude.Key.{bytes_key, nat_key}
use celium.Prelude.Map.{get, len}
use celium.Prelude.Error.{ok, CelResult-cases}
use celium.Prelude.Words.{u32_max}
use celium.Vault.Network.{NetworkId, VirtualNetwork, Nic, Cidr4}
use celium.Vault.Network.Blocks.{IsBlock, contains, nth_host-contains, capacity}
use celium.Vault.Networks.{MemInner, UsedIps, nic_id, max_nics_per_network}
use celium.Vault.Networks.Nics.{
  attach_nic, attach_checks, attach_commit, choose_ip, used_of, is_used, scan, make_mac,
  next_counter,
}
use celium.Vault.Networks.Scan.{scan-some}
use celium.Vault.Networks.Invariant.{IsWellFormed}
use celium.Vault.Networks.Invariant.Fresh.{nic_id-fresh}
use celium.Vault.Networks.Invariant.Attached.{attached, attached-IsWellFormed}

choose_ip-ok :
    (c : Cidr4) (used : UsedIps) (ip : Option ℕ) (a : ℕ)
    → IsBlock c
    → choose_ip c used ip ≡ ok a
    → (contains c a ≡ true) × (get used a ≡ none)
unfolding choose_ip
choose_ip-ok c used (some req) a block e = elim (Bool-cases (contains c req)) [
  | inr outside ↦ absurd (cc (rw (choose_ip, outside) at e))
  | inl inside ↦ elim (Option-cases (get used req)) [
    | inr (id, there) ↦ absurd (cc (rw (choose_ip, inside, is_used, there) at e))
    | inl missing ↦
        let done : ok req ≡ ok a = rw (choose_ip, inside, is_used, missing) at e in
        let same : req ≡ a = cc done in
        subst (λ x. (contains c x ≡ true) × (get used x ≡ none)) same (inside, missing)
  ]
]
choose_ip-ok c used none a block e = elim (Option-cases (scan c used (capacity c) 1)) [
  | inl full ↦ absurd (cc (rw (choose_ip, full) at e))
  | inr (b, found) ↦
      let done : ok b ≡ ok a = rw (choose_ip, found) at e in
      let same : b ≡ a = cc done in
      let (n, first) =
        scan-some c used (capacity c) 1 a (omega arith) (omega arith)
          (λ i p low. absurd (omega (arith, p, low))) (found ∙ ap some same) in
      ((nth_host-contains c n a block first.host).0, first.free)
]

attach_checks-ok :
    (g : MemInner) (id : NetworkId) (ip : Option ℕ) (a : ℕ)
    → IsWellFormed g
    → attach_checks g id ip ≡ ok a
    → (net : VirtualNetwork) × (get g.networks id ≡ some net)
      × (contains net.cidr a ≡ true)
      × (get (used_of g id) a ≡ none)
      × (len (used_of g id) < max_nics_per_network)
attach_checks-ok g id ip a good e = elim (Option-cases (get g.networks id)) [
  | inl missing ↦ absurd (cc (rw (attach_checks, missing) at e))
  | inr (net, there) ↦ elim (Bool-cases (leb max_nics_per_network (len (used_of g id)))) [
    | inl full ↦ absurd (cc (rw (attach_checks, there, full) at e))
    | inr room ↦
        let chosen : choose_ip net.cidr (used_of g id) ip ≡ ok a =
          rw (attach_checks, there, room) at e in
        let (inside, free) =
          choose_ip-ok net.cidr (used_of g id) ip a (good.networked id net there).block chosen in
        (net, there, inside, free, ground (arith, room))
  ]
]

attach_commit-IsWellFormed :
    (g : MemInner) (id : NetworkId) (vm_id a n : ℕ) (net : VirtualNetwork) (used : UsedIps)
    → IsWellFormed g
    → get g.networks id ≡ some net
    → contains net.cidr a ≡ true
    → get g.used_ips id ≡ some used
    → get used a ≡ none
    → len used < max_nics_per_network
    → get g.next_nic id ≡ some n
    → n < u32_max
    → IsWellFormed (attach_commit g id vm_id a).0
unfolding attach_commit
attach_commit-IsWellFormed g id vm_id a n net used good there inside pool free few count room =
    let nic : Nic = record {
      id = nic_id id (suc n);
      network_id = id;
      vm_id = vm_id;
      ip = a;
      mac = make_mac id (suc n);
    } in
    let step : next_counter g id ≡ suc n = rw (next_counter, count) (omega (arith, room)) in
    let same : (attach_commit g id vm_id a).0 ≡ attached g nic used (suc n) =
      rw (attach_commit, step, used_of, pool) refl in
    rw same (
      attached-IsWellFormed g nic used n
        (record {
          home = (net, there, inside);
          pool = pool;
          few = few;
          free = free;
          count = count;
          room = room;
          fresh = nic_id-fresh g id n good count room;
          name = refl;
        })
        good)

pub attach_nic-IsWellFormed :
    (g : MemInner) (id : NetworkId) (vm_id : ℕ) (ip : Option ℕ)
    → IsWellFormed g
    → ((n : ℕ) → get g.next_nic id ≡ some n → n < u32_max)
    → IsWellFormed (attach_nic g id vm_id ip).0
unfolding attach_nic
attach_nic-IsWellFormed g id vm_id ip good room = elim (CelResult-cases (attach_checks g id ip)) [
  | inr (e, bad) ↦
      let same : (attach_nic g id vm_id ip).0 ≡ g = rw (attach_nic, bad) refl in rw same good
  | inl (a, fine) ↦
      let same : (attach_nic g id vm_id ip).0 ≡ (attach_commit g id vm_id a).0 =
        rw (attach_nic, fine) refl in
      let (net, there, inside, free, few) = attach_checks-ok g id ip a good fine in
      let known = good.networked id net there in
      let (used, pool, _) = known.pool in
      let (n, count) = known.counter in
      let shared : used_of g id ≡ used = rw (used_of, pool) refl in
      rw same (
        attach_commit-IsWellFormed g id vm_id a n net used good there inside pool
          (rw shared at free) (rw shared at few) count (room n count))
]
