-- ===== src/Vault/Networks/History.antt =====
-- Sequences of calls of the network store of crates/celvault/src/network.rs.
use celium.Prelude.{
  ℕ, suc, ◌+◌, ◌≤◌, ◌<◌, ◌≡◌, refl, Option, some, List, [], ◌∷◌, arith, length, inl, inr,
  Option-cases, Bool-cases,
}
use celium.Prelude.Key.{Bytes, bytes_key}
use celium.Prelude.Map.{Map, get, get-empty}
use celium.Prelude.Map.Cases.{insert-cases, remove-cases}
use celium.Prelude.Words.{u32_max}
use celium.Prelude.Error.{CelResult, ok, err, CelResult-cases}
use celium.Vault.Network.{NetworkId, NicId, SecurityGroupId, LoadBalancerId, SecurityRule, Cidr4}
use celium.Vault.Network.Addresses.{parse, parse-IsBlock}
use celium.Vault.Networks.{
  MemInner, new, create_network, create_network_commit, validate_name, delete_network, has_nics,
  delete_network_commit,
}
use celium.Vault.Networks.Nics.{attach_nic, attach_checks, attach_commit, next_counter, detach_nic}
use celium.Vault.Networks.Policies.{
  Frontend, create_security_group, group_checks, group_commit, delete_security_group,
  create_load_balancer, balancer_checks, balancer_commit, delete_load_balancer,
}
use celium.Vault.Networks.Invariant.{IsWellFormed, new-IsWellFormed}
use celium.Vault.Networks.Invariant.Attach.{attach_nic-IsWellFormed}
use celium.Vault.Networks.Invariant.Detach.{detach_nic-IsWellFormed}
use celium.Vault.Networks.Invariant.Create.{create_network-IsWellFormed}
use celium.Vault.Networks.Invariant.Delete.{delete_network-IsWellFormed}
use celium.Vault.Networks.Invariant.Policies.{
  create_security_group-IsWellFormed, delete_security_group-IsWellFormed,
  create_load_balancer-IsWellFormed, delete_load_balancer-IsWellFormed,
}

-- The calls that change the store. The block of a network is the text that `Cidr4::parse` reads.
pub data Call : Type 0 where
  creates : Bytes → Bytes → Bytes → Call
  deletes : NetworkId → Call
  attaches : NetworkId → ℕ → Option ℕ → Call
  detaches : NicId → Call
  groups : Bytes → Bytes → List SecurityRule → Call
  ungroups : SecurityGroupId → Call
  balances : Bytes → Bytes → Frontend → Call
  unbalances : LoadBalancerId → Call

-- A network is created if its block parses.
abbrev create_parsed : MemInner → Bytes → Bytes → CelResult Cidr4 → MemInner
create_parsed g owner name (err e) = g
create_parsed g owner name (ok c) = (create_network g owner name c).0

unfoldable pub step : MemInner → Call → MemInner
step g (creates owner name block) = create_parsed g owner name (parse block)
step g (deletes id) = (delete_network g id).0
step g (attaches id vm_id ip) = (attach_nic g id vm_id ip).0
step g (detaches id) = detach_nic g id
step g (groups owner name rules) = (create_security_group g owner name rules).0
step g (ungroups id) = delete_security_group g id
step g (balances owner name f) = (create_load_balancer g owner name f).0
step g (unbalances id) = delete_load_balancer g id

unfoldable pub run : MemInner → List Call → MemInner
run g [] = g
run g (c ∷ cs) = run (step g c) cs

-- No counter is past the number of calls.
pub record IsCounted (next_net : ℕ) (next_nic : Map NetworkId ℕ) (k : ℕ) : Type 0 where
  pub nets : next_net ≤ k
  pub nics : (id : NetworkId) (n : ℕ) → get next_nic id ≡ some n → n ≤ k

abbrev pub Counts : MemInner → ℕ → Type 0
Counts g k = IsCounted g.next_net g.next_nic k

pub Counts-later : (g : MemInner) (k : ℕ) → Counts g k → Counts g (suc k)
Counts-later g k h = record {
  nets = omega (arith, h.nets);
  nics = λ id n e. omega (arith, h.nics id n e);
}

create-Counts :
    (g : MemInner) (owner name : Bytes) (c : Cidr4) (k : ℕ)
    → Counts g k
    → Counts (create_network g owner name c).0 (suc k)
unfolding create_network create_network_commit
create-Counts g owner name c k h = elim (CelResult-cases (validate_name name)) [
  | inr (e, bad) ↦
      let same : (create_network g owner name c).0 ≡ g = rw (create_network, bad) refl in
      rw same (Counts-later g k h)
  | inl (_, fine) ↦
      let same : (create_network g owner name c).0 ≡ (create_network_commit g owner name c).0 =
        rw (create_network, fine) refl in
      rw same (record {
        nets = omega (arith, h.nets);
        nics = λ id n e. elim (insert-cases _ id 0 n g.next_nic e) [
          | inl (_, zero_count) ↦ omega (arith, zero_count)
          | inr (_, old) ↦ omega (arith, h.nics id n old)
        ];
      })
]

next_counter-le : (g : MemInner) (id : NetworkId) (k : ℕ) → Counts g k → next_counter g id ≤ suc k
next_counter-le g id k h = elim (Option-cases (get g.next_nic id)) [
  | inl missing ↦ rw (next_counter, missing) (omega arith)
  | inr (n, there) ↦ rw (next_counter, there) (omega (arith, h.nics id n there))
]

attach-Counts :
    (g : MemInner) (id : NetworkId) (vm_id : ℕ) (ip : Option ℕ) (k : ℕ)
    → Counts g k
    → Counts (attach_nic g id vm_id ip).0 (suc k)
unfolding attach_nic attach_commit
attach-Counts g id vm_id ip k h = elim (CelResult-cases (attach_checks g id ip)) [
  | inr (e, bad) ↦
      let same : (attach_nic g id vm_id ip).0 ≡ g = rw (attach_nic, bad) refl in
      rw same (Counts-later g k h)
  | inl (a, fine) ↦
      let same : (attach_nic g id vm_id ip).0 ≡ (attach_commit g id vm_id a).0 =
        rw (attach_nic, fine) refl in
      rw same (record {
        nets = omega (arith, h.nets);
        nics = λ j n e. elim (insert-cases id j (next_counter g id) n g.next_nic e) [
          | inl (_, given) ↦ omega (arith, given, next_counter-le g id k h)
          | inr (_, old) ↦ omega (arith, h.nics j n old)
        ];
      })
]

-- Each of the other calls leaves the counters or drops one.
pub step-Counts : (g : MemInner) (c : Call) (k : ℕ) → Counts g k → Counts (step g c) (suc k)
unfolding step delete_network delete_network_commit detach_nic create_security_group group_commit
    delete_security_group create_load_balancer balancer_commit delete_load_balancer
step-Counts g (creates owner name block) k h = elim (CelResult-cases (parse block)) [
  | inr (e, bad) ↦ rw (step, bad) (Counts-later g k h)
  | inl (c, fine) ↦ rw (step, fine) (create-Counts g owner name c k h)
]
step-Counts g (deletes id) k h = elim (Bool-cases (has_nics g id)) [
  | inl busy ↦ rw (step, delete_network, busy) (Counts-later g k h)
  | inr unused ↦
      rw (step, delete_network, unused)
        (record {
          nets = omega (arith, h.nets);
          nics = λ j n e. omega (arith, h.nics j n (remove-cases id j n g.next_nic e).1);
        })
]
step-Counts g (attaches id vm_id ip) k h = attach-Counts g id vm_id ip k h
step-Counts g (detaches id) k h = elim (Option-cases (get g.nics id)) [
  | inl missing ↦ rw (step, detach_nic, missing) (Counts-later g k h)
  | inr (nic, there) ↦ rw (step, detach_nic, there) (Counts-later g k h)
]
step-Counts g (groups owner name rules) k h = elim (CelResult-cases (group_checks name rules)) [
  | inr (e, bad) ↦ rw (step, create_security_group, bad) (Counts-later g k h)
  | inl (_, fine) ↦ rw (step, create_security_group, fine) (Counts-later g k h)
]
step-Counts g (ungroups id) k h = Counts-later g k h
step-Counts g (balances owner name f) k h = elim (CelResult-cases (balancer_checks g name f)) [
  | inr (e, bad) ↦ rw (step, create_load_balancer, bad) (Counts-later g k h)
  | inl (_, fine) ↦ rw (step, create_load_balancer, fine) (Counts-later g k h)
]
step-Counts g (unbalances id) k h = Counts-later g k h

pub step-IsWellFormed :
    (g : MemInner) (c : Call) (k : ℕ)
    → Counts g k
    → k < u32_max
    → IsWellFormed g
    → IsWellFormed (step g c)
unfolding step
step-IsWellFormed g (creates owner name block) k h room good =
    elim (CelResult-cases (parse block)) [
      | inr (e, bad) ↦ rw (step, bad) good
      | inl (c, fine) ↦
          rw (step, fine)
            (create_network-IsWellFormed g owner name c good (parse-IsBlock block c fine)
              (omega (arith, h.nets, room)))
    ]
step-IsWellFormed g (deletes id) k h room good = delete_network-IsWellFormed g id good
step-IsWellFormed g (attaches id vm_id ip) k h room good =
    attach_nic-IsWellFormed g id vm_id ip good (λ n e. omega (arith, h.nics id n e, room))
step-IsWellFormed g (detaches id) k h room good = detach_nic-IsWellFormed g id good
step-IsWellFormed g (groups owner name rules) k h room good =
    create_security_group-IsWellFormed g owner name rules good
step-IsWellFormed g (ungroups id) k h room good = delete_security_group-IsWellFormed g id good
step-IsWellFormed g (balances owner name f) k h room good =
    create_load_balancer-IsWellFormed g owner name f good
step-IsWellFormed g (unbalances id) k h room good = delete_load_balancer-IsWellFormed g id good

run_from-IsWellFormed :
    (cs : List Call) (g : MemInner) (k : ℕ)
    → Counts g k
    → k + length cs ≤ u32_max
    → IsWellFormed g
    → IsWellFormed (run g cs)
unfolding run
run_from-IsWellFormed [] g k h room good = good
run_from-IsWellFormed (c ∷ cs) g k h room good =
    run_from-IsWellFormed cs (step g c) (suc k) (step-Counts g c k h) (omega (arith, room))
      (step-IsWellFormed g c k h (omega (arith, room)) good)

-- Every state that fewer than 2^32 calls reach from the empty network store is well-formed: each
-- NIC has an address of its network's block that is booked for it and for no other, each booked
-- address belongs to such a NIC, no network has more than 256 addresses in use, and the addresses
-- of each load balancer are in the block of a network that is there.
pub run_networks-IsWellFormed : (cs : List Call) → length cs ≤ u32_max → IsWellFormed (run new cs)
unfolding new
run_networks-IsWellFormed cs room =
    run_from-IsWellFormed cs new 0
      (record { nets = omega arith; nics = λ id n e. absurd (cc (get-empty id, e)) })
      (omega (arith, room)) new-IsWellFormed
