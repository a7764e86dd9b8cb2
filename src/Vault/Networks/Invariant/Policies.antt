-- ===== src/Vault/Networks/Invariant/Policies.antt =====
-- Security groups and load balancers of crates/celvault/src/network.rs: their operations keep the
-- network store well-formed.
use celium.Prelude.{
  ℕ, ◌≡◌, refl, subst, true, some, inl, inr, Bool-cases, Option-cases, all, List, ltb, length,
}
use celium.Prelude.Key.{Bytes, bytes_key}
use celium.Prelude.Map.{Map, get, remove}
use celium.Prelude.Map.Cases.{insert-cases, remove-cases}
use celium.Prelude.Error.{ok, CelResult-cases}
use celium.Vault.Network.{
  LoadBalancerId, SecurityGroupId, SecurityGroup, SecurityRule, VirtualNetwork, LoadBalancer,
}
use celium.Vault.Network.Blocks.{contains}
use celium.Vault.Networks.{MemInner, balancer_id, validate_name, max_backends_per_lb}
use celium.Vault.Networks.Policies.{
  Frontend, create_security_group, group_checks, group_commit, delete_security_group,
  create_load_balancer, balancer_checks, balancer_commit, delete_load_balancer,
}
use celium.Vault.Networks.Invariant.{IsBalancer, IsWellFormed}

-- The state with other policies.
abbrev with_policies :
    MemInner
    → ℕ
    → ℕ
    → Map SecurityGroupId SecurityGroup
    → Map LoadBalancerId LoadBalancer
    → MemInner
with_policies g sg lb sgs lbs = record g { next_sg = sg; next_lb = lb; sgs = sgs; lbs = lbs }

-- Policies do not bear on the networks and their NICs.
with_policies-IsWellFormed :
    (g : MemInner) (sg lb : ℕ) (sgs : Map SecurityGroupId SecurityGroup)
    (lbs : Map LoadBalancerId LoadBalancer)
    → IsWellFormed g
    → ((id : LoadBalancerId) (x : LoadBalancer) → get lbs id ≡ some x → IsBalancer g x)
    → IsWellFormed (with_policies g sg lb sgs lbs)
with_policies-IsWellFormed g sg lb sgs lbs good balanced = record {
  counted = good.counted;
  counters = good.counters;
  networked = λ id net e.
      let h = good.networked id net e in
      record {
        named = h.named;
        numbered = h.numbered;
        block = h.block;
        pool = h.pool;
        counter = h.counter;
      };
  pooled = good.pooled;
  assigned = good.assigned;
  placed = λ id x e.
      let h = good.placed id x e in
      record { named = h.named; home = h.home; booked = h.booked; numbered = h.numbered };
  balanced = λ id x e. record { home = (balanced id x e).home };
}

pub create_security_group-IsWellFormed :
    (g : MemInner) (owner name : Bytes) (rules : List SecurityRule)
    → IsWellFormed g
    → IsWellFormed (create_security_group g owner name rules).0
unfolding create_security_group group_commit
create_security_group-IsWellFormed g owner name rules good =
    elim (CelResult-cases (group_checks name rules)) [
      | inr (e, bad) ↦
          let same : (create_security_group g owner name rules).0 ≡ g =
            rw (create_security_group, bad) refl in
          rw same good
      | inl (_, fine) ↦
          let after = (group_commit g owner name rules).0 in
          let same : (create_security_group g owner name rules).0
              ≡ with_policies g after.next_sg g.next_lb after.sgs g.lbs =
            rw (create_security_group, fine, group_commit) refl in
          rw same (
            with_policies-IsWellFormed g after.next_sg g.next_lb after.sgs g.lbs good good.balanced)
    ]

pub delete_security_group-IsWellFormed :
    (g : MemInner) (id : SecurityGroupId)
    → IsWellFormed g
    → IsWellFormed (delete_security_group g id)
unfolding delete_security_group
delete_security_group-IsWellFormed g id good =
    with_policies-IsWellFormed g g.next_sg g.next_lb (remove id g.sgs) g.lbs good good.balanced

pub delete_load_balancer-IsWellFormed :
    (g : MemInner) (id : LoadBalancerId) → IsWellFormed g → IsWellFormed (delete_load_balancer g id)
unfolding delete_load_balancer
delete_load_balancer-IsWellFormed g id good =
    with_policies-IsWellFormed g g.next_sg g.next_lb g.sgs (remove id g.lbs) good
      (λ k x e. good.balanced k x (remove-cases id k x g.lbs e).1)

-- The addresses of a load balancer that passes the checks.
balancer_checks-ok :
    (g : MemInner) (name : Bytes) (f : Frontend) (u : Unit {0})
    → balancer_checks g name f ≡ ok u
    → (net : VirtualNetwork) × (get g.networks f.network_id ≡ some net)
      × (contains net.cidr f.vip ≡ true)
      × (all (λ b. contains net.cidr b.ip) f.backends ≡ true)
balancer_checks-ok g name f u e = elim (CelResult-cases (validate_name name)) [
  | inr (x, bad) ↦ absurd (cc (rw (balancer_checks, bad) at e))
  | inl (_, named) ↦ elim (Bool-cases (ltb max_backends_per_lb (length f.backends))) [
    | inl many ↦ absurd (cc (rw (balancer_checks, named, many) at e))
    | inr few ↦ elim (Option-cases (get g.networks f.network_id)) [
      | inl missing ↦ absurd (cc (rw (balancer_checks, named, few, missing) at e))
      | inr (net, there) ↦ elim (Bool-cases (contains net.cidr f.vip)) [
        | inr outside ↦ absurd (cc (rw (balancer_checks, named, few, there, outside) at e))
        | inl inside ↦ elim (Bool-cases (all (λ b. contains net.cidr b.ip) f.backends)) [
          | inl members ↦ (net, there, inside, members)
          | inr strays ↦ absurd (cc (rw (balancer_checks, named, few, there, inside, strays) at e))
        ]
      ]
    ]
  ]
]

pub create_load_balancer-IsWellFormed :
    (g : MemInner) (owner name : Bytes) (f : Frontend)
    → IsWellFormed g
    → IsWellFormed (create_load_balancer g owner name f).0
unfolding create_load_balancer balancer_commit
create_load_balancer-IsWellFormed g owner name f good =
    elim (CelResult-cases (balancer_checks g name f)) [
      | inr (e, bad) ↦
          let same : (create_load_balancer g owner name f).0 ≡ g =
            rw (create_load_balancer, bad) refl in
          rw same good
      | inl (u, fine) ↦
          let (after, lb) = balancer_commit g owner name f in
          let same : (create_load_balancer g owner name f).0
              ≡ with_policies g g.next_sg after.next_lb g.sgs after.lbs =
            rw (create_load_balancer, fine, balancer_commit) refl in
          rw same (
            with_policies-IsWellFormed g g.next_sg after.next_lb g.sgs after.lbs good (λ k x e.
              elim (insert-cases (balancer_id owner after.next_lb) k lb x g.lbs e) [
                | inl (_, equal) ↦
                    subst (IsBalancer g) equal
                      (record { home = balancer_checks-ok g name f u fine })
                | inr (_, old) ↦ good.balanced k x old
              ]))
    ]
