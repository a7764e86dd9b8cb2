-- ===== src/Tenancy/Charging/Atomic.antt =====
-- `charge` and `release` of crates/celtenancy/src/store.rs over the ancestors of a tenant.
use celium.Prelude.{
  ℕ, ◌≤◌, length, zero, suc, ◌≡◌, refl, true, some, List, [], ◌∷◌, All, arith, ◌⊎◌, inl, inr,
  Option-cases, Bool-cases, sym, ◌∙◌, ap, subst,
}
use celium.Prelude.Key.{nat_key}
use celium.Prelude.Map.{Map, get}
use celium.Prelude.Error.{CelError, ok, err, CelResult-cases}
use celium.Tenancy.Quota.{QuotaUsage, QuotaCharge, no_usage}
use celium.Tenancy.Quota.Laws.{Fits, release-charged}
use celium.Tenancy.Model.{TenantId, Tenant, StoreState}
use celium.Tenancy.Charging.{
  max_levels, chain_loop, chain_from, validate_chain, charge_checks, charge, release,
}
use celium.Tenancy.Charging.Ancestors.{IsAncestry, chain_loop-IsAncestry, chain_loop-fits}
use celium.Tenancy.Charging.Chains.{
  on_chain, IsDistinct, ParentsLive, charge_tenant, release_tenant, ChangedOn,
  chain_loop-IsDistinct, apply_chain_lem, chain_loop-Live, release_chain_lem, released_usage,
  chain_loop-ChangedOn, first_usage, Live,
}
use celium.Tenancy.Invariant.{IsWellFormed}

pub parents_live : (s : StoreState) → IsWellFormed s → ParentsLive s.tenants
parents_live s w k t h = (w.tenants k t h).parent

chain_head :
    (m : Map ℕ Tenant) (rounds : ℕ) (tid : TenantId) (chain : List TenantId)
    → chain_loop m rounds (some tid) ≡ ok chain
    → (rest : List TenantId) × (chain ≡ tid ∷ rest)
unfolding chain_loop
chain_head m zero tid chain h = absurd (cc h)
chain_head m (suc rounds) tid [] h = absurd (ground arith)
chain_head m (suc rounds) tid (k ∷ ks) h = (ks, ground arith)

-- What a successful `chain_from` of a well-formed store gives.
pub record IsChain (s : StoreState) (tid : TenantId) (chain : List TenantId) : Type 0 where
  pub distinct : IsDistinct chain
  pub live : All (Live s.tenants) chain
  pub head : (rest : List TenantId) × (chain ≡ tid ∷ rest)

pub chain_from-IsChain :
    (s : StoreState) (tid : TenantId) (chain : List TenantId)
    → IsWellFormed s
    → chain_from s tid ≡ ok chain
    → IsChain s tid chain
unfolding chain_from
chain_from-IsChain s tid chain w h = record {
  distinct =
      (chain_loop-IsDistinct s.tenants max_levels (suc tid) (some tid) chain (parents_live s w)
        (omega arith) h).1;
  live = chain_loop-Live s.tenants max_levels (some tid) chain h;
  head = chain_head s.tenants max_levels tid chain h;
}

charge_checks-chain :
    (s : StoreState) (tid : TenantId) (c : QuotaCharge) (chain : List TenantId)
    → charge_checks s tid c ≡ ok chain
    → (chain_from s tid ≡ ok chain) × (validate_chain s.tenants c chain ≡ ok tt)
unfolding charge_checks
charge_checks-chain s tid c chain h = (ground arith, ground arith)

climbs :
    (s : StoreState) (tid : TenantId) (chain : List TenantId)
    → chain_from s tid ≡ ok chain
    → chain_loop s.tenants max_levels (some tid) ≡ ok chain
unfolding chain_from
climbs s tid chain h = h

-- A charge that fails: no list is that of the ancestors, has at most 65 tenants, and has room for
-- the charge in the quotas of each of them.
abbrev pub IsRefused : StoreState → TenantId → QuotaCharge → Type 0
IsRefused s tid c =
    (chain : List TenantId)
    → IsAncestry s.tenants (some tid) chain
    → length chain ≤ 65
    → validate_chain s.tenants c chain ≡ ok tt
    → ⊥

failed-IsRefused :
    (s : StoreState) (tid : TenantId) (c : QuotaCharge) (x : CelError)
    → charge_checks s tid c ≡ err x
    → IsRefused s tid c
unfolding charge_checks chain_from
failed-IsRefused s tid c x e chain up short valid =
    let climbed = chain_loop-fits s.tenants 65 (some tid) chain up short in
    absurd (cc (rw (climbed, valid) at e))

-- What a successful charge does: the chain is the tenant with all its ancestors, up to a tenant
-- without a parent.
pub record Charged (s s' : StoreState) (tid : TenantId) (c : QuotaCharge) (u : QuotaUsage)
    : Type 0 where
  pub chain : List TenantId
  pub climbed : chain_from s tid ≡ ok chain
  pub ancestors : IsAncestry s.tenants (some tid) chain
  pub validated : validate_chain s.tenants c chain ≡ ok tt
  pub tenants : Map ℕ Tenant
  pub others : s' ≡ record s { tenants = tenants }
  pub changed : ChangedOn (charge_tenant c) chain s.tenants tenants
  pub own : u ≡ first_usage s.tenants c chain no_usage

-- In a well-formed store a charge either fails, leaves the whole store as it was, and the tenant
-- has no list of its ancestors with at most 65 levels on which each accepts the charge; or it
-- charges each tenant of such a list, which starts with the tenant itself, follows the parents,
-- and ends with a tenant without a parent, and it changes nothing else.
pub charge_atomic :
    (s : StoreState) (tid : TenantId) (c : QuotaCharge)
    → IsWellFormed s
    → ((e : CelError) × (charge s tid c ≡ (s, err e)) × IsRefused s tid c)
      ⊎ ((s' : StoreState) × (u : QuotaUsage) × (charge s tid c ≡ (s', ok u))
          × Charged s s' tid c u)
unfolding charge
charge_atomic s tid c w = elim (CelResult-cases (charge_checks s tid c)) [
  | inr (x, e) ↦ inl (x, rw (e, charge) refl, failed-IsRefused s tid c x e)
  | inl (chain, e) ↦
      let (climbed, valid) = charge_checks-chain s tid c chain e in
      let up = chain_from-IsChain s tid chain w climbed in
      let (m', run, changed) = apply_chain_lem c chain s.tenants 0 no_usage up.distinct valid in
      inr (
        record s { tenants = m' },
        first_usage s.tenants c chain no_usage,
        rw (e, charge) (rw run refl),
        record {
          chain = chain;
          climbed = climbed;
          ancestors =
              chain_loop-IsAncestry s.tenants max_levels (some tid) chain
                (climbs s tid chain climbed);
          validated = valid;
          tenants = m';
          others = refl;
          changed = changed;
          own = refl;
        },
      )
]

-- A charge that fits the machine integers of every tenant on the chain.
abbrev pub ChainFits : StoreState → List TenantId → QuotaCharge → Type 0
ChainFits s chain c =
    (k : ℕ) (t : Tenant) → on_chain chain k ≡ true → get s.tenants k ≡ some t → Fits t.usage c

-- What a successful charge has done, from its result.
pub charge-Charged :
    (s s1 : StoreState) (tid : TenantId) (c : QuotaCharge) (u : QuotaUsage)
    → IsWellFormed s
    → charge s tid c ≡ (s1, ok u)
    → Charged s s1 tid c u
charge-Charged s s1 tid c u w h = elim (charge_atomic s tid c w) [
  | inl (x, e, _) ↦ absurd (cc (ap (λ r. r.1) (sym e ∙ h)))
  | inr (s', v, e, done) ↦
      let same : (s', ok v) ≡ (s1, ok u) = sym e ∙ h in
      let state : s' ≡ s1 = ap (λ r. r.0) same in
      let usage : v ≡ u = cc (ap (λ r. r.1) same) in
      subst (λ x. Charged s x tid c u) state (subst (Charged s s' tid c) usage done)
]

restored :
    (s : StoreState) (chain : List TenantId) (c : QuotaCharge) (m1 m2 : Map ℕ Tenant) (k : TenantId)
    → validate_chain s.tenants c chain ≡ ok tt
    → ChainFits s chain c
    → ChangedOn (charge_tenant c) chain s.tenants m1
    → ChangedOn (release_tenant c) chain m1 m2
    → get m2 k ≡ get s.tenants k
restored s chain c m1 m2 k valid fits up down = elim (Bool-cases (on_chain chain k)) [
  | inr off ↦ ground (arith, up k, down k)
  | inl on ↦ elim (Option-cases (get s.tenants k)) [
    | inl e ↦ ground (arith, up k, down k)
    | inr (t, e) ↦ ground (arith, up k, down k, release-charged t.usage c (fits k t on e))
  ]
]

Live-again :
    (s : StoreState) (chain : List TenantId) (f : Tenant → Tenant) (m1 : Map ℕ Tenant)
    (ks : List TenantId)
    → ChangedOn f chain s.tenants m1
    → All (Live s.tenants) ks
    → All (Live m1) ks
Live-again s chain f m1 [] up h = tt
Live-again s chain f m1 (k ∷ ks) up ((t, e), rest) = (
  elim (Bool-cases (on_chain chain k)) [
    | inl on ↦ (f t, ground (arith, up k))
    | inr off ↦ (t, ground (arith, up k))
  ],
  Live-again s chain f m1 ks up rest,
)

same_chain :
    (s : StoreState) (tid : TenantId) (c : QuotaCharge) (chain : List TenantId) (m1 : Map ℕ Tenant)
    → ChangedOn (charge_tenant c) chain s.tenants m1
    → chain_from (record s { tenants = m1 }) tid ≡ chain_from s tid
unfolding chain_from
same_chain s tid c chain m1 changed =
    chain_loop-ChangedOn (charge_tenant c) chain s.tenants m1 (λ t. refl) changed max_levels
      (some tid)

release_restores :
    (s : StoreState) (tid : TenantId) (c : QuotaCharge) (chain : List TenantId) (m1 : Map ℕ Tenant)
    → IsWellFormed s
    → chain_from s tid ≡ ok chain
    → validate_chain s.tenants c chain ≡ ok tt
    → ChangedOn (charge_tenant c) chain s.tenants m1
    → ChainFits s chain c
    → (s2 : StoreState) × (v : QuotaUsage) × (release (record s { tenants = m1 }) tid c
        ≡ (s2, ok v))
      × ((k : ℕ) → get s2.tenants k ≡ get s.tenants k)
unfolding release
release_restores s tid c chain m1 w climbed valid changed fits =
    let up = chain_from-IsChain s tid chain w climbed in
    let (m2, run, back) =
      release_chain_lem c chain m1 0 no_usage up.distinct
        (Live-again s chain (charge_tenant c) m1 chain changed up.live) in
    (
      record s { tenants = m2 },
      released_usage m1 c chain no_usage,
      rw (same_chain s tid c chain m1 changed ∙ climbed, release) (rw run refl),
      λ k. restored s chain c m1 m2 k valid fits changed back,
    )

-- A release after its charge restores every tenant of a well-formed store, when no sum of the
-- charge saturates.
pub release-charge :
    (s s1 : StoreState) (tid : TenantId) (c : QuotaCharge) (u : QuotaUsage)
    → IsWellFormed s
    → ((chain : List TenantId) → chain_from s tid ≡ ok chain → ChainFits s chain c)
    → charge s tid c ≡ (s1, ok u)
    → (s2 : StoreState) × (v : QuotaUsage) × (release s1 tid c ≡ (s2, ok v))
      × ((k : ℕ) → get s2.tenants k ≡ get s.tenants k)
release-charge s s1 tid c u w fits h =
    let done = charge-Charged s s1 tid c u w h in
    rw done.others (
      release_restores s tid c done.chain done.tenants w done.climbed done.validated done.changed
        (fits done.chain done.climbed))
