-- ===== src/Tenancy/Charging.antt =====
-- crates/celtenancy/src/store.rs, `StoreState`: charges and releases along the chain of ancestors.
pub mod Chains
pub mod Atomic
pub mod Ancestors
pub mod Depth
use celium.Prelude.{ℕ, zero, suc, Option, none, some, List, [], ◌∷◌, eqb, if◌then◌else◌}
use celium.Prelude.Key.{nat_key}
use celium.Prelude.Map.{Map, get, insert}
use celium.Prelude.Error.{CelError, CelResult, ok, err, invalid, internal, ok_or, ◌>>=◌, ◌>>◌}
use celium.Tenancy.Quota.{QuotaUsage, QuotaCharge, no_usage, charge_quota, release_quota}
use celium.Tenancy.Model.{TenantId, Tenant, StoreState}

-- `depth > 64` refuses the round after the one at depth 64.
abbrev pub max_levels : ℕ
max_levels = 65

-- The loop of `chain_from`: `rounds` is `max_levels - depth`.
unfoldable pub chain_loop : Map ℕ Tenant → ℕ → Option TenantId → CelResult (List TenantId)
chain_loop m rounds none = ok []
chain_loop m zero (some tid) = err (internal "tenant hierarchy too deep")
chain_loop m (suc rounds) (some tid) = do
  t ← ok_or (get m tid) (invalid "tenant id unknown")
  rest ← chain_loop m rounds t.parent
  ok (tid ∷ rest)

unfoldable pub chain_from : StoreState → TenantId → CelResult (List TenantId)
chain_from s tenant = chain_loop s.tenants max_levels (some tenant)

-- Pass 1 of `charge`: every tenant of the chain would accept the charge. (Its `map_err` maps every
-- error to itself.)
unfoldable pub validate_chain : Map ℕ Tenant → QuotaCharge → List TenantId → CelResult (Unit {0})
validate_chain m charge [] = ok tt
validate_chain m charge (tid ∷ chain) = do
  t ← ok_or (get m tid) (internal "tenant disappeared mid-charge")
  new ← charge_quota t.usage t.quotas charge
  validate_chain m charge chain

-- `r.map_err(|_| e)`
abbrev pub relabel {ℓ} : {A : Type ℓ} → CelResult A → CelError → CelResult A
relabel (ok a) e = ok a
relabel (err _) e = err e

unfoldable pub charge_one : Map ℕ Tenant → QuotaCharge → TenantId → CelResult (Tenant × QuotaUsage)
charge_one m charge tid = do
  t ← ok_or (get m tid) (internal "tenant disappeared mid-charge")
  new ← relabel (charge_quota t.usage t.quotas charge) (internal "quota validation race")
  ok (t, new)

-- Pass 2 of `charge`: the writes, with the index `i` and the usage of the first tenant.
unfoldable pub apply_chain :
    Map ℕ Tenant
    → QuotaCharge
    → ℕ
    → QuotaUsage
    → List TenantId
    → Map ℕ Tenant × CelResult QuotaUsage
apply_chain m charge i new_self [] = (m, ok new_self)
apply_chain m charge i new_self (tid ∷ chain) = elim (charge_one m charge tid) [
  | err e ↦ (m, err e)
  | ok (t, new) ↦
      apply_chain (insert tid (record t { usage = new }) m) charge (suc i)
        (if eqb i 0 then new else new_self) chain
]

unfoldable pub charge_checks : StoreState → TenantId → QuotaCharge → CelResult (List TenantId)
charge_checks s tenant charge = do
  chain ← chain_from s tenant
  validate_chain s.tenants charge chain
  ok chain

unfoldable pub charge : StoreState → TenantId → QuotaCharge → StoreState × CelResult QuotaUsage
charge s tenant c = elim (charge_checks s tenant c) [
  | err e ↦ (s, err e)
  | ok chain ↦
      let (m, r) = apply_chain s.tenants c 0 no_usage chain in (record s { tenants = m }, r)
]

-- The loop of `release`.
unfoldable pub release_chain :
    Map ℕ Tenant
    → QuotaCharge
    → ℕ
    → QuotaUsage
    → List TenantId
    → Map ℕ Tenant × CelResult QuotaUsage
release_chain m charge i new_self [] = (m, ok new_self)
release_chain m charge i new_self (tid ∷ chain) = elim (get m tid) [
  | none ↦ (m, err (internal "tenant disappeared mid-release"))
  | some t ↦
      let new = release_quota t.usage charge in
      release_chain (insert tid (record t { usage = new }) m) charge (suc i)
        (if eqb i 0 then new else new_self) chain
]

unfoldable pub release : StoreState → TenantId → QuotaCharge → StoreState × CelResult QuotaUsage
release s tenant c = elim (chain_from s tenant) [
  | err e ↦ (s, err e)
  | ok chain ↦
      let (m, r) = release_chain s.tenants c 0 no_usage chain in (record s { tenants = m }, r)
]
