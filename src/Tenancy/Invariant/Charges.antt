-- ===== src/Tenancy/Invariant/Charges.antt =====
-- Charges and releases keep the store well formed, also where they stop half way.
use celium.Prelude.{
  ℕ, suc, ◌≡◌, refl, some, List, [], ◌∷◌, arith, eqb, inl, inr, if◌then◌else◌, Option-cases,
}
use celium.Prelude.Key.{nat_key}
use celium.Prelude.Map.{get, insert}
use celium.Prelude.Error.{ok, CelResult-cases}
use celium.Tenancy.Quota.{QuotaUsage, QuotaCharge, no_usage, charge_quota, release_quota}
use celium.Tenancy.Quota.Laws.{IsWithin, charge_quota-IsWithin, release_quota-IsWithin}
use celium.Tenancy.Model.{TenantId, Tenant, StoreState}
use celium.Tenancy.Charging.{
  chain_from, charge_one, apply_chain, charge_checks, charge, release_chain, release,
}
use celium.Tenancy.Invariant.{IsWellFormed, All-mono}
use celium.Tenancy.Invariant.Update.{updated-IsWellFormed, unchanged-StillFits}

-- Another usage within the quotas.
usage-IsWellFormed :
    (s : StoreState) (tid : TenantId) (t : Tenant) (u : QuotaUsage)
    → IsWellFormed s
    → get s.tenants tid ≡ some t
    → IsWithin u t.quotas
    → IsWellFormed (record s { tenants = insert tid (record t { usage = u }) s.tenants })
usage-IsWellFormed s tid t u w found within =
    let t' : Tenant = record t { usage = u } in
    updated-IsWellFormed s tid t t' s.next_user_id s.sessions w found
      (record { id = refl; name = refl; parent = refl }) within (w.tenants tid t found).users
      (omega arith) (All-mono s.sessions (unchanged-StillFits s tid t t' found refl) w.sessions)

charge_one-IsWithin :
    (s : StoreState) (c : QuotaCharge) (k : TenantId) (t : Tenant) (u : QuotaUsage)
    → charge_one s.tenants c k ≡ ok (t, u)
    → (get s.tenants k ≡ some t) × IsWithin u t.quotas
unfolding charge_one
charge_one-IsWithin s c k t u h = elim (Option-cases (get s.tenants k)) [
  | inl e ↦ absurd (ground arith)
  | inr (t', e) ↦ elim (CelResult-cases (charge_quota t'.usage t'.quotas c)) [
    | inr (x, r) ↦ absurd (ground arith)
    | inl (new, r) ↦
        let same : t' ≡ t = ground arith in
        let sum : new ≡ u = ground arith in
        (cc, charge_quota-IsWithin t.usage t.quotas c (rw (← same, ← sum) r))
  ]
]

apply_chain-IsWellFormed :
    (c : QuotaCharge) (chain : List TenantId) (s : StoreState) (i : ℕ) (u : QuotaUsage)
    → IsWellFormed s
    → IsWellFormed (record s { tenants = (apply_chain s.tenants c i u chain).0 })
unfolding apply_chain
apply_chain-IsWellFormed c [] s i u w = w
apply_chain-IsWellFormed c (k ∷ ks) s i u w = elim (CelResult-cases (charge_one s.tenants c k)) [
  | inr (x, e) ↦ rw (e, apply_chain) w
  | inl ((t, new), e) ↦
      let (found, within) = charge_one-IsWithin s c k t new e in
      rw (e, apply_chain)
        (apply_chain-IsWellFormed c ks
          (record s { tenants = insert k (record t { usage = new }) s.tenants }) (suc i)
          (if eqb i 0 then new else u) (usage-IsWellFormed s k t new w found within))
]

pub charge-IsWellFormed :
    (s : StoreState) (tid : TenantId) (c : QuotaCharge)
    → IsWellFormed s
    → IsWellFormed (charge s tid c).0
unfolding charge
charge-IsWellFormed s tid c w = elim (CelResult-cases (charge_checks s tid c)) [
  | inr (x, e) ↦ rw (e, charge) w
  | inl (chain, e) ↦ rw (e, charge) (apply_chain-IsWellFormed c chain s 0 no_usage w)
]

release_chain-IsWellFormed :
    (c : QuotaCharge) (chain : List TenantId) (s : StoreState) (i : ℕ) (u : QuotaUsage)
    → IsWellFormed s
    → IsWellFormed (record s { tenants = (release_chain s.tenants c i u chain).0 })
unfolding release_chain
release_chain-IsWellFormed c [] s i u w = w
release_chain-IsWellFormed c (k ∷ ks) s i u w = elim (Option-cases (get s.tenants k)) [
  | inl e ↦ rw (e, release_chain) w
  | inr (t, e) ↦
      let new = release_quota t.usage c in
      rw (e, release_chain)
        (release_chain-IsWellFormed c ks
          (record s { tenants = insert k (record t { usage = new }) s.tenants }) (suc i)
          (if eqb i 0 then new else u)
          (usage-IsWellFormed s k t new w e
            (release_quota-IsWithin t.usage t.quotas c (w.tenants k t e).within)))
]

pub release-IsWellFormed :
    (s : StoreState) (tid : TenantId) (c : QuotaCharge)
    → IsWellFormed s
    → IsWellFormed (release s tid c).0
unfolding release
release-IsWellFormed s tid c w = elim (CelResult-cases (chain_from s tid)) [
  | inr (x, e) ↦ rw (e, release) w
  | inl (chain, e) ↦ rw (e, release) (release_chain-IsWellFormed c chain s 0 no_usage w)
]
