-- ===== src/Tenancy/Quota/Laws.antt =====
-- The accounting of crates/celtenancy/src/quota.rs.
use celium.Prelude.{◌+◌, ◌≤◌, ◌≡◌, ◌↔◌, arith}
use celium.Prelude.Error.{ok}
use celium.Prelude.Words.{u32_max, u64_max}
use celium.Tenancy.Quota.{
  TenantQuotas, QuotaUsage, QuotaCharge, charged, charge_quota, release_quota,
}

-- A usage within its ceilings.
pub record IsWithin (u : QuotaUsage) (q : TenantQuotas) : Type 0 where
  pub vcpus : u.vcpus ≤ q.max_vcpus
  pub memory : u.memory_mib ≤ q.max_memory_mib
  pub storage : u.storage_bytes ≤ q.max_storage_bytes
  pub network : u.network_mbps ≤ q.max_network_mbps
  pub iops : u.iops ≤ q.max_iops

-- The sum of a usage and a charge, as it is before it saturates, fits the machine integers.
pub record Fits (u : QuotaUsage) (c : QuotaCharge) : Type 0 where
  pub vcpus : u.vcpus + c.vcpus ≤ u32_max
  pub memory : u.memory_mib + c.memory_mib ≤ u64_max
  pub storage : u.storage_bytes + c.storage_bytes ≤ u64_max
  pub network : u.network_mbps + c.network_mbps ≤ u32_max
  pub iops : u.iops + c.iops ≤ u32_max

pub charge_quota-IsWithin :
    (u : QuotaUsage) (q : TenantQuotas) (c : QuotaCharge) {u' : QuotaUsage}
    → charge_quota u q c ≡ ok u'
    → IsWithin u' q
unfolding charge_quota
charge_quota-IsWithin u q c h = ground arith

pub charge_quota-charged :
    (u : QuotaUsage) (q : TenantQuotas) (c : QuotaCharge) {u' : QuotaUsage}
    → charge_quota u q c ≡ ok u'
    → u' ≡ charged u c
unfolding charge_quota
charge_quota-charged u q c h = ground arith

pub charge_quota_accepts :
    (u : QuotaUsage) (q : TenantQuotas) (c : QuotaCharge)
    → IsWithin (charged u c) q
    → charge_quota u q c ≡ ok (charged u c)
unfolding charge_quota
charge_quota_accepts u q c h = ground arith

-- A charge is accepted exactly when the saturated sums stay within all five ceilings.
charge_quota_iff :
    (u : QuotaUsage) (q : TenantQuotas) (c : QuotaCharge)
    → (charge_quota u q c ≡ ok (charged u c)) ↔ IsWithin (charged u c) q
charge_quota_iff u q c = (charge_quota-IsWithin u q c, charge_quota_accepts u q c)

pub release-charged :
    (u : QuotaUsage) (c : QuotaCharge) → Fits u c → release_quota (charged u c) c ≡ u
unfolding release_quota
release-charged u c f = ground arith

-- Releasing what was charged restores the usage, when the sums fit their integers.
pub release-charge_quota :
    (u : QuotaUsage) (q : TenantQuotas) (c : QuotaCharge) {u' : QuotaUsage}
    → Fits u c
    → charge_quota u q c ≡ ok u'
    → release_quota u' c ≡ u
unfolding charge_quota release_quota
release-charge_quota u q c f h = ground arith

-- Releasing never leaves the ceilings.
pub release_quota-IsWithin :
    (u : QuotaUsage) (q : TenantQuotas) (c : QuotaCharge)
    → IsWithin u q
    → IsWithin (release_quota u c) q
unfolding release_quota
release_quota-IsWithin u q c h = ground arith
