-- ===== src/Tenancy/Quota.antt =====
-- crates/celtenancy/src/quota.rs: ceilings, usage, and the charge and release of an allocation.
pub mod Laws
use celium.Prelude.{ℕ, ◌||◌, Bool, ltb, eqb, ◌&&◌}
use celium.Prelude.Error.{CelError, CelResult, ok, exhausted, refuse_if, ◌>>=◌, ◌>>◌}
use celium.Prelude.Words.{u32_max, u64_max, saturating_add, saturating_sub}

pub record TenantQuotas : Type 0 where
  pub max_vcpus : ℕ
  pub max_memory_mib : ℕ
  pub max_storage_bytes : ℕ
  pub max_network_mbps : ℕ
  pub max_iops : ℕ

-- `TenantQuotas::unlimited()`
abbrev pub unlimited : TenantQuotas
unlimited = record {
  max_vcpus = u32_max;
  max_memory_mib = u64_max;
  max_storage_bytes = u64_max;
  max_network_mbps = u32_max;
  max_iops = u32_max;
}

pub record QuotaUsage : Type 0 where
  pub vcpus : ℕ
  pub memory_mib : ℕ
  pub storage_bytes : ℕ
  pub network_mbps : ℕ
  pub iops : ℕ

-- `QuotaUsage::default()`
abbrev pub no_usage : QuotaUsage
no_usage = record { vcpus = 0; memory_mib = 0; storage_bytes = 0; network_mbps = 0; iops = 0 }

-- `usage == QuotaUsage::default()`, the derived equality.
abbrev pub is_default : QuotaUsage → Bool
is_default u =
    eqb u.vcpus 0
    && eqb u.memory_mib 0
    && eqb u.storage_bytes 0
    && eqb u.network_mbps 0
    && eqb u.iops 0

pub record QuotaCharge : Type 0 where
  pub vcpus : ℕ
  pub memory_mib : ℕ
  pub storage_bytes : ℕ
  pub network_mbps : ℕ
  pub iops : ℕ

-- The five saturating sums that `charge_quota` computes first.
abbrev pub charged : QuotaUsage → QuotaCharge → QuotaUsage
charged usage charge = record {
  vcpus = saturating_add u32_max usage.vcpus charge.vcpus;
  memory_mib = saturating_add u64_max usage.memory_mib charge.memory_mib;
  storage_bytes = saturating_add u64_max usage.storage_bytes charge.storage_bytes;
  network_mbps = saturating_add u32_max usage.network_mbps charge.network_mbps;
  iops = saturating_add u32_max usage.iops charge.iops;
}

unfoldable pub charge_quota : QuotaUsage → TenantQuotas → QuotaCharge → CelResult QuotaUsage
charge_quota usage quotas charge = do
  let new = charged usage charge
  refuse_if (ltb quotas.max_vcpus new.vcpus) (exhausted "quota.vcpus")
  refuse_if (ltb quotas.max_memory_mib new.memory_mib) (exhausted "quota.memory")
  refuse_if (ltb quotas.max_storage_bytes new.storage_bytes) (exhausted "quota.storage")
  refuse_if (ltb quotas.max_network_mbps new.network_mbps) (exhausted "quota.network")
  refuse_if (ltb quotas.max_iops new.iops) (exhausted "quota.iops")
  ok new

unfoldable pub release_quota : QuotaUsage → QuotaCharge → QuotaUsage
release_quota usage charge = record {
  vcpus = saturating_sub usage.vcpus charge.vcpus;
  memory_mib = saturating_sub usage.memory_mib charge.memory_mib;
  storage_bytes = saturating_sub usage.storage_bytes charge.storage_bytes;
  network_mbps = saturating_sub usage.network_mbps charge.network_mbps;
  iops = saturating_sub usage.iops charge.iops;
}
