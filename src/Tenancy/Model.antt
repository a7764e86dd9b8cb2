-- ===== src/Tenancy/Model.antt =====
-- The records of the tenant store: crates/celtenancy/src/user.rs, tenant.rs and the state of store.rs.
use celium.Prelude.{ℕ, Bool, ◌&&◌, Option, List, [], eqb}
use celium.Prelude.Key.{Bytes}
use celium.Prelude.Map.{Map, empty}
use celium.Tenancy.Caps.{TenantCaps}
use celium.Tenancy.Quota.{TenantQuotas, QuotaUsage}
use celium.Tenancy.Auth.{Session}

abbrev pub TenantId : Type 0
TenantId = ℕ

abbrev pub UserId : Type 0
UserId = ℕ

pub record User : Type 0 where
  pub id : UserId
  pub name : Bytes
  pub caps : TenantCaps
  pub password_hash : Option Bytes

pub record TenantSpec : Type 0 where
  pub name : Bytes
  pub quotas : TenantQuotas
  pub parent : Option TenantId

pub record Tenant : Type 0 where
  pub id : TenantId
  pub name : Bytes
  pub namespace : Bytes
  pub root_caps : TenantCaps
  pub users : List User
  pub quotas : TenantQuotas
  pub usage : QuotaUsage
  pub parent : Option TenantId

pub record StoreState : Type 0 where
  pub next_tenant_id : ℕ
  pub next_user_id : ℕ
  pub tenants : Map ℕ Tenant
  pub by_name : Map Bytes ℕ
  pub sessions : List Session

-- `StoreState::default()`
abbrev pub init : StoreState
init = record {
  next_tenant_id = 0;
  next_user_id = 0;
  tenants = empty;
  by_name = empty;
  sessions = [];
}

pub record RotateReport : Type 0 where
  pub tenant : TenantId
  pub tenant_name : Bytes
  pub old_caps : TenantCaps
  pub new_caps : TenantCaps
  pub attenuated_users : ℕ
  pub revoked_sessions : ℕ

pub record DeleteReport : Type 0 where
  pub deleted_tenants : List (TenantId × Bytes)
  pub revoked_sessions : ℕ
  pub dropped_users : ℕ

-- `s.tenant == tenant && s.user == user`
abbrev pub is_session_of : TenantId → UserId → Session → Bool
is_session_of tenant user s = eqb s.tenant tenant && eqb s.user user
