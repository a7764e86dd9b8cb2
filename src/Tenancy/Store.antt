-- ===== src/Tenancy/Store.antt =====
-- The tenant store of crates/celtenancy/src/store.rs as a state machine: every method that writes,
-- as a call, and the states that a sequence of calls reaches. `MemTenantStore` runs each method
-- under one lock, so the calls of all threads are such a sequence.
use celium.Prelude.{ℕ, Option, List, [], ◌∷◌}
use celium.Prelude.Key.{Bytes}
use celium.Tenancy.Auth.{Crypto}
use celium.Tenancy.Caps.{TenantCaps}
use celium.Tenancy.Quota.{QuotaCharge}
use celium.Tenancy.Model.{TenantId, UserId, TenantSpec, StoreState, init}
use celium.Tenancy.Tenants
use celium.Tenancy.Charging
use celium.Tenancy.Sessions
use celium.Tenancy.Admin
use celium.Tenancy.Invariant.{IsWellFormed, init-IsWellFormed}
use celium.Tenancy.Invariant.Create.{create-IsWellFormed}
use celium.Tenancy.Invariant.Users.{
  add_user-IsWellFormed, remove_user-IsWellFormed, set_password-IsWellFormed,
  rotate_root_caps-IsWellFormed,
}
use celium.Tenancy.Invariant.Revocation.{
  create_session-IsWellFormed, revoke_token-IsWellFormed, purge_expired_sessions-IsWellFormed,
  revoke_user_sessions-IsWellFormed, revoke_tenant_sessions-IsWellFormed, delete-IsWellFormed,
}
use celium.Tenancy.Invariant.Charges.{charge-IsWellFormed, release-IsWellFormed}
use celium.Tenancy.Invariant.Recursive.{delete_tenant_recursive-IsWellFormed}
pub mod Tokens

-- A salt, the random bytes of a token and the time come with the call that uses them.
pub data Call : Type 0 where
  create : TenantSpec → TenantCaps → Call
  create_subtenant : TenantId → TenantSpec → TenantCaps → Call
  delete : TenantId → Call
  add_user : TenantId → Bytes → TenantCaps → Call
  remove_user : TenantId → UserId → Call
  charge release : TenantId → QuotaCharge → Call
  set_password : Bytes → TenantId → UserId → Bytes → Call
  create_session : List ℕ → ℕ → TenantId → UserId → TenantCaps → Option ℕ → Call
  revoke_token : Bytes → Call
  purge_expired_sessions : ℕ → Call
  revoke_user_sessions : TenantId → UserId → Call
  revoke_tenant_sessions : TenantId → Call
  rotate_root_caps : TenantId → TenantCaps → Call
  delete_tenant_recursive : TenantId → Call

-- The state that a call leaves, whether it succeeds or fails.
unfoldable pub step : Crypto → StoreState → Call → StoreState
step c s (create spec caps) = (Tenants.create s spec caps).0
step c s (create_subtenant parent spec caps) = (Tenants.create_subtenant s parent spec caps).0
step c s (delete tid) = (Tenants.delete s tid).0
step c s (add_user tid name caps) = (Tenants.add_user s tid name caps).0
step c s (remove_user tid user) = (Tenants.remove_user s tid user).0
step c s (charge tid amount) = (Charging.charge s tid amount).0
step c s (release tid amount) = (Charging.release s tid amount).0
step c s (set_password salt tid user plain) = (Sessions.set_password c salt s tid user plain).0
step c s (create_session raw now tid user caps ttl) =
    (Sessions.create_session c raw now s tid user caps ttl).0
step c s (revoke_token token) = (Sessions.revoke_token c s token).0
step c s (purge_expired_sessions now) = (Sessions.purge_expired_sessions now s).0
step c s (revoke_user_sessions tid user) = (Sessions.revoke_user_sessions s tid user).0
step c s (revoke_tenant_sessions tid) = (Sessions.revoke_tenant_sessions s tid).0
step c s (rotate_root_caps tid caps) = (Admin.rotate_root_caps s tid caps).0
step c s (delete_tenant_recursive tid) = (Admin.delete_tenant_recursive s tid).0

unfoldable pub run : Crypto → StoreState → List Call → StoreState
run c s [] = s
run c s (x ∷ xs) = run c (step c s x) xs

create_subtenant-IsWellFormed :
    (s : StoreState) (parent : TenantId) (spec : TenantSpec) (caps : TenantCaps)
    → IsWellFormed s
    → IsWellFormed (Tenants.create_subtenant s parent spec caps).0
unfolding Tenants.create_subtenant
create_subtenant-IsWellFormed s parent spec caps w = create-IsWellFormed s _ caps w

pub step-IsWellFormed :
    (c : Crypto) (s : StoreState) (x : Call) → IsWellFormed s → IsWellFormed (step c s x)
unfolding step
step-IsWellFormed c s (create spec caps) w = create-IsWellFormed s spec caps w
step-IsWellFormed c s (create_subtenant parent spec caps) w =
    create_subtenant-IsWellFormed s parent spec caps w
step-IsWellFormed c s (delete tid) w = delete-IsWellFormed s tid w
step-IsWellFormed c s (add_user tid name caps) w = add_user-IsWellFormed s tid name caps w
step-IsWellFormed c s (remove_user tid user) w = remove_user-IsWellFormed s tid user w
step-IsWellFormed c s (charge tid amount) w = charge-IsWellFormed s tid amount w
step-IsWellFormed c s (release tid amount) w = release-IsWellFormed s tid amount w
step-IsWellFormed c s (set_password salt tid user plain) w =
    set_password-IsWellFormed c salt s tid user plain w
step-IsWellFormed c s (create_session raw now tid user caps ttl) w =
    create_session-IsWellFormed c raw now s tid user caps ttl w
step-IsWellFormed c s (revoke_token token) w = revoke_token-IsWellFormed c s token w
step-IsWellFormed c s (purge_expired_sessions now) w = purge_expired_sessions-IsWellFormed now s w
step-IsWellFormed c s (revoke_user_sessions tid user) w =
    revoke_user_sessions-IsWellFormed s tid user w
step-IsWellFormed c s (revoke_tenant_sessions tid) w = revoke_tenant_sessions-IsWellFormed s tid w
step-IsWellFormed c s (rotate_root_caps tid caps) w = rotate_root_caps-IsWellFormed s tid caps w
step-IsWellFormed c s (delete_tenant_recursive tid) w = delete_tenant_recursive-IsWellFormed s tid w

pub run_from-IsWellFormed :
    (c : Crypto) (s : StoreState) (xs : List Call) → IsWellFormed s → IsWellFormed (run c s xs)
unfolding run
run_from-IsWellFormed c s [] w = w
run_from-IsWellFormed c s (x ∷ xs) w =
    run_from-IsWellFormed c (step c s x) xs (step-IsWellFormed c s x w)

-- Every sequence of calls that write, from the empty store, whether each succeeds or fails,
-- leaves the store well-formed: ids and the name index agree, usage is within the quotas, each
-- parent lives and is older, users and sessions hold a part of the root capabilities of their
-- tenant.
pub run-IsWellFormed : (c : Crypto) (xs : List Call) → IsWellFormed (run c init xs)
run-IsWellFormed c xs = run_from-IsWellFormed c init xs init-IsWellFormed
