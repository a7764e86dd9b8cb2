-- ===== src/Tenancy/Admin.antt =====
-- crates/celtenancy/src/store.rs, `StoreState`: rotation of root capabilities, recursive deletion.
pub mod Subtree
pub mod Below
pub mod Rotation
use celium.Prelude.{
  ℕ, zero, suc, ◌+◌, not, Option, none, some, List, [], ◌∷◌, ◌++◌, eqb, retain, length, map,
  if◌then◌else◌,
}
use celium.Prelude.Key.{nat_key, bytes_key}
use celium.Prelude.Map.{Map, get, insert, remove, values}
use celium.Prelude.Error.{
  CelResult, ok, err, invalid, internal, capability_denied, refuse_if, ok_or, ◌>>=◌, ◌>>◌,
}
use celium.Tenancy.Caps.{TenantCaps, contains, narrow}
use celium.Tenancy.Quota.{is_default}
use celium.Tenancy.Model.{TenantId, User, Tenant, StoreState, RotateReport, DeleteReport}
use celium.Tenancy.Tenants.{is_child_of}
use celium.Tenancy.Charging.{max_levels}
use celium.Tenancy.Sessions.{drop_tenant_sessions, dropped}

unfoldable pub rotate_parent_check :
    StoreState → Option TenantId → TenantCaps → CelResult (Unit {0})
rotate_parent_check s none new_caps = ok tt
rotate_parent_check s (some parent_id) new_caps = do
  p ← ok_or (get s.tenants parent_id) (internal "parent tenant disappeared")
  refuse_if (not (contains p.root_caps new_caps)) (capability_denied "rotated caps exceed parent")
  ok tt

-- Step 1 of `rotate_root_caps`.
unfoldable pub rotate_checks : StoreState → TenantId → TenantCaps → CelResult Tenant
rotate_checks s tenant new_caps = do
  t ← ok_or (get s.tenants tenant) (invalid "tenant id unknown")
  rotate_parent_check s t.parent new_caps
  ok t

-- Step 2: the users, each narrowed to the new set, and how many of them changed.
abbrev pub narrow_user : TenantCaps → User → User
narrow_user new_caps u = record u { caps = narrow u.caps new_caps }

unfoldable pub count_narrowed : TenantCaps → List User → ℕ
count_narrowed new_caps [] = 0
count_narrowed new_caps (u ∷ us) =
    let rest = count_narrowed new_caps us in
    if eqb (narrow u.caps new_caps) u.caps then rest else suc rest

unfoldable pub rotate_root_caps :
    StoreState → TenantId → TenantCaps → StoreState × CelResult RotateReport
rotate_root_caps s tenant new_caps = elim (rotate_checks s tenant new_caps) [
  | err e ↦ (s, err e)
  | ok t ↦
      let kept = drop_tenant_sessions tenant s.sessions in
      (
        record s {
          tenants =
              insert tenant
                (record t { root_caps = new_caps; users = map (narrow_user new_caps) t.users })
                s.tenants;
          sessions = kept;
        },
        ok (record {
          tenant = tenant;
          tenant_name = t.name;
          old_caps = t.root_caps;
          new_caps = new_caps;
          attenuated_users = count_narrowed new_caps t.users;
          revoked_sessions = dropped s.sessions kept;
        }),
      )
]

abbrev pub kids : Map ℕ Tenant → TenantId → List TenantId
kids m root = map (λ t. t.id) (retain (is_child_of root) (values m))

-- `walk` over the children, in turn.
unfoldable pub walk_each :
    (TenantId → CelResult (List TenantId)) → List TenantId → CelResult (List TenantId)
walk_each walk [] = ok []
walk_each walk (k ∷ ks) = do first ← walk k; rest ← walk_each walk ks; ok (first ++ rest)

-- `walk`: the subtree of `root` in post-order; `rounds` is `max_levels - depth`.
unfoldable pub walk : Map ℕ Tenant → ℕ → TenantId → CelResult (List TenantId)
walk m zero root = err (internal "tenant hierarchy too deep")
walk m (suc rounds) root = do
  below ← walk_each (walk m rounds) (kids m root)
  ok (below ++ root ∷ [])

-- No node of the subtree may have usage.
unfoldable pub validate_subtree : Map ℕ Tenant → List TenantId → CelResult (Unit {0})
validate_subtree m [] = ok tt
validate_subtree m (tid ∷ rest) = do
  t ← ok_or (get m tid) (internal "subtree node vanished")
  refuse_if (not (is_default t.usage)) (invalid "tenant in use")
  validate_subtree m rest

abbrev pub empty_report : DeleteReport
empty_report = record { deleted_tenants = []; revoked_sessions = 0; dropped_users = 0 }

-- One round of the mutation pass, with the report so far. The sessions go first.
abbrev pub without_sessions : TenantId → StoreState → StoreState
without_sessions tid s = record s { sessions = drop_tenant_sessions tid s.sessions }

abbrev pub without_tenant : TenantId → Tenant → StoreState → StoreState
without_tenant tid t s = record s {
  tenants = remove tid s.tenants;
  by_name = remove t.name s.by_name;
}

abbrev pub report_one : TenantId → Tenant → ℕ → DeleteReport → DeleteReport
report_one tid t revoked report = record {
  deleted_tenants = report.deleted_tenants ++ (tid, t.name) ∷ [];
  revoked_sessions = report.revoked_sessions + revoked;
  dropped_users = report.dropped_users + length t.users;
}

unfoldable pub delete_each :
    StoreState → DeleteReport → List TenantId → StoreState × CelResult DeleteReport
delete_each s report [] = (s, ok report)
delete_each s report (tid ∷ rest) = elim (get s.tenants tid) [
  | none ↦ (without_sessions tid s, err (internal "subtree node vanished"))
  | some t ↦
      delete_each (without_tenant tid t (without_sessions tid s))
        (report_one tid t (dropped s.sessions (drop_tenant_sessions tid s.sessions)) report) rest
]

unfoldable pub subtree_checks : StoreState → TenantId → CelResult (List TenantId)
subtree_checks s tenant = do
  t ← ok_or (get s.tenants tenant) (invalid "tenant id unknown")
  subtree ← walk s.tenants max_levels tenant
  validate_subtree s.tenants subtree
  ok subtree

unfoldable pub delete_tenant_recursive : StoreState → TenantId → StoreState × CelResult DeleteReport
delete_tenant_recursive s tenant = elim (subtree_checks s tenant) [
  | err e ↦ (s, err e)
  | ok subtree ↦ delete_each s empty_report subtree
]
