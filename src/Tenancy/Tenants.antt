-- ===== src/Tenancy/Tenants.antt =====
-- crates/celtenancy/src/store.rs, `StoreState`: creation and deletion of tenants and users. A
-- method returns the state that it leaves beside its result, also where it fails.
use celium.Prelude.{
  ℕ, Bool, false, not, ◌||◌, Option, none, some, [], ◌∷◌, ◌++◌, ltb, eqb, any, retain,
}
use celium.Prelude.Key.{Bytes, bytes_eq, nat_key, bytes_key}
use celium.Prelude.Map.{get, insert, remove, values}
use celium.Prelude.Words.{u64_max, checked_add}
use celium.Prelude.Error.{
  CelResult, ok, err, invalid, internal, storage, capability_denied, refuse_if, ok_or, ◌>>=◌, ◌>>◌,
}
use celium.Tenancy.Caps.{TenantCaps, contains, attenuate}
use celium.Tenancy.Namespace.{namespace_root, validate_segment}
use celium.Tenancy.Quota.{TenantQuotas, no_usage, is_default}
use celium.Tenancy.Model.{TenantId, UserId, User, TenantSpec, Tenant, StoreState, is_session_of}

-- Whether a dimension of `q` is above that of `pq`.
abbrev pub exceeds : TenantQuotas → TenantQuotas → Bool
exceeds q pq =
    ltb pq.max_vcpus q.max_vcpus
    || ltb pq.max_memory_mib q.max_memory_mib
    || ltb pq.max_storage_bytes q.max_storage_bytes
    || ltb pq.max_network_mbps q.max_network_mbps
    || ltb pq.max_iops q.max_iops

-- The checks that a new tenant makes of its parent.
unfoldable pub parent_checks :
    StoreState → Option TenantId → TenantSpec → TenantCaps → CelResult (Unit {0})
parent_checks s none spec root_caps = ok tt
parent_checks s (some parent_id) spec root_caps = do
  parent ← ok_or (get s.tenants parent_id) (invalid "parent tenant id unknown")
  refuse_if (not (contains parent.root_caps root_caps))
      (capability_denied "subtenant caps exceed parent")
  refuse_if (exceeds spec.quotas parent.quotas) (invalid "subtenant quotas exceed parent quotas")
  ok tt

-- What `create` does before it writes: the new id.
unfoldable pub create_checks : StoreState → TenantSpec → TenantCaps → CelResult ℕ
create_checks s spec root_caps = do
  elim (get s.by_name spec.name) [ some _ ↦ err (storage "tenant already exists") | none ↦ ok tt ]
  parent_checks s spec.parent spec root_caps
  ok_or (checked_add u64_max s.next_tenant_id 1) (internal "tenant id overflow")

abbrev pub new_tenant : ℕ → TenantSpec → TenantCaps → Bytes → Tenant
new_tenant id_raw spec root_caps root = record {
  id = id_raw;
  name = spec.name;
  namespace = root;
  root_caps = root_caps;
  users = [];
  quotas = spec.quotas;
  usage = no_usage;
  parent = spec.parent;
}

-- The rest of `create`: the counter is written before the name is validated.
unfoldable pub create_commit :
    StoreState → ℕ → TenantSpec → TenantCaps → StoreState × CelResult Tenant
create_commit s id_raw spec root_caps = elim (namespace_root spec.name) [
  | err e ↦ (record s { next_tenant_id = id_raw }, err e)
  | ok root ↦ (
    record s {
      next_tenant_id = id_raw;
      by_name = insert spec.name id_raw s.by_name;
      tenants = insert id_raw (new_tenant id_raw spec root_caps root) s.tenants;
    },
    ok (new_tenant id_raw spec root_caps root),
  )
]

unfoldable pub create : StoreState → TenantSpec → TenantCaps → StoreState × CelResult Tenant
create s spec root_caps = elim (create_checks s spec root_caps) [
  | err e ↦ (s, err e)
  | ok id_raw ↦ create_commit s id_raw spec root_caps
]

-- `create_subtenant`
unfoldable pub create_subtenant :
    StoreState → TenantId → TenantSpec → TenantCaps → StoreState × CelResult Tenant
create_subtenant s parent spec root_caps = create s (record spec { parent = some parent }) root_caps

-- `child.parent == Some(id)`
abbrev pub is_child_of : TenantId → Tenant → Bool
is_child_of id child = elim child.parent [ none ↦ false | some p ↦ eqb p id ]

unfoldable pub delete_checks : StoreState → TenantId → CelResult Tenant
delete_checks s id = do
  t ← ok_or (get s.tenants id) (invalid "tenant id unknown")
  refuse_if (any (is_child_of id) (values s.tenants)) (invalid "tenant has subtenants")
  refuse_if (not (is_default t.usage)) (invalid "tenant in use")
  ok t

unfoldable pub delete : StoreState → TenantId → StoreState × CelResult (Unit {0})
delete s id = elim (delete_checks s id) [
  | err e ↦ (s, err e)
  | ok t ↦ (record s { tenants = remove id s.tenants; by_name = remove t.name s.by_name }, ok tt)
]

-- What `add_user` does before it writes: the tenant, the new id and the user's capabilities.
unfoldable pub add_user_checks :
    StoreState → TenantId → Bytes → TenantCaps → CelResult (Tenant × ℕ × TenantCaps)
add_user_checks s tenant user_name requested_caps = do
  validate_segment user_name
  t ← ok_or (get s.tenants tenant) (invalid "tenant id unknown")
  refuse_if (any (λ u. bytes_eq u.name user_name) t.users) (storage "user already exists")
  caps ← attenuate t.root_caps requested_caps
  id_raw ← ok_or (checked_add u64_max s.next_user_id 1) (internal "user id overflow")
  ok (t, id_raw, caps)

abbrev pub new_user : ℕ → Bytes → TenantCaps → User
new_user id_raw user_name caps = record {
  id = id_raw;
  name = user_name;
  caps = caps;
  password_hash = none;
}

unfoldable pub add_user : StoreState → TenantId → Bytes → TenantCaps → StoreState × CelResult User
add_user s tenant user_name requested_caps =
    elim (add_user_checks s tenant user_name requested_caps) [
      | err e ↦ (s, err e)
      | ok (t, id_raw, caps) ↦ (
        record s {
          next_user_id = id_raw;
          tenants =
              insert tenant (record t { users = t.users ++ new_user id_raw user_name caps ∷ [] })
                s.tenants;
        },
        ok (new_user id_raw user_name caps),
      )
    ]

unfoldable pub remove_user : StoreState → TenantId → UserId → StoreState × CelResult (Unit {0})
remove_user s tenant user = elim (get s.tenants tenant) [
  | none ↦ (s, err (invalid "tenant id unknown"))
  | some t ↦ (
    record s {
      tenants =
          insert tenant (record t { users = retain (λ u. not (eqb u.id user)) t.users }) s.tenants;
      sessions = retain (λ x. not (is_session_of tenant user x)) s.sessions;
    },
    ok tt,
  )
]
