-- ===== src/Tenancy/Sessions.antt =====
-- crates/celtenancy/src/store.rs, `StoreState`: passwords, sessions and their revocation.
pub mod Laws
pub mod Passwords
use celium.Prelude.{
  ℕ, ◌*◌, ◌-◌, Bool, not, Option, none, some, List, [], ◌∷◌, ◌++◌, eqb, find, retain, length,
  if◌then◌else◌,
}
use celium.Prelude.Key.{Bytes, bytes_eq, nat_key, bytes_key}
use celium.Prelude.Map.{get, insert}
use celium.Prelude.Words.{u64_max, saturating_add}
use celium.Prelude.Error.{
  CelError, CelResult, ok, err, invalid, capability_denied, refuse_if, ok_or, ◌>>=◌, ◌>>◌,
}
use celium.Tenancy.Caps.{TenantCaps, narrow}
use celium.Tenancy.Auth.{
  Crypto, hash_password, verify_password, hash_token, mint_token, default_session_ttl_secs, Session,
  is_expired_at,
}
use celium.Tenancy.Model.{TenantId, UserId, User, Tenant, StoreState, is_session_of}

-- `find` and the write through the reference that `iter_mut().find()` returns: the first user of
-- that id.
unfoldable pub update_user : UserId → (User → User) → List User → List User
update_user id f [] = []
update_user id f (u ∷ us) = if eqb u.id id then f u ∷ us else u ∷ update_user id f us

abbrev pub find_user : UserId → List User → Option User
find_user id = find (λ u. eqb u.id id)

abbrev pub drop_sessions_of : TenantId → UserId → List Session → List Session
drop_sessions_of tenant user = retain (λ s. not (is_session_of tenant user s))

unfoldable pub set_password_checks :
    Crypto → Bytes → StoreState → TenantId → UserId → Bytes → CelResult (Bytes × Tenant)
set_password_checks c salt s tenant user plain = do
  hash ← hash_password c salt plain
  t ← ok_or (get s.tenants tenant) (invalid "tenant id unknown")
  u ← ok_or (find_user user t.users) (invalid "user id unknown")
  ok (hash, t)

unfoldable pub set_password :
    Crypto → Bytes → StoreState → TenantId → UserId → Bytes → StoreState × CelResult (Unit {0})
set_password c salt s tenant user plain = elim (set_password_checks c salt s tenant user plain) [
  | err e ↦ (s, err e)
  | ok (hash, t) ↦ (
    record s {
      tenants =
          insert tenant
            (record t {
              users = update_user user (λ u. record u { password_hash = some hash }) t.users;
            })
            s.tenants;
      sessions = drop_sessions_of tenant user s.sessions;
    },
    ok tt,
  )
]

-- The one error of `authenticate`.
abbrev pub denied : CelError
denied = capability_denied "auth.credentials"

-- `r.map_err(|_| e)` on a check.
abbrev pub checked_as : CelResult (Unit {0}) → CelError → CelResult (Unit {0})
checked_as (ok _) e = ok tt
checked_as (err _) e = err e

unfoldable pub authenticate :
    Crypto → StoreState → Bytes → Bytes → Bytes → CelResult (TenantId × UserId × TenantCaps)
authenticate c s tenant_name user_name password = do
  tid ← ok_or (get s.by_name tenant_name) denied
  t ← ok_or (get s.tenants tid) denied
  u ← ok_or (find (λ u. bytes_eq u.name user_name) t.users) denied
  hash ← ok_or u.password_hash denied
  checked_as (verify_password c password hash) denied
  ok (tid, u.id, u.caps)

-- `saturating_mul` of `u64`, and the expiry that `create_session` computes.
abbrev pub saturating_mul64 : ℕ → ℕ → ℕ
saturating_mul64 a b = saturating_add u64_max 0 (a * b)

abbrev pub expiry : ℕ → Option ℕ → ℕ
expiry created_ms ttl_secs =
    saturating_add u64_max created_ms
      (saturating_mul64 (elim ttl_secs [ none ↦ default_session_ttl_secs | some t ↦ t ]) 1000)

-- The session that `create_session` stores.
abbrev pub new_session : Bytes → TenantId → User → TenantCaps → ℕ → Option ℕ → Session
new_session token_hash tenant u requested_caps created_ms ttl_secs = record {
  token_hash = token_hash;
  tenant = tenant;
  user = u.id;
  user_name = u.name;
  caps = narrow u.caps requested_caps;
  created_ms = created_ms;
  expires_ms = expiry created_ms ttl_secs;
}

unfoldable pub session_user : StoreState → TenantId → UserId → CelResult User
session_user s tenant user = do
  t ← ok_or (get s.tenants tenant) (invalid "tenant id unknown")
  ok_or (find_user user t.users) (invalid "user id unknown")

-- `raw` are the random bytes of the token, `now_ms` is the time.
unfoldable pub create_session :
    Crypto
    → List ℕ
    → ℕ
    → StoreState
    → TenantId
    → UserId
    → TenantCaps
    → Option ℕ
    → StoreState × CelResult (Bytes × Session)
create_session c raw now_ms s tenant user requested_caps ttl_secs =
    elim (session_user s tenant user) [
      | err e ↦ (s, err e)
      | ok u ↦
          let (token, token_hash) = mint_token c raw in
          let session = new_session token_hash tenant u requested_caps now_ms ttl_secs in
          (
            record s {
              sessions =
                  retain (λ x. not (bytes_eq x.token_hash token_hash)) s.sessions ++ session ∷ [];
            },
            ok (token, session),
          )
    ]

unfoldable pub find_session : Bytes → List Session → Option Session
find_session needle = find (λ s. bytes_eq s.token_hash needle)

unfoldable pub validate_token : Crypto → ℕ → StoreState → Bytes → CelResult Session
validate_token c now_ms s token = do
  session ← ok_or (find_session (hash_token c token) s.sessions) (capability_denied "auth.session")
  refuse_if (is_expired_at session now_ms) (capability_denied "auth.session")
  ok session

unfoldable pub revoke_token : Crypto → StoreState → Bytes → StoreState × CelResult (Unit {0})
revoke_token c s token = (
  record s { sessions = retain (λ x. not (bytes_eq x.token_hash (hash_token c token))) s.sessions },
  ok tt,
)

-- `before - self.sessions.len()`
abbrev pub dropped : List Session → List Session → ℕ
dropped before after = length before - length after

unfoldable pub purge_expired_sessions : ℕ → StoreState → StoreState × ℕ
purge_expired_sessions now_ms s =
    let kept = retain (λ x. not (is_expired_at x now_ms)) s.sessions in
    (record s { sessions = kept }, dropped s.sessions kept)

unfoldable pub revoke_user_sessions : StoreState → TenantId → UserId → StoreState × CelResult ℕ
revoke_user_sessions s tenant user = elim (get s.tenants tenant) [
  | none ↦ (s, err (invalid "tenant id unknown"))
  | some _ ↦
      let kept = drop_sessions_of tenant user s.sessions in
      (record s { sessions = kept }, ok (dropped s.sessions kept))
]

abbrev pub drop_tenant_sessions : TenantId → List Session → List Session
drop_tenant_sessions tenant = retain (λ s. not (eqb s.tenant tenant))

unfoldable pub revoke_tenant_sessions : StoreState → TenantId → StoreState × CelResult ℕ
revoke_tenant_sessions s tenant = elim (get s.tenants tenant) [
  | none ↦ (s, err (invalid "tenant id unknown"))
  | some _ ↦
      let kept = drop_tenant_sessions tenant s.sessions in
      (record s { sessions = kept }, ok (dropped s.sessions kept))
]
