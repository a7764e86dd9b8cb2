-- ===== src/Tenancy/Sessions/Laws.antt =====
-- Sessions of crates/celtenancy/src/store.rs: what a token is good for, and until when.
use celium.Prelude.{
  ℕ, any, Bool-cases, sym, ◌<◌, ◌≤◌, ◌≡◌, refl, true, false, not, Bool, Option, none, some, List,
  [], ◌∷◌, ◌++◌, arith, retain, ltb, if◌then◌else◌, Option-cases, inl, inr, ap, ◌∙◌,
}
use celium.Prelude.Key.{bytes_key, Bytes, bytes_eq, bytes_eq_iff, nat_key}
use celium.Prelude.Map.{get, remove, values, get-remove_self}
use celium.Prelude.Error.{CelError, ok, err, capability_denied, CelResult-cases}
use celium.Tenancy.Caps.{TenantCaps, contains}
use celium.Tenancy.Auth.{Crypto, Session, hash_token, mint_token, is_expired_at}
use celium.Tenancy.Model.{TenantId, UserId, Tenant, StoreState}
use celium.Tenancy.Sessions.{
  find_session, session_user, create_session, validate_token, revoke_token, purge_expired_sessions,
}
use celium.Tenancy.Quota.{is_default}
use celium.Tenancy.Tenants.{is_child_of, delete_checks, delete}
use celium.Tenancy.Invariant.{SessionFits, IsWellFormed, All-find}

abbrev pub session_denied : CelError
session_denied = capability_denied "auth.session"

abbrev other_hash : Bytes → Session → Bool
other_hash h x = not (bytes_eq x.token_hash h)

-- Sessions of other tokens are looked past.
find_session-retain :
    (h : Bytes) (xs ys : List Session)
    → find_session h (retain (other_hash h) xs ++ ys) ≡ find_session h ys
unfolding find_session
find_session-retain h [] ys = refl
find_session-retain h (x ∷ xs) ys = ground (arith, find_session-retain h xs ys)

find_session-gone :
    (h : Bytes) (xs : List Session) → find_session h (retain (other_hash h) xs) ≡ none
unfolding find_session
find_session-gone h [] = refl
find_session-gone h (x ∷ xs) = ground (arith, find_session-gone h xs)

find_session-here :
    (h : Bytes) (x : Session) (ys : List Session)
    → x.token_hash ≡ h
    → find_session h (x ∷ ys) ≡ some x
unfolding find_session
find_session-here h x ys e = ground (arith, bytes_eq_iff x.token_hash h)

created_session :
    (c : Crypto) (raw : List ℕ) (now_ms : ℕ) (s s' : StoreState) (tid : TenantId) (user : UserId)
    (requested : TenantCaps) (ttl : Option ℕ) (token : Bytes) (session : Session)
    → create_session c raw now_ms s tid user requested ttl ≡ (s', ok (token, session))
    → (session.token_hash ≡ hash_token c token)
      × (s'.sessions ≡ retain (other_hash (hash_token c token)) s.sessions ++ session ∷ [])
unfolding create_session mint_token
created_session c raw now_ms s s' tid user requested ttl token session h =
    elim (CelResult-cases (session_user s tid user)) [
      | inr (x, e) ↦ absurd (ground arith)
      | inl (u, e) ↦ (ground arith, ground arith)
    ]

-- A token that was just minted is good for its session exactly until the session expires.
pub validate_token-create_session :
    (c : Crypto) (raw : List ℕ) (now_ms later_ms : ℕ) (s s' : StoreState) (tid : TenantId)
    (user : UserId) (requested : TenantCaps) (ttl : Option ℕ) (token : Bytes) (session : Session)
    → create_session c raw now_ms s tid user requested ttl ≡ (s', ok (token, session))
    → validate_token c later_ms s' token
      ≡ (if ltb later_ms session.expires_ms then ok session else err session_denied)
unfolding validate_token
validate_token-create_session c raw now_ms later_ms s s' tid user requested ttl token session h =
    let (hash, stored) = created_session c raw now_ms s s' tid user requested ttl token session h in
    let found : find_session (hash_token c token) s'.sessions ≡ some session =
      ap (find_session (hash_token c token)) stored
      ∙ find_session-retain (hash_token c token) s.sessions (session ∷ [])
      ∙ find_session-here (hash_token c token) session [] hash in
    ground arith

-- A revoked token is refused from then on, whatever the time.
validate_token-revoke_token :
    (c : Crypto) (now_ms : ℕ) (s : StoreState) (token : Bytes)
    → validate_token c now_ms (revoke_token c s token).0 token ≡ err session_denied
unfolding validate_token revoke_token
validate_token-revoke_token c now_ms s token =
    rw (find_session-gone (hash_token c token) s.sessions) refl

-- Purging what has expired changes no answer, now or later.
find_session-kept :
    (h : Bytes) (now_ms : ℕ) (xs : List Session) (x : Session)
    → find_session h xs ≡ some x
    → is_expired_at x now_ms ≡ false
    → find_session h (retain (λ y. not (is_expired_at y now_ms)) xs) ≡ some x
unfolding find_session
find_session-kept h now_ms [] x e f = cc
find_session-kept h now_ms (y ∷ ys) x e f = ground (arith, find_session-kept h now_ms ys x)

-- A token that is good at a time is still good at it after a purge at that time or before.
pub validate_token-purge :
    (c : Crypto) (now_ms later_ms : ℕ) (s : StoreState) (token : Bytes) (x : Session)
    → now_ms ≤ later_ms
    → validate_token c later_ms s token ≡ ok x
    → validate_token c later_ms (purge_expired_sessions now_ms s).0 token ≡ ok x
unfolding validate_token purge_expired_sessions
validate_token-purge c now_ms later_ms s token x le h =
    elim (Option-cases (find_session (hash_token c token) s.sessions)) [
      | inl e ↦ absurd (ground arith)
      | inr (y, e) ↦ ground (arith, find_session-kept (hash_token c token) now_ms s.sessions y e)
    ]

validated :
    (c : Crypto) (now_ms : ℕ) (s : StoreState) (token : Bytes) (x : Session)
    → validate_token c now_ms s token ≡ ok x
    → (find_session (hash_token c token) s.sessions ≡ some x) × (now_ms < x.expires_ms)
unfolding validate_token
validated c now_ms s token x h = (ground arith, ground arith)

found_hash :
    (h : Bytes) (xs : List Session) (x : Session) → find_session h xs ≡ some x → x.token_hash ≡ h
unfolding find_session
found_hash h [] x e = absurd (cc e)
found_hash h (y ∷ ys) x e = elim (Bool-cases (bytes_eq y.token_hash h)) [
  | inl hit ↦
      let same : y ≡ x = ground (arith, hit, e) in
      ap (λ (z : Session). z.token_hash) (sym same) ∙ (bytes_eq_iff y.token_hash h).0 hit
  | inr miss ↦ found_hash h ys x (rw miss at e)
]

-- In a well-formed store an accepted token is that of a session with its hash that has not expired,
-- and which carries no capability that the root set of its living tenant lacks.
pub validate_token_within :
    (c : Crypto) (now_ms : ℕ) (s : StoreState) (token : Bytes) (x : Session)
    → IsWellFormed s
    → validate_token c now_ms s token ≡ ok x
    → (x.token_hash ≡ hash_token c token)
      × (now_ms < x.expires_ms)
      × ((t : Tenant) → get s.tenants x.tenant ≡ some t → contains t.root_caps x.caps ≡ true)
unfolding find_session
validate_token_within c now_ms s token x w h =
    let (found, live) = validated c now_ms s token x h in
    (
      found_hash (hash_token c token) s.sessions x found,
      live,
      (All-find (SessionFits s) (λ y. bytes_eq y.token_hash (hash_token c token)) s.sessions x found
          w.sessions).1,
    )

deleted :
    (s s' : StoreState) (tid : TenantId)
    → delete s tid ≡ (s', ok tt)
    → (t : Tenant) × (delete_checks s tid ≡ ok t)
      × (s' ≡ record s { tenants = remove tid s.tenants; by_name = remove t.name s.by_name })
unfolding delete
deleted s s' tid h = elim (CelResult-cases (delete_checks s tid)) [
  | inr (x, e) ↦ absurd (cc (rw (e, delete) at h))
  | inl (t, e) ↦ (t, e, ap (λ r. r.0) (sym (rw (e, delete) at h)))
]

delete_checks-passed :
    (s : StoreState) (tid : TenantId) (t : Tenant)
    → delete_checks s tid ≡ ok t
    → (get s.tenants tid ≡ some t)
      × (any (is_child_of tid) (values s.tenants) ≡ false)
      × (is_default t.usage ≡ true)
unfolding delete_checks
delete_checks-passed s tid t h = (ground (arith, h), ground (arith, h), ground (arith, h))

-- When the tenant of an accepted token is deleted, the tenant was there without subtenants and
-- without usage, and it is gone with its name, but the token is still accepted.
pub validate_token-delete :
    (c : Crypto) (now_ms : ℕ) (s s' : StoreState) (token : Bytes) (x : Session)
    → validate_token c now_ms s token ≡ ok x
    → delete s x.tenant ≡ (s', ok tt)
    → ((t : Tenant) × (get s.tenants x.tenant ≡ some t)
        × (any (is_child_of x.tenant) (values s.tenants) ≡ false)
        × (is_default t.usage ≡ true)
        × (get s'.by_name t.name ≡ none))
      × (get s'.tenants x.tenant ≡ none)
      × (validate_token c now_ms s' token ≡ ok x)
unfolding validate_token
validate_token-delete c now_ms s s' token x h d =
    let (t, passed, after) = deleted s s' x.tenant d in
    let (there, childless, unused) = delete_checks-passed s x.tenant t passed in
    rw after (
      (t, there, childless, unused, get-remove_self t.name s.by_name),
      get-remove_self x.tenant s.tenants,
      h,
    )
