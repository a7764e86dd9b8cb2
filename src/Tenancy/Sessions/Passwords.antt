-- ===== src/Tenancy/Sessions/Passwords.antt =====
-- Passwords of crates/celtenancy/src/store.rs: a password that is set authenticates its user.
use celium.Prelude.{
  ◌≡◌, refl, true, false, Option, some, List, [], ◌∷◌, arith, eqb, eqb_iff, find, All, Option-cases,
  inl, inr,
}
use celium.Prelude.Key.{Bytes, bytes_eq, bytes_eq_iff, nat_key, bytes_key}
use celium.Prelude.Map.{get, insert, get-insert_self}
use celium.Prelude.Error.{CelError, ok, err, CelResult-cases}
use celium.Tenancy.Auth.{Crypto, Verifies, hash_password, verify_password, Session}
use celium.Tenancy.Model.{TenantId, UserId, User, Tenant, StoreState, is_session_of}
use celium.Tenancy.Sessions.{
  update_user, find_user, set_password_checks, set_password, authenticate, denied, drop_sessions_of,
}
use celium.Tenancy.Invariant.{IsWellFormed}

abbrev with_hash : Bytes → User → User
with_hash hash u = record u { password_hash = some hash }

abbrev pub find_name : Bytes → List User → Option User
find_name name = find (λ u. bytes_eq u.name name)

-- Where a name and an id find one user first, the update is found by the name.
find_name-update_user :
    (id : UserId) (name hash : Bytes) (us : List User) (u : User)
    → eqb u.id id ≡ true
    → bytes_eq u.name name ≡ true
    → find_user id us ≡ some u
    → find_name name us ≡ some u
    → find_name name (update_user id (with_hash hash) us) ≡ some (with_hash hash u)
unfolding update_user
find_name-update_user id name hash [] u ei en hi hn = cc
find_name-update_user id name hash (x ∷ xs) u ei en hi hn =
    ground (arith, find_name-update_user id name hash xs u)

checked :
    (c : Crypto) (salt : Bytes) (s : StoreState) (tid : TenantId) (user : UserId)
    (plain hash : Bytes) (t : Tenant)
    → set_password_checks c salt s tid user plain ≡ ok (hash, t)
    → (hash_password c salt plain ≡ ok hash) × (get s.tenants tid ≡ some t)
unfolding set_password_checks
checked c salt s tid user plain hash t h = (ground arith, ground arith)

dropped-All :
    (tid : TenantId) (user : UserId) (xs : List Session)
    → All (λ (x : Session). is_session_of tid user x ≡ false) (drop_sessions_of tid user xs)
dropped-All tid user [] = tt
dropped-All tid user (x ∷ xs) = ground (arith, dropped-All tid user xs)

set_password_done :
    (c : Crypto) (salt : Bytes) (s s' : StoreState) (tid : TenantId) (user : UserId) (plain : Bytes)
    → set_password c salt s tid user plain ≡ (s', ok tt)
    → (hash : Bytes) × (t : Tenant) × (hash_password c salt plain ≡ ok hash)
      × (get s.tenants tid ≡ some t)
      × (s'.tenants
          ≡ insert tid (record t { users = update_user user (with_hash hash) t.users }) s.tenants)
      × (s'.by_name ≡ s.by_name)
      × (s'.sessions ≡ drop_sessions_of tid user s.sessions)
unfolding set_password
set_password_done c salt s s' tid user plain h =
    elim (CelResult-cases (set_password_checks c salt s tid user plain)) [
      | inr (x, e) ↦ absurd (ground arith)
      | inl ((hash, t), e) ↦
          let (hashed, found) = checked c salt s tid user plain hash t e in
          (hash, t, hashed, found, ground arith, ground arith, ground arith)
    ]

hash-Verifies :
    (c : Crypto) (salt plain hash : Bytes)
    → Verifies c
    → hash_password c salt plain ≡ ok hash
    → verify_password c plain hash ≡ ok tt
unfolding hash_password verify_password
hash-Verifies c salt plain hash law h = elim (Option-cases (c.argon2_hash plain salt)) [
  | inl e ↦ absurd (ground arith)
  | inr (phc, e) ↦ let same : phc ≡ hash = ground arith in ground (arith, law plain salt phc e)
]

-- A password that was set authenticates its user with the user's id and capabilities, in a well-
-- formed store, if the hash verifies what it hashed and the id and the name of the user are found
-- in the tenant.
pub authenticate-set_password :
    (c : Crypto) (salt : Bytes) (s s' : StoreState) (tid : TenantId) (t : Tenant) (u : User)
    (plain : Bytes)
    → Verifies c
    → IsWellFormed s
    → get s.tenants tid ≡ some t
    → find_user u.id t.users ≡ some u
    → find_name u.name t.users ≡ some u
    → set_password c salt s tid u.id plain ≡ (s', ok tt)
    → authenticate c s' t.name u.name plain ≡ ok (tid, u.id, u.caps)
unfolding authenticate
authenticate-set_password c salt s s' tid t u plain law w found by_id by_name h =
    let (hash, t0, hashed, found0, tenants, names, rest) =
      set_password_done c salt s s' tid u.id plain h in
    let same : t0 ≡ t = cc in
    let named : get s'.by_name t.name ≡ some tid = cc (names, (w.tenants tid t found).named) in
    let t' : Tenant = record t { users = update_user u.id (with_hash hash) t.users } in
    let at : get s'.tenants tid ≡ some t' = cc (tenants, same, get-insert_self tid t' s.tenants) in
    let user =
      find_name-update_user u.id u.name hash t.users u ((eqb_iff u.id u.id).1 refl)
        ((bytes_eq_iff u.name u.name).1 refl) by_id by_name in
    ground (arith, named, at, user, hash-Verifies c salt plain hash law hashed)

-- Every failure of a login is the same error.
authenticate_uniform :
    (c : Crypto) (s : StoreState) (tenant_name user_name password : Bytes) (e : CelError)
    → authenticate c s tenant_name user_name password ≡ err e
    → e ≡ denied
unfolding authenticate
authenticate_uniform c s tenant_name user_name password e h = ground arith

-- A password change leaves no session of its user.
set_password_revokes :
    (c : Crypto) (salt : Bytes) (s s' : StoreState) (tid : TenantId) (user : UserId) (plain : Bytes)
    → set_password c salt s tid user plain ≡ (s', ok tt)
    → All (λ (x : Session). is_session_of tid user x ≡ false) s'.sessions
set_password_revokes c salt s s' tid user plain h =
    let (hash, t, hashed, found, tenants, names, rest) =
      set_password_done c salt s s' tid user plain h in
    rw rest (dropped-All tid user s.sessions)
