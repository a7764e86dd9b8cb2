-- ===== src/Tenancy/Invariant/Revocation.antt =====
-- The operations on sessions, and the deletion of one tenant, keep the store well formed.
use celium.Prelude.{
  ℕ, ◌≤◌, ◌≡◌, true, false, some, Option, List, All, arith, eqb, eqb_iff, inl, inr, retain, any,
  Bool, Option-cases,
}
use celium.Prelude.Key.{Bytes, nat_key, bytes_key}
use celium.Prelude.Map.{get, values, get-any}
use celium.Prelude.Error.{ok, CelResult-cases}
use celium.Tenancy.Caps.{TenantCaps, contains}
use celium.Tenancy.Caps.Laws.{contains_trans, contains-narrow_left}
use celium.Tenancy.Auth.{Crypto, Session, mint_token}
use celium.Tenancy.Model.{TenantId, UserId, User, Tenant, StoreState}
use celium.Tenancy.Tenants.{is_child_of, delete_checks, delete}
use celium.Tenancy.Sessions.{
  find_user, session_user, create_session, revoke_token, purge_expired_sessions,
  revoke_user_sessions, revoke_tenant_sessions,
}
use celium.Tenancy.Invariant.{SessionFits, IsWellFormed, All-mono, All-retain, All-find, All-append}
use celium.Tenancy.Invariant.Remove.{IsChildless, removed-IsWellFormed}

-- Other sessions that fit are as good.
pub sessions-IsWellFormed :
    (s : StoreState) (xs : List Session)
    → IsWellFormed s
    → All (SessionFits s) xs
    → IsWellFormed (record s { sessions = xs })
sessions-IsWellFormed s xs w h = record {
  tenants = λ k t e.
      let i = w.tenants k t e in
      record {
        id = i.id;
        bounded = i.bounded;
        named = i.named;
        parent = i.parent;
        within = i.within;
        users = i.users;
      };
  indexed = w.indexed;
  ordered = w.ordered;
  sessions = h;
}

pub retain-IsWellFormed :
    (s : StoreState) (p : Session → Bool)
    → IsWellFormed s
    → IsWellFormed (record s { sessions = retain p s.sessions })
retain-IsWellFormed s p w = sessions-IsWellFormed s _ w (
    All-mono (retain p s.sessions) (λ x h. h.0)
      (All-retain (SessionFits s) p s.sessions w.sessions))

-- The user of a session, with the capabilities that the tenant allows.
session_user_fits :
    (s : StoreState) (tid : TenantId) (user : UserId) (u : User)
    → IsWellFormed s
    → session_user s tid user ≡ ok u
    → (tid ≤ s.next_tenant_id)
      × ((t : Tenant) → get s.tenants tid ≡ some t → contains t.root_caps u.caps ≡ true)
unfolding session_user
session_user_fits s tid user u w h = elim (Option-cases (get s.tenants tid)) [
  | inl e ↦ absurd (cc (rw e at h))
  | inr (t, e) ↦
      let found : find_user user t.users ≡ some u = ground arith in
      (
        (w.tenants tid t e).bounded,
        λ t' e'.
            let same : t ≡ t' = cc in
            rw (← same)
              (All-find _ (λ v. eqb v.id user) t.users u found (w.tenants tid t e).users).0,
      )
]

pub create_session-IsWellFormed :
    (c : Crypto) (raw : List ℕ) (now_ms : ℕ) (s : StoreState) (tid : TenantId) (user : UserId)
    (requested : TenantCaps) (ttl_secs : Option ℕ)
    → IsWellFormed s
    → IsWellFormed (create_session c raw now_ms s tid user requested ttl_secs).0
unfolding create_session mint_token
create_session-IsWellFormed c raw now_ms s tid user requested ttl_secs w =
    elim (CelResult-cases (session_user s tid user)) [
      | inl (u, e) ↦
          let fits = session_user_fits s tid user u w e in
          rw (e, create_session)
            (sessions-IsWellFormed s _ w (
              All-append (SessionFits s) _ _ (retain-IsWellFormed s _ w).sessions (
                (
                  fits.0,
                  λ t h.
                      contains_trans t.root_caps u.caps _ (fits.1 t h)
                        (contains-narrow_left u.caps requested),
                ),
                tt,
              )))
      | inr (x, e) ↦ rw (e, create_session) w
    ]

pub revoke_token-IsWellFormed :
    (c : Crypto) (s : StoreState) (token : Bytes)
    → IsWellFormed s
    → IsWellFormed (revoke_token c s token).0
unfolding revoke_token
revoke_token-IsWellFormed c s token w = retain-IsWellFormed s _ w

pub purge_expired_sessions-IsWellFormed :
    (now_ms : ℕ) (s : StoreState)
    → IsWellFormed s
    → IsWellFormed (purge_expired_sessions now_ms s).0
unfolding purge_expired_sessions
purge_expired_sessions-IsWellFormed now_ms s w = retain-IsWellFormed s _ w

pub revoke_user_sessions-IsWellFormed :
    (s : StoreState) (tid : TenantId) (user : UserId)
    → IsWellFormed s
    → IsWellFormed (revoke_user_sessions s tid user).0
unfolding revoke_user_sessions
revoke_user_sessions-IsWellFormed s tid user w = elim (Option-cases (get s.tenants tid)) [
  | inl e ↦ rw (e, revoke_user_sessions) w
  | inr (t, e) ↦ rw (e, revoke_user_sessions) (retain-IsWellFormed s _ w)
]

pub revoke_tenant_sessions-IsWellFormed :
    (s : StoreState) (tid : TenantId)
    → IsWellFormed s
    → IsWellFormed (revoke_tenant_sessions s tid).0
unfolding revoke_tenant_sessions
revoke_tenant_sessions-IsWellFormed s tid w = elim (Option-cases (get s.tenants tid)) [
  | inl e ↦ rw (e, revoke_tenant_sessions) w
  | inr (t, e) ↦ rw (e, revoke_tenant_sessions) (retain-IsWellFormed s _ w)
]

-- A tenant that names `p` as its parent is a child of `p`.
pub is_child_of_parent : (u : Tenant) (p : TenantId) → u.parent ≡ some p → is_child_of p u ≡ true
is_child_of_parent u p e = ground (arith, eqb_iff p p)

deletable :
    (s : StoreState) (tid : TenantId) (t : Tenant)
    → delete_checks s tid ≡ ok t
    → (get s.tenants tid ≡ some t) × IsChildless s.tenants tid
unfolding delete_checks
deletable s tid t h =
    let none_left : any (is_child_of tid) (values s.tenants) ≡ false = ground arith in
    (
      ground arith,
      λ k u e p.
          cc (get-any (is_child_of tid) k u s.tenants none_left e, is_child_of_parent u tid p),
    )

pub delete-IsWellFormed :
    (s : StoreState) (tid : TenantId) → IsWellFormed s → IsWellFormed (delete s tid).0
unfolding delete
delete-IsWellFormed s tid w = elim (CelResult-cases (delete_checks s tid)) [
  | inl (t, e) ↦
      let (found, childless) = deletable s tid t e in
      rw (e, delete) (removed-IsWellFormed s tid t s.sessions w found childless w.sessions)
  | inr (x, e) ↦ rw (e, delete) w
]
