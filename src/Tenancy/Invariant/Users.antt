-- ===== src/Tenancy/Invariant/Users.antt =====
-- The operations on the users of one tenant keep the store well formed.
use celium.Prelude.{
  ℕ, ◌+◌, ◌≤◌, ◌≡◌, refl, true, not, some, List, [], ◌∷◌, ◌++◌, All, arith, eqb, eqb_iff, inl, inr,
  retain, map, Option-cases, Bool, Bool-cases,
}
use celium.Prelude.Key.{Bytes, nat_key, bytes_key}
use celium.Prelude.Map.{get}
use celium.Prelude.Error.{ok, CelResult-cases}
use celium.Tenancy.Caps.{TenantCaps, contains}
use celium.Tenancy.Caps.Laws.{contains-attenuate, contains-narrow_right}
use celium.Tenancy.Auth.{Crypto, Session}
use celium.Tenancy.Model.{TenantId, UserId, User, Tenant, StoreState}
use celium.Tenancy.Tenants.{add_user_checks, add_user, remove_user, new_user}
use celium.Tenancy.Sessions.{set_password_checks, set_password, update_user, drop_tenant_sessions}
use celium.Tenancy.Admin.{rotate_checks, rotate_root_caps, narrow_user}
use celium.Tenancy.Invariant.{SessionFits, IsWellFormed, All-mono, All-retain, All-append}
use celium.Tenancy.Invariant.Update.{StillFits, updated-IsWellFormed, unchanged-StillFits}

-- The sessions that a test leaves still fit a tenant that keeps its root capabilities.
kept_fit :
    (s : StoreState) (tid : TenantId) (t t' : Tenant) (p : Session → Bool)
    → IsWellFormed s
    → get s.tenants tid ≡ some t
    → t'.root_caps ≡ t.root_caps
    → All (StillFits s tid t') (retain p s.sessions)
kept_fit s tid t t' p w found e =
    All-mono (retain p s.sessions) (λ x h. unchanged-StillFits s tid t t' found e x h.0)
      (All-retain (SessionFits s) p s.sessions w.sessions)

All-fit :
    (s : StoreState) (tid : TenantId) (t t' : Tenant)
    → IsWellFormed s
    → get s.tenants tid ≡ some t
    → t'.root_caps ≡ t.root_caps
    → All (StillFits s tid t') s.sessions
All-fit s tid t t' w found e =
    All-mono s.sessions (unchanged-StillFits s tid t t' found e) w.sessions

-- What `add_user` has checked.
record Added (s : StoreState) (tid : TenantId) (t : Tenant) (id : ℕ) (caps : TenantCaps)
    : Type 0 where
  found : get s.tenants tid ≡ some t
  next : id ≡ s.next_user_id + 1
  part : contains t.root_caps caps ≡ true

add_user_checks-Added :
    (s : StoreState) (tid : TenantId) (name : Bytes) (requested : TenantCaps) (t : Tenant) (id : ℕ)
    (caps : TenantCaps)
    → add_user_checks s tid name requested ≡ ok (t, id, caps)
    → Added s tid t id caps
unfolding add_user_checks
add_user_checks-Added s tid name requested t id caps h = record {
  found = ground arith;
  next = ground arith;
  part = (contains-attenuate t.root_caps requested (ground arith)).1;
}

pub add_user-IsWellFormed :
    (s : StoreState) (tid : TenantId) (name : Bytes) (requested : TenantCaps)
    → IsWellFormed s
    → IsWellFormed (add_user s tid name requested).0
unfolding add_user
add_user-IsWellFormed s tid name requested w =
    elim (CelResult-cases (add_user_checks s tid name requested)) [
      | inl ((t, id, caps), e) ↦
          let a = add_user_checks-Added s tid name requested t id caps e in
          let t' : Tenant = record t { users = t.users ++ new_user id name caps ∷ [] } in
          rw (e, add_user)
            (updated-IsWellFormed s tid t t' id s.sessions w a.found
              (record { id = refl; name = refl; parent = refl }) (w.tenants tid t a.found).within
              (All-append _ t.users _
                (All-mono t.users (λ u p. (p.0, omega (arith, a.next)))
                  (w.tenants tid t a.found).users)
                ((a.part, omega arith), tt))
              (omega (arith, a.next)) (All-fit s tid t t' w a.found refl))
      | inr (x, e) ↦ rw (e, add_user) w
    ]

pub remove_user-IsWellFormed :
    (s : StoreState) (tid : TenantId) (user : UserId)
    → IsWellFormed s
    → IsWellFormed (remove_user s tid user).0
unfolding remove_user
remove_user-IsWellFormed s tid user w = elim (Option-cases (get s.tenants tid)) [
  | inl e ↦ rw (e, remove_user) w
  | inr (t, e) ↦
      let t' : Tenant = record t { users = retain (λ u. not (eqb u.id user)) t.users } in
      rw (e, remove_user)
        (updated-IsWellFormed s tid t t' s.next_user_id _ w e
          (record { id = refl; name = refl; parent = refl }) (w.tenants tid t e).within
          (All-mono t'.users (λ u p. p.0)
            (All-retain _ (λ u. not (eqb u.id user)) t.users (w.tenants tid t e).users))
          (omega arith) (kept_fit s tid t t' _ w e refl))
]

-- A new password changes no id and no capability.
update_user-UsersFit :
    (user : UserId) (hash : Bytes) (root : TenantCaps) (n : ℕ) (us : List User)
    → All (λ (u : User). (contains root u.caps ≡ true) × (u.id ≤ n)) us
    → All
        (λ (u : User). (contains root u.caps ≡ true) × (u.id ≤ n))
        (update_user user (λ u. record u { password_hash = some hash }) us)
unfolding update_user
update_user-UsersFit user hash root n [] h = tt
update_user-UsersFit user hash root n (u ∷ us) h =
    let rest = update_user-UsersFit user hash root n us h.1 in
    elim (Bool-cases (eqb u.id user)) [ inl e ↦ rw e (h.0, h.1) | inr e ↦ rw e (h.0, rest) ]

set_password_found :
    (c : Crypto) (salt : Bytes) (s : StoreState) (tid : TenantId) (user : UserId)
    (plain hash : Bytes) (t : Tenant)
    → set_password_checks c salt s tid user plain ≡ ok (hash, t)
    → get s.tenants tid ≡ some t
unfolding set_password_checks
set_password_found c salt s tid user plain hash t h = ground arith

pub set_password-IsWellFormed :
    (c : Crypto) (salt : Bytes) (s : StoreState) (tid : TenantId) (user : UserId) (plain : Bytes)
    → IsWellFormed s
    → IsWellFormed (set_password c salt s tid user plain).0
unfolding set_password
set_password-IsWellFormed c salt s tid user plain w =
    elim (CelResult-cases (set_password_checks c salt s tid user plain)) [
      | inl ((hash, t), e) ↦
          let found = set_password_found c salt s tid user plain hash t e in
          let t' : Tenant = record t {
            users = update_user user (λ u. record u { password_hash = some hash }) t.users;
          } in
          rw (e, set_password)
            (updated-IsWellFormed s tid t t' s.next_user_id _ w found
              (record { id = refl; name = refl; parent = refl }) (w.tenants tid t found).within
              (update_user-UsersFit user hash t.root_caps s.next_user_id t.users
                (w.tenants tid t found).users)
              (omega arith) (kept_fit s tid t t' _ w found refl))
      | inr (x, e) ↦ rw (e, set_password) w
    ]

-- Every user is narrowed to the new root capabilities.
narrow_user-UsersFit :
    (new_caps root : TenantCaps) (n : ℕ) (us : List User)
    → All (λ (u : User). (contains root u.caps ≡ true) × (u.id ≤ n)) us
    → All
        (λ (u : User). (contains new_caps u.caps ≡ true) × (u.id ≤ n))
        (map (narrow_user new_caps) us)
narrow_user-UsersFit new_caps root n [] h = tt
narrow_user-UsersFit new_caps root n (u ∷ us) h =
    ((contains-narrow_right u.caps new_caps, h.0.1), narrow_user-UsersFit new_caps root n us h.1)

rotate_found :
    (s : StoreState) (tid : TenantId) (new_caps : TenantCaps) (t : Tenant)
    → rotate_checks s tid new_caps ≡ ok t
    → get s.tenants tid ≡ some t
unfolding rotate_checks
rotate_found s tid new_caps t h = ground arith

-- No session of the tenant is left, so each fits the new capabilities.
foreign_fit :
    (s : StoreState) (tid : TenantId) (t' : Tenant)
    → IsWellFormed s
    → All (StillFits s tid t') (drop_tenant_sessions tid s.sessions)
foreign_fit s tid t' w =
    All-mono (drop_tenant_sessions tid s.sessions)
      (λ x p. (p.0, λ e. absurd (ground (arith, p.1, eqb_iff x.tenant tid))))
      (All-retain (SessionFits s) (λ x. not (eqb x.tenant tid)) s.sessions w.sessions)

pub rotate_root_caps-IsWellFormed :
    (s : StoreState) (tid : TenantId) (new_caps : TenantCaps)
    → IsWellFormed s
    → IsWellFormed (rotate_root_caps s tid new_caps).0
unfolding rotate_root_caps
rotate_root_caps-IsWellFormed s tid new_caps w =
    elim (CelResult-cases (rotate_checks s tid new_caps)) [
      | inl (t, e) ↦
          let found = rotate_found s tid new_caps t e in
          let t' : Tenant = record t {
            root_caps = new_caps;
            users = map (narrow_user new_caps) t.users;
          } in
          rw (e, rotate_root_caps)
            (updated-IsWellFormed s tid t t' s.next_user_id _ w found
              (record { id = refl; name = refl; parent = refl }) (w.tenants tid t found).within
              (narrow_user-UsersFit new_caps t.root_caps s.next_user_id t.users
                (w.tenants tid t found).users)
              (omega arith) (foreign_fit s tid t' w))
      | inr (x, e) ↦ rw (e, rotate_root_caps) w
    ]
