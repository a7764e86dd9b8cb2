-- ===== src/Tenancy/Admin/Rotation.antt =====
-- What a rotation of root capabilities in crates/celtenancy/src/store.rs changes, and what it leaves.
use celium.Prelude.{
  ℕ, not, retain, ◌&&◌, ◌<◌, ◌≡◌, ◌≢◌, refl, true, false, some, List, [], ◌∷◌, All, arith, eqb,
  eqb_iff, inl, inr, map, ap, subst, ◌∙◌,
}
use celium.Prelude.Key.{nat_key}
use celium.Prelude.Map.{get, get-insert, get-insert_self}
use celium.Prelude.Error.{CelError, ok, err, CelResult-cases}
use celium.Tenancy.Auth.{Session}
use celium.Tenancy.Caps.{TenantCaps, all_caps, contains}
use celium.Tenancy.Caps.Laws.{contains-narrow, contains-narrow_left, contains-narrow_right}
use celium.Tenancy.Model.{TenantId, User, Tenant, StoreState, RotateReport}
use celium.Tenancy.Sessions.{drop_tenant_sessions}
use celium.Tenancy.Admin.{rotate_checks, rotate_root_caps, narrow_user}
use celium.Tenancy.Invariant.{ParentLives, IsWellFormed}

-- A user before and after a rotation: it holds a known capability exactly if it did and the new set
-- has it, and is otherwise the same.
pub record IsNarrowed (caps : TenantCaps) (u v : User) : Type 0 where
  pub others : v ≡ record u { caps = v.caps }
  pub left : contains u.caps v.caps ≡ true
  pub right : contains caps v.caps ≡ true
  pub held :
      (x : TenantCaps)
      → contains all_caps x ≡ true
      → contains v.caps x ≡ (contains u.caps x && contains caps x)

-- The users of a tenant before and after a rotation, in order.
abbrev pub Narrowed : TenantCaps → List User → List User → Type 0
Narrowed caps [] [] = Unit {0}
Narrowed caps [] (v ∷ vs) = ⊥
Narrowed caps (u ∷ us) [] = ⊥
Narrowed caps (u ∷ us) (v ∷ vs) = IsNarrowed caps u v × Narrowed caps us vs

map-Narrowed : (caps : TenantCaps) (us : List User) → Narrowed caps us (map (narrow_user caps) us)
map-Narrowed caps [] = tt
map-Narrowed caps (u ∷ us) = (
  record {
    others = refl;
    left = contains-narrow_left u.caps caps;
    right = contains-narrow_right u.caps caps;
    held = contains-narrow u.caps caps;
  },
  map-Narrowed caps us,
)

none_of_tenant :
    (tid : TenantId) (xs : List Session)
    → All (λ (x : Session). eqb x.tenant tid ≡ false) (drop_tenant_sessions tid xs)
none_of_tenant tid [] = tt
none_of_tenant tid (x ∷ xs) = ground (arith, none_of_tenant tid xs)

-- What a successful rotation does: to the tenant, to its users, to the sessions, and to the rest.
pub record Rotated (s s' : StoreState) (tid : TenantId) (caps : TenantCaps) : Type 0 where
  pub before : Tenant
  pub found : get s.tenants tid ≡ some before
  pub after : Tenant
  pub written : get s'.tenants tid ≡ some after
  pub root_caps : after.root_caps ≡ caps
  pub same_tenant : after ≡ record before { root_caps = caps; users = after.users }
  pub users : Narrowed caps before.users after.users
  pub others : (k : ℕ) → k ≢ tid → get s'.tenants k ≡ get s.tenants k
  pub sessions : All (λ (x : Session). eqb x.tenant tid ≡ false) s'.sessions
  pub kept : s'.sessions ≡ retain (λ x. not (eqb x.tenant tid)) s.sessions
  pub same_store : s' ≡ record s { tenants = s'.tenants; sessions = s'.sessions }

rotation :
    (s : StoreState) (tid : TenantId) (caps : TenantCaps) (t : Tenant)
    → rotate_checks s tid caps ≡ ok t
    → get s.tenants tid ≡ some t
unfolding rotate_checks
rotation s tid caps t h = ground arith

rotated :
    (s : StoreState) (tid : TenantId) (caps : TenantCaps) (t : Tenant)
    → rotate_checks s tid caps ≡ ok t
    → Rotated s (rotate_root_caps s tid caps).0 tid caps
unfolding rotate_root_caps
rotated s tid caps t e =
    let t' : Tenant = record t { root_caps = caps; users = map (narrow_user caps) t.users } in
    rw (e, rotate_root_caps)
      (record {
        before = t;
        found = rotation s tid caps t e;
        after = t';
        written = get-insert_self tid t' s.tenants;
        root_caps = refl;
        same_tenant = refl;
        users = map-Narrowed caps t.users;
        others = λ k ne. ground (arith, get-insert tid k t' s.tenants, eqb_iff tid k);
        sessions = none_of_tenant tid s.sessions;
        kept = refl;
        same_store = refl;
      })

refused :
    (s s' : StoreState) (tid : TenantId) (caps : TenantCaps) (r : RotateReport) (x : CelError)
    → rotate_checks s tid caps ≡ err x
    → rotate_root_caps s tid caps ≡ (s', ok r)
    → ⊥
unfolding rotate_root_caps
refused s s' tid caps r x e h = ground arith

-- A rotation that succeeds sets the root capabilities; each user of the tenant, in order, keeps
-- exactly those of its known capabilities that the new set has, and its id, name and password
-- hash; the sessions of the tenant are dropped and no others; nothing else of the tenant, no
-- other tenant and nothing else of the store changes.
pub rotate_root_caps_effect :
    (s s' : StoreState) (tid : TenantId) (caps : TenantCaps) (r : RotateReport)
    → rotate_root_caps s tid caps ≡ (s', ok r)
    → Rotated s s' tid caps
rotate_root_caps_effect s s' tid caps r h = elim (CelResult-cases (rotate_checks s tid caps)) [
  | inl (t, e) ↦
      let same : (rotate_root_caps s tid caps).0 ≡ s' = ap (λ x. x.0) h in
      rw same at (rotated s tid caps t e)
  | inr (x, e) ↦ absurd (refused s s' tid caps r x e h)
]

-- In a well-formed store a rotation does not reach the subtenants: a child with a capability
-- outside the new set keeps it, and then holds more than its parent.
pub rotate_leaves_children :
    (s s' : StoreState) (tid k : TenantId) (caps : TenantCaps) (child : Tenant) (r : RotateReport)
    → IsWellFormed s
    → get s.tenants k ≡ some child
    → child.parent ≡ some tid
    → contains caps child.root_caps ≡ false
    → rotate_root_caps s tid caps ≡ (s', ok r)
    → (parent : Tenant) × (get s'.tenants tid ≡ some parent)
      × (get s'.tenants k ≡ some child)
      × (contains parent.root_caps child.root_caps ≡ false)
rotate_leaves_children s s' tid k caps child r w found up outside h =
    let done = rotate_root_caps_effect s s' tid caps r h in
    let older : tid < k = (subst (ParentLives s.tenants k) up (w.tenants k child found).parent).0 in
    (done.after, done.written, done.others k (λ e. omega arith) ∙ found, rw done.root_caps outside)
