-- ===== src/Tenancy/Invariant/Update.antt =====
-- A live tenant that is written back with its identity keeps the store well formed.
use celium.Prelude.{
  ℕ, ◌≤◌, ◌≡◌, refl, true, some, List, All, arith, eqb, eqb_iff, inl, inr, sym, ◌∙◌, ap, Bool-cases,
  subst,
}
use celium.Prelude.Key.{Bytes, nat_key, bytes_key}
use celium.Prelude.Map.{get, insert, get-insert}
use celium.Prelude.Map.Ordered.{insert-IsOrdered}
use celium.Tenancy.Caps.{contains}
use celium.Tenancy.Quota.Laws.{IsWithin}
use celium.Tenancy.Auth.{Session}
use celium.Tenancy.Model.{TenantId, Tenant, StoreState}
use celium.Tenancy.Invariant.{
  UsersFit, ParentLives, SessionFits, IsTenant, IsWellFormed, ParentLives-mono, All-mono,
}

-- `t'` is `t` up to its users, capabilities and usage.
pub record SameTenant (t t' : Tenant) : Type 0 where
  pub id : t'.id ≡ t.id
  pub name : t'.name ≡ t.name
  pub parent : t'.parent ≡ t.parent

-- A session that stays fits the tenant that is written back.
abbrev pub StillFits : StoreState → TenantId → Tenant → Session → Type 0
StillFits s tid t' x = SessionFits s x × (x.tenant ≡ tid → contains t'.root_caps x.caps ≡ true)

abbrev pub updated : StoreState → TenantId → Tenant → ℕ → List Session → StoreState
updated s tid t' n xs = record s {
  next_user_id = n;
  tenants = insert tid t' s.tenants;
  sessions = xs;
}

module _ (s : StoreState) (tid : TenantId) (t t' : Tenant) (n : ℕ) (xs : List Session)
    (w : IsWellFormed s) (found : get s.tenants tid ≡ some t) (same : SameTenant t t')
    (within : IsWithin t'.usage t'.quotas) (users : UsersFit n t') (more : s.next_user_id ≤ n)
    (fits : All (StillFits s tid t') xs) where
  abbrev after : StoreState
  after = updated s tid t' n xs

  keeps :
      (k : ℕ) (u : Tenant)
      → get s.tenants k ≡ some u
      → (u' : Tenant) × (get after.tenants k ≡ some u')
  keeps k u h = elim (Bool-cases (eqb tid k)) [
    | inl e ↦ (t', rw (get-insert tid k t' s.tenants, e) refl)
    | inr e ↦ (u, rw (get-insert tid k t' s.tenants, e) h)
  ]

  users_mono : (u : Tenant) → UsersFit s.next_user_id u → UsersFit n u
  users_mono u h = All-mono u.users (λ x p. (p.0, omega arith)) h

  new-IsTenant : IsTenant after tid t'
  new-IsTenant =
      let i = w.tenants tid t found in
      record {
        id = same.id ∙ i.id;
        bounded = i.bounded;
        named = ap (get s.by_name) same.name ∙ i.named;
        parent =
            ParentLives-mono s.tenants after.tenants tid t'.parent keeps
              (subst (ParentLives s.tenants tid) (sym same.parent) i.parent);
        within = within;
        users = users;
      }

  old-IsTenant : (k : ℕ) (u : Tenant) → get s.tenants k ≡ some u → IsTenant after k u
  old-IsTenant k u h =
      let i = w.tenants k u h in
      record {
        id = i.id;
        bounded = i.bounded;
        named = i.named;
        parent = ParentLives-mono s.tenants after.tenants k u.parent keeps i.parent;
        within = i.within;
        users = users_mono u i.users;
      }

  after-tenants : (k : ℕ) (u : Tenant) → get after.tenants k ≡ some u → IsTenant after k u
  after-tenants k u h = elim (Bool-cases (eqb tid k)) [
    | inl e ↦
        let e' : t' ≡ u = ground (arith, get-insert tid k t' s.tenants) in
        subst (λ j. IsTenant after j u) ((eqb_iff tid k).0 e)
          (subst (IsTenant after tid) e' new-IsTenant)
    | inr e ↦ old-IsTenant k u (ground (arith, get-insert tid k t' s.tenants))
  ]

  after-indexed :
      (name : Bytes) (k : ℕ)
      → get s.by_name name ≡ some k
      → (u : Tenant) × (get after.tenants k ≡ some u) × (u.name ≡ name)
  after-indexed name k h =
      let (u, at, e) = w.indexed name k h in
      elim (Bool-cases (eqb tid k)) [
        | inl hit ↦ (
          t',
          rw (get-insert tid k t' s.tenants, hit) refl,
          same.name ∙ ground (arith, eqb_iff tid k),
        )
        | inr miss ↦ (u, rw (get-insert tid k t' s.tenants, miss) at, e)
      ]

  after-session : (x : Session) → StillFits s tid t' x → SessionFits after x
  after-session x p =
      (p.0.0, λ u h. ground (arith, get-insert tid x.tenant t' s.tenants, p.0.1 u, p.1))

  pub updated-IsWellFormed : IsWellFormed (updated s tid t' n xs)
  updated-IsWellFormed = record {
    tenants = after-tenants;
    indexed = after-indexed;
    sessions = All-mono xs after-session fits;
    ordered = insert-IsOrdered tid t' s.tenants w.ordered;
  }

-- Every session of the store fits a tenant whose root capabilities did not change.
pub unchanged-StillFits :
    (s : StoreState) (tid : TenantId) (t t' : Tenant)
    → get s.tenants tid ≡ some t
    → t'.root_caps ≡ t.root_caps
    → (x : Session) → SessionFits s x
    → StillFits s tid t' x
unchanged-StillFits s tid t t' found e x p = (p, λ h. rw e (p.1 t (ap (get s.tenants) h ∙ found)))
