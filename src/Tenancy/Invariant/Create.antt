-- ===== src/Tenancy/Invariant/Create.antt =====
-- `create` keeps the store well formed.
use celium.Prelude.{
  ℕ, ◌+◌, ◌≤◌, ◌≡◌, refl, true, false, Option, none, some, arith, eqb, Option-cases, inl, inr,
  eqb_iff, Bool-cases, subst,
}
use celium.Prelude.Key.{Bytes, nat_key, bytes_key, bytes_eq, bytes_eq_iff}
use celium.Prelude.Map.{get, insert, get-insert, get-insert_self}
use celium.Prelude.Error.{ok, CelResult-cases}
use celium.Prelude.Map.Ordered.{insert-IsOrdered}
use celium.Tenancy.Caps.{TenantCaps}
use celium.Tenancy.Namespace.{namespace_root}
use celium.Tenancy.Model.{TenantId, TenantSpec, Tenant, StoreState}
use celium.Tenancy.Tenants.{parent_checks, create_checks, create_commit, create, new_tenant}
use celium.Tenancy.Invariant.{ParentLives, IsTenant, IsWellFormed, ParentLives-mono, All-mono}

-- A larger counter alone changes nothing.
bump-IsWellFormed :
    (s : StoreState) (n : ℕ)
    → s.next_tenant_id ≤ n
    → IsWellFormed s
    → IsWellFormed (record s { next_tenant_id = n })
bump-IsWellFormed s n le w = record {
  tenants = λ k t h.
      let i = w.tenants k t h in
      record {
        id = i.id;
        bounded = omega arith;
        named = i.named;
        parent = i.parent;
        within = i.within;
        users = i.users;
      };
  indexed = w.indexed;
  ordered = w.ordered;
  sessions = All-mono s.sessions (λ x p. (omega arith, p.1)) w.sessions;
}

-- What the checks have established.
record Fresh (s : StoreState) (spec : TenantSpec) (id : ℕ) : Type 0 where
  name : get s.by_name spec.name ≡ none
  next : id ≡ s.next_tenant_id + 1
  parent : ParentLives s.tenants id spec.parent

parent_lookup :
    (s : StoreState) (p : Option TenantId) (spec : TenantSpec) (caps : TenantCaps)
    → IsWellFormed s
    → parent_checks s p spec caps ≡ ok tt
    → ParentLives s.tenants (s.next_tenant_id + 1) p
unfolding parent_checks
parent_lookup s none spec caps w h = tt
parent_lookup s (some p) spec caps w h = elim (Option-cases (get s.tenants p)) [
  | inl e ↦ absurd (cc (rw e at h))
  | inr (u, e) ↦ (omega (arith, (w.tenants p u e).bounded), (u, e))
]

create_checks-Fresh :
    (s : StoreState) (spec : TenantSpec) (caps : TenantCaps) (id : ℕ)
    → IsWellFormed s
    → create_checks s spec caps ≡ ok id
    → Fresh s spec id
unfolding create_checks
create_checks-Fresh s spec caps id w h =
    let next : id ≡ s.next_tenant_id + 1 = ground arith in
    record {
      name = ground arith;
      next = next;
      parent = rw next (parent_lookup s spec.parent spec caps w (ground arith));
    }

module _ (s : StoreState) (spec : TenantSpec) (caps : TenantCaps) (id : ℕ) (root : Bytes)
    (w : IsWellFormed s) (f : Fresh s spec id) where
  abbrev made : Tenant
  made = new_tenant id spec caps root

  abbrev after : StoreState
  after = record s {
    next_tenant_id = id;
    by_name = insert spec.name id s.by_name;
    tenants = insert id made s.tenants;
  }

  old_key : (k : ℕ) (t : Tenant) → get s.tenants k ≡ some t → eqb id k ≡ false
  old_key k t h = ground (arith, (w.tenants k t h).bounded, f.next)

  keeps : (k : ℕ) (t : Tenant) → get s.tenants k ≡ some t → get after.tenants k ≡ some t
  keeps k t h = rw (get-insert id k made s.tenants, old_key k t h) h

  parents_live :
      (k : ℕ) (p : Option TenantId) → ParentLives s.tenants k p → ParentLives after.tenants k p
  parents_live k p = ParentLives-mono s.tenants after.tenants k p (λ j t h. (t, keeps j t h))

  old_name : (k : ℕ) (t : Tenant) → get s.tenants k ≡ some t → get after.by_name t.name ≡ some k
  old_name k t h = ground (
    arith,
    get-insert spec.name t.name id s.by_name,
    (w.tenants k t h).named,
    f.name,
    bytes_eq_iff spec.name t.name,
  )

  old-IsTenant : (k : ℕ) (t : Tenant) → get s.tenants k ≡ some t → IsTenant after k t
  old-IsTenant k t h =
      let i = w.tenants k t h in
      record {
        id = i.id;
        bounded = omega (arith, i.bounded, f.next);
        named = old_name k t h;
        parent = parents_live k t.parent i.parent;
        within = i.within;
        users = i.users;
      }

  made-IsTenant : IsTenant after id made
  made-IsTenant = record {
    id = refl;
    bounded = omega arith;
    named = get-insert_self spec.name id s.by_name;
    parent = parents_live id spec.parent f.parent;
    within = omega arith;
    users = tt;
  }

  made_at :
      (k : ℕ) (t : Tenant) → eqb id k ≡ true → get after.tenants k ≡ some t → IsTenant after k t
  made_at k t e h =
      let same : made ≡ t = ground (arith, get-insert id k made s.tenants) in
      subst (λ j. IsTenant after j t) ((eqb_iff id k).0 e)
        (subst (IsTenant after id) same made-IsTenant)

  made_key :
      (n : Bytes) (k : ℕ)
      → bytes_eq spec.name n ≡ true
      → get after.by_name n ≡ some k
      → get after.tenants k ≡ some made
  made_key n k e h =
      let same : id ≡ k = ground (arith, get-insert spec.name n id s.by_name) in
      subst (λ j. get after.tenants j ≡ some made) same (get-insert_self id made s.tenants)

  after-tenants : (k : ℕ) (t : Tenant) → get after.tenants k ≡ some t → IsTenant after k t
  after-tenants k t h = elim (Bool-cases (eqb id k)) [
    | inl e ↦ made_at k t e h
    | inr e ↦ old-IsTenant k t (ground (arith, get-insert id k made s.tenants))
  ]

  after-IsWellFormed : IsWellFormed after
  after-IsWellFormed = record {
    tenants = after-tenants;
    indexed = λ n k h. elim (Bool-cases (bytes_eq spec.name n)) [
      | inl e ↦ (made, made_key n k e h, (bytes_eq_iff spec.name n).0 e)
      | inr e ↦
          let (t, found, same) =
            w.indexed n k (ground (arith, get-insert spec.name n id s.by_name)) in
          (t, keeps k t found, same)
    ];
    sessions =
        All-mono s.sessions
          (λ x p. (
            omega (arith, p.0, f.next),
            λ t h. p.1 t (ground (arith, get-insert id x.tenant made s.tenants, p.0, f.next)),
          ))
          w.sessions;
    ordered = insert-IsOrdered id made s.tenants w.ordered;
  }

pub create-IsWellFormed :
    (s : StoreState) (spec : TenantSpec) (caps : TenantCaps)
    → IsWellFormed s
    → IsWellFormed (create s spec caps).0
unfolding create create_commit
create-IsWellFormed s spec caps w = elim (CelResult-cases (create_checks s spec caps)) [
  | inl (id, e) ↦
      let f = create_checks-Fresh s spec caps id w e in
      elim (CelResult-cases (namespace_root spec.name)) [
        | inl (root, r) ↦
            rw (e, create) (rw (r, create_commit) (after-IsWellFormed s spec caps id root w f))
        | inr (x, r) ↦
            rw (e, create)
              (rw (r, create_commit) (bump-IsWellFormed s id (omega (arith, f.next)) w))
      ]
  | inr (x, e) ↦ rw (e, create) w
]
