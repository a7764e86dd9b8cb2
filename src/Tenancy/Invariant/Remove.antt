-- ===== src/Tenancy/Invariant/Remove.antt =====
-- A tenant without children can be taken out of a well-formed store.
use celium.Prelude.{ℕ, ◌≡◌, ◌≢◌, none, some, Option, List, All, arith, eqb_iff, sym, ap}
use celium.Prelude.Key.{Bytes, nat_key, bytes_key, bytes_eq_iff}
use celium.Prelude.Map.{Map, get, remove, get-remove}
use celium.Prelude.Map.Ordered.{remove-IsOrdered}
use celium.Tenancy.Auth.{Session}
use celium.Tenancy.Model.{TenantId, Tenant, StoreState}
use celium.Tenancy.Invariant.{ParentLives, SessionFits, IsTenant, IsWellFormed, All-mono}

-- No live tenant names `tid` as its parent.
abbrev pub IsChildless : Map ℕ Tenant → TenantId → Type 0
IsChildless m tid = (k : ℕ) (u : Tenant) → get m k ≡ some u → u.parent ≢ some tid

abbrev pub removed : StoreState → TenantId → Tenant → List Session → StoreState
removed s tid t xs = record s {
  tenants = remove tid s.tenants;
  by_name = remove t.name s.by_name;
  sessions = xs;
}

module _ (s : StoreState) (tid : TenantId) (t : Tenant) (xs : List Session) (w : IsWellFormed s)
    (found : get s.tenants tid ≡ some t) (childless : IsChildless s.tenants tid)
    (fits : All (SessionFits s) xs) where
  abbrev after : StoreState
  after = removed s tid t xs

  was : (k : ℕ) (u : Tenant) → get after.tenants k ≡ some u → get s.tenants k ≡ some u
  was k u h = ground (arith, get-remove tid k s.tenants)

  stays : (k : ℕ) (u : Tenant) → get s.tenants k ≡ some u → tid ≢ k → get after.tenants k ≡ some u
  stays k u h ne = ground (arith, get-remove tid k s.tenants, eqb_iff tid k)

  parents_live :
      (k : ℕ) (p : Option TenantId)
      → p ≢ some tid
      → ParentLives s.tenants k p
      → ParentLives after.tenants k p
  parents_live k none ne h = tt
  parents_live k (some p) ne (lt, (u, e)) = (lt, (u, stays p u e (λ hit. ne (ap some (sym hit)))))

  -- The name of another tenant is another name.
  other_name :
      (k : ℕ) (u : Tenant) → get after.tenants k ≡ some u → get after.by_name u.name ≡ some k
  other_name k u h = ground (
    arith,
    get-remove t.name u.name s.by_name,
    get-remove tid k s.tenants,
    (w.tenants k u (was k u h)).named,
    (w.tenants tid t found).named,
    bytes_eq_iff t.name u.name,
    eqb_iff tid k,
  )

  after-tenants : (k : ℕ) (u : Tenant) → get after.tenants k ≡ some u → IsTenant after k u
  after-tenants k u h =
      let i = w.tenants k u (was k u h) in
      record {
        id = i.id;
        bounded = i.bounded;
        named = other_name k u h;
        parent = parents_live k u.parent (childless k u (was k u h)) i.parent;
        within = i.within;
        users = i.users;
      }

  after-indexed :
      (name : Bytes) (k : ℕ)
      → get after.by_name name ≡ some k
      → (u : Tenant) × (get after.tenants k ≡ some u) × (u.name ≡ name)
  after-indexed name k h =
      let (u, at, e) = w.indexed name k (ground (arith, get-remove t.name name s.by_name)) in
      (
        u,
        stays k u at (λ hit. ground (
          arith,
          get-remove t.name name s.by_name,
          bytes_eq_iff t.name name,
          found,
          ap (get s.tenants) hit,
        )),
        e,
      )

  pub removed-IsWellFormed : IsWellFormed (removed s tid t xs)
  removed-IsWellFormed = record {
    tenants = after-tenants;
    indexed = after-indexed;
    ordered = remove-IsOrdered tid s.tenants w.ordered;
    sessions = All-mono xs (λ x p. (p.0, λ u h. p.1 u (was x.tenant u h))) fits;
  }
