-- ===== src/Tenancy/Invariant/Recursive.antt =====
-- The recursive deletion of crates/celtenancy/src/store.rs: the state that it leaves, also where it
-- stops half way.
use celium.Prelude.{
  ℕ, ◌≡◌, ◌↔◌, ◌&&◌, Bool, retain, refl, true, false, not, none, some, List, [], ◌∷◌, All, arith,
  eqb, eqb_iff, inl, inr, if◌then◌else◌, Option-cases, Bool-cases, sym, ap, ◌∙◌,
}
use celium.Prelude.Key.{nat_key}
use celium.Prelude.Map.{Map, get, get-remove}
use celium.Prelude.Error.{ok, CelResult-cases}
use celium.Tenancy.Auth.{Session}
use celium.Tenancy.Model.{TenantId, Tenant, StoreState, DeleteReport}
use celium.Tenancy.Charging.{max_levels}
use celium.Tenancy.Charging.Chains.{on_chain}
use celium.Tenancy.Sessions.{drop_tenant_sessions, dropped}
use celium.Tenancy.Admin.{
  walk, subtree_checks, without_sessions, without_tenant, report_one, empty_report, delete_each,
  delete_tenant_recursive,
}
use celium.Tenancy.Admin.Below.{IsBelow, walk-Below_iff}
use celium.Tenancy.Admin.Subtree.{ChildrenIn, PostOrder, IdsMatch, walk-PostOrder}
use celium.Tenancy.Invariant.{IsWellFormed, All-mono, All-retain, All-and}
use celium.Tenancy.Invariant.Remove.{IsChildless, removed-IsWellFormed}
use celium.Tenancy.Invariant.Revocation.{retain-IsWellFormed}

-- The tenants of `pre` are gone, the others are those of `m`.
abbrev pub GoneFrom : Map ℕ Tenant → List TenantId → Map ℕ Tenant → Type 0
GoneFrom m pre m' = (j : ℕ) → get m' j ≡ (if on_chain pre j then none else get m j)

IsChildless-now :
    (m m' : Map ℕ Tenant) (pre : List TenantId) (k : TenantId)
    → GoneFrom m pre m'
    → ChildrenIn m k pre
    → IsChildless m' k
IsChildless-now m m' pre k gone kids j u e p = elim (Bool-cases (on_chain pre j)) [
  | inl on ↦ ground (arith, gone j)
  | inr off ↦ cc (off, kids j u (ground (arith, gone j)) p)
]

delete_each-IsWellFormed :
    (m : Map ℕ Tenant) (ks pre : List TenantId) (s : StoreState) (r : DeleteReport)
    → IsWellFormed s
    → GoneFrom m pre s.tenants
    → PostOrder m pre ks
    → IsWellFormed (delete_each s r ks).0
unfolding delete_each
delete_each-IsWellFormed m [] pre s r w gone post = w
delete_each-IsWellFormed m (k ∷ ks) pre s r w gone post =
    let fewer = retain-IsWellFormed s (λ x. not (eqb x.tenant k)) w in
    elim (Option-cases (get s.tenants k)) [
      | inl e ↦ rw (e, delete_each) fewer
      | inr (t, e) ↦
          rw (e, delete_each)
            (delete_each-IsWellFormed m ks (k ∷ pre) (without_tenant k t (without_sessions k s))
              (report_one k t (dropped s.sessions (drop_tenant_sessions k s.sessions)) r)
              (removed-IsWellFormed (without_sessions k s) k t (drop_tenant_sessions k s.sessions)
                fewer e (IsChildless-now m s.tenants pre k gone post.0) fewer.sessions)
              (λ j. ground (arith, gone j, get-remove k j s.tenants)) post.1)
    ]

subtree_checks-walk :
    (s : StoreState) (tid : TenantId) (out : List TenantId)
    → subtree_checks s tid ≡ ok out
    → walk s.tenants max_levels tid ≡ ok out
unfolding subtree_checks
subtree_checks-walk s tid out h = ground arith

pub ids_match : (s : StoreState) → IsWellFormed s → IdsMatch s.tenants
ids_match s w k t h = (w.tenants k t h).id

pub delete_tenant_recursive-IsWellFormed :
    (s : StoreState) (tid : TenantId)
    → IsWellFormed s
    → IsWellFormed (delete_tenant_recursive s tid).0
unfolding delete_tenant_recursive
delete_tenant_recursive-IsWellFormed s tid w = elim (CelResult-cases (subtree_checks s tid)) [
  | inr (x, e) ↦ rw (e, delete_tenant_recursive) w
  | inl (out, e) ↦
      rw (e, delete_tenant_recursive)
        (delete_each-IsWellFormed s.tenants out [] s empty_report w (λ j. refl)
          (walk-PostOrder s.tenants max_levels tid out (ids_match s w)
            (subtree_checks-walk s tid out e)).1)
]

-- The tenants and the sessions that a complete mutation pass leaves.
abbrev pub SessionsOutside : List TenantId → List Session → Type 0
SessionsOutside ks xs = All (λ (x : Session). on_chain ks x.tenant ≡ false) xs

nothing_outside : (xs : List Session) → SessionsOutside [] xs
nothing_outside [] = tt
nothing_outside (x ∷ xs) = (refl, nothing_outside xs)

delete_each_step :
    (s : StoreState) (r : DeleteReport) (k : TenantId) (ks : List TenantId) (t : Tenant)
    → get s.tenants k ≡ some t
    → delete_each s r (k ∷ ks)
      ≡ delete_each
          (without_tenant k t (without_sessions k s))
          (report_one k t (dropped s.sessions (drop_tenant_sessions k s.sessions)) r)
          ks
unfolding delete_each
delete_each_step s r k ks t e = rw (e, delete_each) refl

delete_each_stuck :
    (s s' : StoreState) (r r' : DeleteReport) (k : TenantId) (ks : List TenantId)
    → get s.tenants k ≡ none
    → delete_each s r (k ∷ ks) ≡ (s', ok r')
    → ⊥
unfolding delete_each
delete_each_stuck s s' r r' k ks e h = ground arith

outside_more :
    (k : TenantId) (pre : List TenantId) (xs : List Session)
    → SessionsOutside pre xs
    → SessionsOutside (k ∷ pre) (drop_tenant_sessions k xs)
outside_more k pre xs h =
    All-mono (drop_tenant_sessions k xs) (λ x p. ground (arith, p.0, p.1, eqb_iff k x.tenant))
      (All-retain _ (λ x. not (eqb x.tenant k)) xs h)

delete_each_effect :
    (m : Map ℕ Tenant) (ks pre : List TenantId) (s s' : StoreState) (r r' : DeleteReport)
    → GoneFrom m pre s.tenants
    → SessionsOutside pre s.sessions
    → delete_each s r ks ≡ (s', ok r')
    → ((j : ℕ)
        → get s'.tenants j
          ≡ (if on_chain pre j then none else if on_chain ks j then none else get m j))
      × SessionsOutside pre s'.sessions
      × SessionsOutside ks s'.sessions
unfolding delete_each
delete_each_effect m [] pre s s' r r' gone outside h =
    let same : s' ≡ s = ap (λ x. x.0) (sym h) in
    rw same ((λ j. gone j), outside, nothing_outside s.sessions)
delete_each_effect m (k ∷ ks) pre s s' r r' gone outside h = elim (Option-cases (get s.tenants k)) [
  | inl e ↦ absurd (delete_each_stuck s s' r r' k ks e h)
  | inr (t, e) ↦
      let (tenants, before, after) =
        delete_each_effect m ks (k ∷ pre) (without_tenant k t (without_sessions k s)) s'
          (report_one k t (dropped s.sessions (drop_tenant_sessions k s.sessions)) r) r'
          (λ j. ground (arith, gone j, get-remove k j s.tenants))
          (outside_more k pre s.sessions outside) (sym (delete_each_step s r k ks t e) ∙ h) in
      (
        λ j. ground (arith, tenants j),
        All-mono s'.sessions (λ x p. ground (arith, p)) before,
        All-mono s'.sessions (λ x p. ground (arith, p.0, p.1))
            (All-and _ _ s'.sessions before after),
      )
]

-- What two passes keep.
retain-twice :
    (p q : Session → Bool) (xs : List Session)
    → retain p (retain q xs) ≡ retain (λ x. q x && p x) xs
retain-twice p q [] = refl
retain-twice p q (x ∷ xs) = let ih = retain-twice p q xs in ground (arith, ih)

retain-same :
    (p q : Session → Bool) (xs : List Session)
    → ((x : Session) → p x ≡ q x)
    → retain p xs ≡ retain q xs
retain-same p q [] f = refl
retain-same p q (x ∷ xs) f = let ih = retain-same p q xs f in ground (arith, ih, f x)

retain-all : (xs : List Session) → xs ≡ retain (λ x. true) xs
retain-all [] = refl
retain-all (x ∷ xs) = ap (◌∷◌ x) (retain-all xs)

delete_each-sessions :
    (ks : List TenantId) (s s' : StoreState) (r r' : DeleteReport)
    → delete_each s r ks ≡ (s', ok r')
    → s'.sessions ≡ retain (λ x. not (on_chain ks x.tenant)) s.sessions
unfolding delete_each
delete_each-sessions [] s s' r r' h = ap (λ x. x.0.sessions) (sym h) ∙ retain-all s.sessions
delete_each-sessions (k ∷ ks) s s' r r' h = elim (Option-cases (get s.tenants k)) [
  | inl e ↦ absurd (delete_each_stuck s s' r r' k ks e h)
  | inr (t, e) ↦
      delete_each-sessions ks (without_tenant k t (without_sessions k s)) s'
        (report_one k t (dropped s.sessions (drop_tenant_sessions k s.sessions)) r) r'
        (sym (delete_each_step s r k ks t e) ∙ h)
      ∙ retain-twice _ _ s.sessions
      ∙ retain-same (λ x. not (eqb x.tenant k) && not (on_chain ks x.tenant))
          (λ x. not (on_chain (k ∷ ks) x.tenant)) s.sessions
          (λ x. ground (arith, eqb_iff x.tenant k, eqb_iff k x.tenant))
]

delete_runs :
    (s s' : StoreState) (tid : TenantId) (r : DeleteReport) (out : List TenantId)
    → subtree_checks s tid ≡ ok out
    → delete_tenant_recursive s tid ≡ (s', ok r)
    → delete_each s empty_report out ≡ (s', ok r)
unfolding delete_tenant_recursive
delete_runs s s' tid r out e h = ground arith

-- A recursive deletion that succeeds in a well-formed store takes out a list of tenants, each
-- child before its parent, that has exactly the root and the tenants below it; all other tenants
-- stay, the sessions of the deleted tenants are gone, and every other session stays.
pub delete_tenant_recursive_effect :
    (s s' : StoreState) (tid : TenantId) (r : DeleteReport)
    → IsWellFormed s
    → delete_tenant_recursive s tid ≡ (s', ok r)
    → (gone : List TenantId) × (on_chain gone tid ≡ true)
      × PostOrder s.tenants [] gone
      × ((k : TenantId) → (on_chain gone k ≡ true) ↔ IsBelow s.tenants tid k)
      × ((j : ℕ) → get s'.tenants j ≡ (if on_chain gone j then none else get s.tenants j))
      × SessionsOutside gone s'.sessions
      × (s'.sessions ≡ retain (λ x. not (on_chain gone x.tenant)) s.sessions)
unfolding delete_tenant_recursive
delete_tenant_recursive_effect s s' tid r w h = elim (CelResult-cases (subtree_checks s tid)) [
  | inr (x, e) ↦ absurd (ground arith)
  | inl (out, e) ↦
      let kept = delete_each-sessions out s s' empty_report r (delete_runs s s' tid r out e h) in
      let order =
        walk-PostOrder s.tenants max_levels tid out (ids_match s w)
          (subtree_checks-walk s tid out e) in
      let (tenants, before, after) =
        delete_each_effect s.tenants out [] s s' empty_report r (λ j. refl)
          (nothing_outside s.sessions) (ground arith) in
      (
        out,
        order.0,
        order.1,
        walk-Below_iff s tid out w (subtree_checks-walk s tid out e),
        tenants,
        after,
        kept,
      )
]
