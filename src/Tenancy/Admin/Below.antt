-- ===== src/Tenancy/Admin/Below.antt =====
-- The tenants below a root, and the walk over them in crates/celtenancy/src/store.rs.
use celium.Prelude.{
  ℕ, zero, suc, ◌≡◌, ◌↔◌, sym, ap, ◌∙◌, subst, true, ◌||◌, some, List, [], ◌∷◌, ◌++◌, All, arith,
  eqb, eqb_iff, retain, map, inl, inr, Bool-cases,
}
use celium.Prelude.Key.{nat_key}
use celium.Prelude.Map.{Map, get, values}
use celium.Prelude.Map.Ordered.{values-found}
use celium.Prelude.Error.{CelResult, ok, CelResult-cases}
use celium.Tenancy.Model.{TenantId, Tenant, StoreState}
use celium.Tenancy.Tenants.{is_child_of}
use celium.Tenancy.Charging.{max_levels}
use celium.Tenancy.Charging.Chains.{on_chain}
use celium.Tenancy.Admin.{kids, walk_each, walk}
use celium.Tenancy.Admin.Subtree.{PostOrder, walk-PostOrder}
use celium.Tenancy.Invariant.{IsWellFormed, All-mono, All-append}

-- The root, its children, their children, and so on.
pub data IsBelow (m : Map ℕ Tenant) (root : TenantId) : TenantId → Type 0 where
  itself : IsBelow m root root
  child :
      (k p : TenantId) (t : Tenant)
      → get m k ≡ some t
      → t.parent ≡ some p
      → IsBelow m root p
      → IsBelow m root k

-- Each listed tenant lives and has its parent where the list says.
abbrev IsKid : Map ℕ Tenant → TenantId → TenantId → Type 0
IsKid m root k = (t : Tenant) × (get m k ≡ some t) × (t.parent ≡ some root)

is_child-parent : (root : TenantId) (t : Tenant) → is_child_of root t ≡ true → t.parent ≡ some root
is_child-parent root t h = ground (arith, h)

kids-IsKid :
    (s : StoreState) (root : TenantId) (ts : List Tenant)
    → IsWellFormed s
    → All (λ t. (k : ℕ) × (get s.tenants k ≡ some t)) ts
    → All (IsKid s.tenants root) (map (λ t. t.id) (retain (is_child_of root) ts))
kids-IsKid s root [] w h = tt
kids-IsKid s root (t ∷ ts) w ((k, at), rest) = elim (Bool-cases (is_child_of root t)) [
  | inl hit ↦
      let id : t.id ≡ k = (w.tenants k t at).id in
      rw hit
        ((t, ap (get s.tenants) id ∙ at, is_child-parent root t hit), kids-IsKid s root ts w rest)
  | inr miss ↦ rw miss (kids-IsKid s root ts w rest)
]

walk_each-Below :
    (m : Map ℕ Tenant) (top : TenantId) (visit : TenantId → CelResult (List TenantId))
    → ((k : TenantId) (out : List TenantId)
        → IsBelow m top k
        → visit k ≡ ok out
        → All (IsBelow m top) out)
    → (ks out : List TenantId) → All (IsBelow m top) ks
    → walk_each visit ks ≡ ok out
    → All (IsBelow m top) out
unfolding walk_each
walk_each-Below m top visit step [] [] low h = tt
walk_each-Below m top visit step [] (x ∷ out) low h = absurd (cc h)
walk_each-Below m top visit step (k ∷ ks) out low h = elim (CelResult-cases (visit k)) [
  | inr (x, e) ↦ absurd (ground arith)
  | inl (first, e) ↦ elim (CelResult-cases (walk_each visit ks)) [
    | inr (x, r) ↦ absurd (ground arith)
    | inl (rest, r) ↦
        let joined : first ++ rest ≡ out = ground arith in
        rw (← joined) (
          All-append (IsBelow m top) first rest (step k first low.0 e)
            (walk_each-Below m top visit step ks rest low.1 r))
  ]
]

walk-Below :
    (s : StoreState) (top : TenantId) (rounds : ℕ) (root : TenantId) (out : List TenantId)
    → IsWellFormed s
    → IsBelow s.tenants top root
    → walk s.tenants rounds root ≡ ok out
    → All (IsBelow s.tenants top) out
unfolding walk
walk-Below s top zero root out w low h = absurd (cc h)
walk-Below s top (suc rounds) root out w low h =
    elim (CelResult-cases (walk_each (walk s.tenants rounds) (kids s.tenants root))) [
      | inr (x, e) ↦ absurd (ground arith)
      | inl (below, e) ↦
          let joined : below ++ root ∷ [] ≡ out = ground arith in
          let young =
            All-mono (kids s.tenants root)
              (λ k (i : IsKid s.tenants root k). child k root i.0 i.1 i.2 low)
              (kids-IsKid s root (values s.tenants) w (values-found s.tenants w.ordered)) in
          rw (← joined) (
            All-append (IsBelow s.tenants top) below (root ∷ [])
              (walk_each-Below s.tenants top (walk s.tenants rounds)
                (λ k o d r. walk-Below s top rounds k o w d r) (kids s.tenants root) below young e)
              (low, tt))
    ]

-- A list that has the children of each of its tenants has the child of any of them.
PostOrder-child :
    (m : Map ℕ Tenant) (pre ks : List TenantId) (k p : TenantId) (t : Tenant)
    → PostOrder m pre ks
    → on_chain ks p ≡ true
    → get m k ≡ some t
    → t.parent ≡ some p
    → (on_chain pre k || on_chain ks k) ≡ true
PostOrder-child m pre [] k p t post on at up = absurd (cc on)
PostOrder-child m pre (x ∷ ks) k p t post on at up = elim (Bool-cases (eqb x p)) [
  | inl here ↦
      let same : x ≡ p = (eqb_iff x p).0 here in
      let listed : on_chain pre k ≡ true = post.0 k t at (up ∙ ap some (sym same)) in
      ground (arith, listed)
  | inr there ↦
      let rest = PostOrder-child m (x ∷ pre) ks k p t post.1 (ground (arith, on, there)) at up in
      ground (arith, rest)
]

Below-listed :
    (m : Map ℕ Tenant) (root : TenantId) (ks : List TenantId)
    → PostOrder m [] ks
    → on_chain ks root ≡ true
    → (k : TenantId) → IsBelow m root k
    → on_chain ks k ≡ true
Below-listed m root ks post top (_) itself = top
Below-listed m root ks post top (_) (child k p t at up low) =
    PostOrder-child m [] ks k p t post (Below-listed m root ks post top p low) at up

All-listed {ℓ} :
    (P : TenantId → Type ℓ) (ks : List TenantId) (k : TenantId)
    → All P ks
    → on_chain ks k ≡ true
    → P k
All-listed P [] k h on = absurd (cc on)
All-listed P (x ∷ ks) k h on = elim (Bool-cases (eqb x k)) [
  | inl here ↦ subst P ((eqb_iff x k).0 here) h.0
  | inr there ↦ All-listed P ks k h.1 (ground (arith, on, there))
]

-- The list of a walk is the subtree: the tenants below its root, and no other.
pub walk-Below_iff :
    (s : StoreState) (tid : TenantId) (out : List TenantId)
    → IsWellFormed s
    → walk s.tenants max_levels tid ≡ ok out
    → (k : TenantId) → (on_chain out k ≡ true) ↔ IsBelow s.tenants tid k
walk-Below_iff s tid out w h k =
    let (top, post) =
      walk-PostOrder s.tenants max_levels tid out (λ j t e. (w.tenants j t e).id) h in
    (
      All-listed (IsBelow s.tenants tid) out k (walk-Below s tid max_levels tid out w itself h),
      Below-listed s.tenants tid out post top k,
    )
