-- ===== src/Tenancy/Admin/Subtree.antt =====
-- The order in which `walk` lists a subtree: every child stands before its parent.
use celium.Prelude.{
  ℕ, zero, suc, ◌≡◌, refl, true, ◌&&◌, ◌||◌, Bool, some, List, [], ◌∷◌, ◌++◌, arith, eqb, eqb_iff,
  any, retain, map, inl, inr, Bool-cases,
}
use celium.Prelude.Key.{nat_key}
use celium.Prelude.Map.{Map, get, values, get-any}
use celium.Prelude.Error.{CelResult, ok, CelResult-cases}
use celium.Tenancy.Model.{TenantId, Tenant}
use celium.Tenancy.Tenants.{is_child_of}
use celium.Tenancy.Charging.Chains.{on_chain}
use celium.Tenancy.Admin.{kids, walk_each, walk}

-- Each tenant knows the key that it stands under.
abbrev pub IdsMatch : Map ℕ Tenant → Type 0
IdsMatch m = (k : ℕ) (t : Tenant) → get m k ≡ some t → t.id ≡ k

-- Each live child of a listed tenant is listed before it, or in `pre`.
abbrev pub ChildrenIn : Map ℕ Tenant → TenantId → List TenantId → Type 0
ChildrenIn m k pre =
    (j : ℕ) (u : Tenant) → get m j ≡ some u → u.parent ≡ some k → on_chain pre j ≡ true

abbrev pub PostOrder : Map ℕ Tenant → List TenantId → List TenantId → Type 0
PostOrder m pre [] = Unit {0}
PostOrder m pre (k ∷ ks) = ChildrenIn m k pre × PostOrder m (k ∷ pre) ks

PostOrder-append :
    (m : Map ℕ Tenant) (pre xs ys : List TenantId)
    → PostOrder m pre xs
    → ((later : List TenantId) → PostOrder m later ys)
    → PostOrder m pre (xs ++ ys)
PostOrder-append m pre [] ys hx hy = hy pre
PostOrder-append m pre (x ∷ xs) ys hx hy = (hx.0, PostOrder-append m (x ∷ pre) xs ys hx.1 hy)

-- The root may stand last, once its children are listed.
PostOrder-root :
    (m : Map ℕ Tenant) (pre xs : List TenantId) (root : TenantId)
    → PostOrder m pre xs
    → ((j : ℕ) (u : Tenant)
        → get m j ≡ some u
        → u.parent ≡ some root
        → (on_chain pre j || on_chain xs j) ≡ true)
    → PostOrder m pre (xs ++ root ∷ [])
PostOrder-root m pre [] root hx h = ((λ j u e p. ground (arith, h j u e p)), tt)
PostOrder-root m pre (x ∷ xs) root hx h =
    (hx.0, PostOrder-root m (x ∷ pre) xs root hx.1 (λ j u e p. ground (arith, h j u e p)))

on_chain-append :
    (xs ys : List TenantId) (j : TenantId)
    → on_chain (xs ++ ys) j ≡ (on_chain xs j || on_chain ys j)
on_chain-append [] ys j = refl
on_chain-append (x ∷ xs) ys j = ground (arith, on_chain-append xs ys j)

-- A tenant that passes a test is among the ids of those that do.
on_chain-ids :
    (p : Tenant → Bool) (j : TenantId) (ts : List Tenant)
    → any (λ t. p t && eqb t.id j) ts ≡ true
    → on_chain (map (λ t. t.id) (retain p ts)) j ≡ true
on_chain-ids p j [] h = cc
on_chain-ids p j (t ∷ ts) h = ground (arith, on_chain-ids p j ts)

on_chain-kids :
    (m : Map ℕ Tenant) (root j : TenantId) (u : Tenant)
    → IdsMatch m
    → get m j ≡ some u
    → u.parent ≡ some root
    → on_chain (kids m root) j ≡ true
on_chain-kids m root j u ids e p =
    let test : Tenant → Bool = λ t. is_child_of root t && eqb t.id j in
    elim (Bool-cases (any test (values m))) [
      | inl found ↦ on_chain-ids (is_child_of root) j (values m) found
      | inr missing ↦ absurd (
          ground
            (arith, get-any test j u m missing e, ids j u e, eqb_iff root root, eqb_iff u.id j))
    ]

-- What `walk` gives for one root.
record Walked (m : Map ℕ Tenant) (root : TenantId) (out : List TenantId) : Type 0 where
  root_listed : on_chain out root ≡ true
  ordered : (pre : List TenantId) → PostOrder m pre out

record WalkedEach (m : Map ℕ Tenant) (ks : List TenantId) (out : List TenantId) : Type 0 where
  all_listed : (j : TenantId) → on_chain ks j ≡ true → on_chain out j ≡ true
  ordered : (pre : List TenantId) → PostOrder m pre out

walk_each-WalkedEach :
    (m : Map ℕ Tenant) (visit : TenantId → CelResult (List TenantId))
    → ((k : TenantId) (out : List TenantId) → visit k ≡ ok out → Walked m k out)
    → (ks out : List TenantId) → walk_each visit ks ≡ ok out
    → WalkedEach m ks out
unfolding walk_each
walk_each-WalkedEach m visit step [] [] h = record { all_listed = λ j e. e; ordered = λ pre. tt }
walk_each-WalkedEach m visit step [] (x ∷ out) h = absurd (cc h)
walk_each-WalkedEach m visit step (k ∷ ks) out h = elim (CelResult-cases (visit k)) [
  | inr (x, e) ↦ absurd (ground arith)
  | inl (first, e) ↦ elim (CelResult-cases (walk_each visit ks)) [
    | inr (x, r) ↦ absurd (ground arith)
    | inl (rest, r) ↦
        let one = step k first e in
        let more = walk_each-WalkedEach m visit step ks rest r in
        let joined : first ++ rest ≡ out = ground arith in
        rw (← joined) (record {
          all_listed = λ j on.
              rw (on_chain-append first rest j)
                (ground (arith, more.all_listed j, one.root_listed, eqb_iff k j));
          ordered = λ pre. PostOrder-append m pre first rest (one.ordered pre) more.ordered;
        })
  ]
]

walk-Walked :
    (m : Map ℕ Tenant) (rounds : ℕ) (root : TenantId) (out : List TenantId)
    → IdsMatch m
    → walk m rounds root ≡ ok out
    → Walked m root out
unfolding walk
walk-Walked m zero root out ids h = absurd (cc h)
walk-Walked m (suc rounds) root out ids h =
    elim (CelResult-cases (walk_each (walk m rounds) (kids m root))) [
      | inr (x, e) ↦ absurd (ground arith)
      | inl (below, e) ↦
          let each =
            walk_each-WalkedEach m (walk m rounds) (λ k o r. walk-Walked m rounds k o ids r)
              (kids m root) below e in
          let joined : below ++ root ∷ [] ≡ out = ground arith in
          rw (← joined) (record {
            root_listed =
                rw (on_chain-append below (root ∷ []) root) (ground (arith, eqb_iff root root));
            ordered = λ pre.
                PostOrder-root m pre below root (each.ordered pre) (λ j u at p.
                  ground (arith, each.all_listed j, on_chain-kids m root j u ids at p));
          })
    ]

-- A walk lists every child before its parent, and the root.
pub walk-PostOrder :
    (m : Map ℕ Tenant) (rounds : ℕ) (root : TenantId) (out : List TenantId)
    → IdsMatch m
    → walk m rounds root ≡ ok out
    → (on_chain out root ≡ true) × PostOrder m [] out
walk-PostOrder m rounds root out ids h =
    let walked = walk-Walked m rounds root out ids h in (walked.root_listed, walked.ordered [])
