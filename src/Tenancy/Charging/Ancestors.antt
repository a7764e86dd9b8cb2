-- ===== src/Tenancy/Charging/Ancestors.antt =====
-- `chain_from` of crates/celtenancy/src/store.rs climbs through the parents of a tenant to its root.
use celium.Prelude.{
  ℕ, zero, suc, ◌≤◌, ◌<◌, ◌≡◌, refl, true, false, Option, none, some, List, [], ◌∷◌, arith,
  Option-cases, Bool-cases, inl, inr, length, leb, if◌then◌else◌,
}
use celium.Prelude.Key.{nat_key}
use celium.Prelude.Map.{Map, get}
use celium.Prelude.Error.{ok, err, internal}
use celium.Tenancy.Model.{TenantId, Tenant, StoreState}
use celium.Tenancy.Charging.{chain_loop, chain_from}
use celium.Tenancy.Charging.Chains.{ParentsLive}
use celium.Tenancy.Invariant.{ParentLives, IsWellFormed}

-- A tenant, its parent, the parent of that, and so on to a tenant without a parent.
abbrev pub IsAncestry : Map ℕ Tenant → Option TenantId → List TenantId → Type 0
IsAncestry m none [] = Unit {0}
IsAncestry m none (k ∷ ks) = ⊥
IsAncestry m (some p) [] = ⊥
IsAncestry m (some p) (k ∷ ks) =
    (k ≡ p) × ((t : Tenant) × (get m p ≡ some t) × IsAncestry m t.parent ks)

pub chain_loop-IsAncestry :
    (m : Map ℕ Tenant) (rounds : ℕ) (p : Option TenantId) (chain : List TenantId)
    → chain_loop m rounds p ≡ ok chain
    → IsAncestry m p chain
unfolding chain_loop
chain_loop-IsAncestry m rounds none [] h = tt
chain_loop-IsAncestry m rounds none (k ∷ ks) h = absurd (cc h)
chain_loop-IsAncestry m zero (some p) chain h = absurd (cc h)
chain_loop-IsAncestry m (suc rounds) (some p) [] h = absurd (ground arith)
chain_loop-IsAncestry m (suc rounds) (some p) (k ∷ ks) h = elim (Option-cases (get m p)) [
  | inl e ↦ absurd (ground arith)
  | inr (t, e) ↦ (ground arith, (t, e, chain_loop-IsAncestry m rounds t.parent ks (ground arith)))
]

pub chain_loop-fits :
    (m : Map ℕ Tenant) (rounds : ℕ) (p : Option TenantId) (chain : List TenantId)
    → IsAncestry m p chain
    → length chain ≤ rounds
    → chain_loop m rounds p ≡ ok chain
unfolding chain_loop
chain_loop-fits m rounds none [] up le = refl
chain_loop-fits m rounds none (k ∷ ks) up le = elim up [ ]
chain_loop-fits m rounds (some p) [] up le = elim up [ ]
chain_loop-fits m zero (some p) (k ∷ ks) up le = absurd (omega arith)
chain_loop-fits m (suc rounds) (some p) (k ∷ ks) (same, (t, e, up)) le =
    let rest = chain_loop-fits m rounds t.parent ks up (omega arith) in ground (arith, rest)

chain_loop-deep :
    (m : Map ℕ Tenant) (rounds : ℕ) (p : Option TenantId) (chain : List TenantId)
    → IsAncestry m p chain
    → rounds < length chain
    → chain_loop m rounds p ≡ err (internal "tenant hierarchy too deep")
unfolding chain_loop
chain_loop-deep m rounds none [] up lt = absurd (omega arith)
chain_loop-deep m rounds none (k ∷ ks) up lt = elim up [ ]
chain_loop-deep m rounds (some p) [] up lt = elim up [ ]
chain_loop-deep m zero (some p) (k ∷ ks) up lt = refl
chain_loop-deep m (suc rounds) (some p) (k ∷ ks) (same, (t, e, up)) lt =
    let rest = chain_loop-deep m rounds t.parent ks up (omega arith) in ground (arith, rest)

-- Parents are older, so the ancestors end.
ancestry :
    (m : Map ℕ Tenant) (bound b : ℕ) (p : Option TenantId)
    → ParentsLive m
    → ParentLives m b p
    → b ≤ bound
    → (chain : List TenantId) × IsAncestry m p chain
ancestry m bound b none live h le = ([], tt)
ancestry m zero b (some p) live (lt, _) le = absurd (omega (arith, lt, le))
ancestry m (suc bound) b (some p) live (lt, (t, e)) le =
    let (rest, up) = ancestry m bound p t.parent live (live p t e) (omega arith) in
    (p ∷ rest, (refl, (t, e, up)))

-- A living tenant of a well-formed store has a list of ancestors, from itself up to a tenant
-- without a parent; chain_from answers with that list if it has at most 65 tenants, and refuses
-- it as too deep if it has more.
pub chain_from_outcome :
    (s : StoreState) (tid : TenantId) (t : Tenant)
    → IsWellFormed s
    → get s.tenants tid ≡ some t
    → (chain : List TenantId) × IsAncestry s.tenants (some tid) chain
      × (chain_from s tid ≡ (
          if leb (length chain) 65 then ok chain else err (internal "tenant hierarchy too deep")))
unfolding chain_from
chain_from_outcome s tid t w h =
    let live : ParentsLive s.tenants = λ k u e. (w.tenants k u e).parent in
    let (chain, up) =
      ancestry s.tenants (suc tid) (suc tid) (some tid) live (omega arith, (t, h)) (omega arith) in
    (
      chain,
      up,
      elim (Bool-cases (leb (length chain) 65)) [
        | inl short ↦
            rw short
              (chain_loop-fits s.tenants 65 (some tid) chain up (at_most (length chain) short))
        | inr long ↦
            rw long (chain_loop-deep s.tenants 65 (some tid) chain up (above (length chain) long))
      ],
    )
  where
    at_most : (n : ℕ) → leb n 65 ≡ true → n ≤ 65
    at_most n e = ground arith

    above : (n : ℕ) → leb n 65 ≡ false → 65 < n
    above n e = ground arith
