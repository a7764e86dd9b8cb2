-- ===== src/Tenancy/Charging/Chains.antt =====
-- The chains of ancestors in a well-formed store, and the two passes along them.
use celium.Prelude.{
  ℕ, zero, suc, ◌≤◌, ◌<◌, ◌≡◌, refl, false, Option, none, some, List, [], ◌∷◌, All, arith, eqb,
  eqb_iff, any, Bool, if◌then◌else◌, Bool-cases, Option-cases, inl, inr,
}
use mathlib.Core.Option
use celium.Prelude.Key.{nat_key}
use celium.Prelude.Map.{Map, get, insert, get-insert}
use celium.Prelude.Error.{ok, CelResult-cases}
use celium.Tenancy.Quota.{QuotaUsage, QuotaCharge, charged, charge_quota, release_quota}
use celium.Tenancy.Quota.Laws.{charge_quota-charged}
use celium.Tenancy.Model.{TenantId, Tenant}
use celium.Tenancy.Charging.{chain_loop, validate_chain, charge_one, apply_chain, release_chain}
use celium.Tenancy.Invariant.{ParentLives}

abbrev pub on_chain : List TenantId → TenantId → Bool
on_chain chain k = any (λ j. eqb j k) chain

-- No tenant stands twice on the chain.
abbrev pub IsDistinct : List TenantId → Type 0
IsDistinct [] = Unit {0}
IsDistinct (k ∷ ks) = (on_chain ks k ≡ false) × IsDistinct ks

abbrev pub ParentsLive : Map ℕ Tenant → Type 0
ParentsLive m = (k : ℕ) (t : Tenant) → get m k ≡ some t → ParentLives m k t.parent

abbrev pub Below : ℕ → Option TenantId → Type 0
Below b none = Unit {0}
Below b (some p) = p < b

not_on_chain : (b : ℕ) (ks : List TenantId) → All (λ k. k < b) ks → on_chain ks b ≡ false
not_on_chain b [] h = refl
not_on_chain b (k ∷ ks) h = ground (arith, not_on_chain b ks h.1)

All-Below_mono : (a b : ℕ) (ks : List TenantId) → a ≤ b → All (λ k. k < a) ks → All (λ k. k < b) ks
All-Below_mono a b [] le h = tt
All-Below_mono a b (k ∷ ks) le h = (omega arith, All-Below_mono a b ks le h.1)

parent-Below : (m : Map ℕ Tenant) (k : ℕ) (p : Option TenantId) → ParentLives m k p → Below k p
parent-Below m k none h = tt
parent-Below m k (some p) h = h.0

-- Parents are older, so a chain falls and names nobody twice.
pub chain_loop-IsDistinct :
    (m : Map ℕ Tenant) (rounds b : ℕ) (p : Option TenantId) (chain : List TenantId)
    → ParentsLive m
    → Below b p
    → chain_loop m rounds p ≡ ok chain
    → All (λ k. k < b) chain × IsDistinct chain
unfolding chain_loop
chain_loop-IsDistinct m rounds b none [] live below h = (tt, tt)
chain_loop-IsDistinct m rounds b none (k ∷ ks) live below h = absurd (cc h)
chain_loop-IsDistinct m zero b (some p) chain live below h = absurd (cc h)
chain_loop-IsDistinct m (suc rounds) b (some p) [] live below h = absurd (ground arith)
chain_loop-IsDistinct m (suc rounds) b (some p) (k ∷ ks) live below h =
    elim (Option-cases (get m p)) [
      | inl e ↦ absurd (ground arith)
      | inr (t, e) ↦
          let head : p ≡ k = ground arith in
          let (low, rest) =
            chain_loop-IsDistinct m rounds p t.parent ks live
              (parent-Below m p t.parent (live p t e)) (ground arith) in
          (
            (omega arith, All-Below_mono p b ks (omega arith) low),
            (rw (← head) (not_on_chain p ks low), rest),
          )
    ]

abbrev pub charge_tenant : QuotaCharge → Tenant → Tenant
charge_tenant c t = record t { usage = charged t.usage c }

abbrev pub release_tenant : QuotaCharge → Tenant → Tenant
release_tenant c t = record t { usage = release_quota t.usage c }

-- Every tenant on the chain changed by `f`, every other as it was.
abbrev pub ChangedOn : (Tenant → Tenant) → List TenantId → Map ℕ Tenant → Map ℕ Tenant → Type 0
ChangedOn f chain m m' =
    (k : ℕ) → get m' k ≡ (if on_chain chain k then Option.map f (get m k) else get m k)

-- A write off the chain is not seen by pass 1.
validate_chain-insert :
    (m : Map ℕ Tenant) (c : QuotaCharge) (tid : TenantId) (t : Tenant) (chain : List TenantId)
    → on_chain chain tid ≡ false
    → validate_chain (insert tid t m) c chain ≡ validate_chain m c chain
unfolding validate_chain
validate_chain-insert m c tid t [] h = refl
validate_chain-insert m c tid t (k ∷ ks) h =
    ground (
      arith,
      get-insert tid k t m,
      validate_chain-insert m c tid t ks,
      eqb_iff tid k,
      eqb_iff k tid,
    )

-- The usage that pass 2 reports: that of the first tenant.
abbrev pub first_usage : Map ℕ Tenant → QuotaCharge → List TenantId → QuotaUsage → QuotaUsage
first_usage m c [] u = u
first_usage m c (k ∷ ks) u = elim (get m k) [ none ↦ u | some t ↦ charged t.usage c ]

validated_head :
    (m : Map ℕ Tenant) (c : QuotaCharge) (k : TenantId) (ks : List TenantId)
    → validate_chain m c (k ∷ ks) ≡ ok tt
    → (t : Tenant) × (get m k ≡ some t)
      × (charge_one m c k ≡ ok (t, charged t.usage c))
      × (validate_chain m c ks ≡ ok tt)
unfolding validate_chain charge_one
validated_head m c k ks h = elim (Option-cases (get m k)) [
  | inl e ↦ absurd (ground arith)
  | inr (t, e) ↦ elim (CelResult-cases (charge_quota t.usage t.quotas c)) [
    | inr (x, r) ↦ absurd (ground arith)
    | inl (new, r) ↦
        let sum = charge_quota-charged t.usage t.quotas c r in (t, e, ground arith, ground arith)
  ]
]

-- After a successful pass 1, pass 2 charges every tenant on the chain and no other.
pub apply_chain_lem :
    (c : QuotaCharge) (chain : List TenantId) (m : Map ℕ Tenant) (i : ℕ) (u : QuotaUsage)
    → IsDistinct chain
    → validate_chain m c chain ≡ ok tt
    → (m' : Map ℕ Tenant) × (apply_chain m c i u chain
        ≡ (m', ok (if eqb i 0 then first_usage m c chain u else u)))
      × ChangedOn (charge_tenant c) chain m m'
unfolding apply_chain
apply_chain_lem c [] m i u d h = (m, ground arith, λ k. refl)
apply_chain_lem c (k ∷ ks) m i u d h =
    let (t, at, one, rest) = validated_head m c k ks h in
    let (m', run, changed) =
      apply_chain_lem c ks (insert k (charge_tenant c t) m) (suc i)
        (if eqb i 0 then charged t.usage c else u) d.1
        (rw (validate_chain-insert m c k (charge_tenant c t) ks d.0) rest) in
    (
      m',
      rw (one, apply_chain) (ground arith),
      λ j. ground (arith, changed j, get-insert k j (charge_tenant c t) m, eqb_iff k j),
    )

abbrev pub Live : Map ℕ Tenant → TenantId → Type 0
Live m k = (t : Tenant) × (get m k ≡ some t)

-- Every tenant of a chain lives.
pub chain_loop-Live :
    (m : Map ℕ Tenant) (rounds : ℕ) (p : Option TenantId) (chain : List TenantId)
    → chain_loop m rounds p ≡ ok chain
    → All (Live m) chain
unfolding chain_loop
chain_loop-Live m rounds none [] h = tt
chain_loop-Live m rounds none (k ∷ ks) h = absurd (cc h)
chain_loop-Live m zero (some p) chain h = absurd (cc h)
chain_loop-Live m (suc rounds) (some p) [] h = tt
chain_loop-Live m (suc rounds) (some p) (k ∷ ks) h = elim (Option-cases (get m p)) [
  | inl e ↦ absurd (ground arith)
  | inr (t, e) ↦
      let head : p ≡ k = ground arith in
      ((t, rw (← head) e), chain_loop-Live m rounds t.parent ks (ground arith))
]

Live-insert :
    (m : Map ℕ Tenant) (tid : TenantId) (t : Tenant) (k : TenantId)
    → Live m k
    → Live (insert tid t m) k
Live-insert m tid t k (u, e) = elim (Bool-cases (eqb tid k)) [
  | inl hit ↦ (t, rw (get-insert tid k t m, hit) refl)
  | inr miss ↦ (u, rw (get-insert tid k t m, miss) e)
]

Live-insert-All :
    (m : Map ℕ Tenant) (tid : TenantId) (t : Tenant) (ks : List TenantId)
    → All (Live m) ks
    → All (Live (insert tid t m)) ks
Live-insert-All m tid t [] h = tt
Live-insert-All m tid t (k ∷ ks) h = (Live-insert m tid t k h.0, Live-insert-All m tid t ks h.1)

abbrev pub released_usage : Map ℕ Tenant → QuotaCharge → List TenantId → QuotaUsage → QuotaUsage
released_usage m c [] u = u
released_usage m c (k ∷ ks) u = elim (get m k) [ none ↦ u | some t ↦ release_quota t.usage c ]

-- A release changes every tenant on the chain and no other.
pub release_chain_lem :
    (c : QuotaCharge) (chain : List TenantId) (m : Map ℕ Tenant) (i : ℕ) (u : QuotaUsage)
    → IsDistinct chain
    → All (Live m) chain
    → (m' : Map ℕ Tenant) × (release_chain m c i u chain
        ≡ (m', ok (if eqb i 0 then released_usage m c chain u else u)))
      × ChangedOn (release_tenant c) chain m m'
unfolding release_chain
release_chain_lem c [] m i u d h = (m, ground arith, λ k. refl)
release_chain_lem c (k ∷ ks) m i u d ((t, at), live) =
    let (m', run, changed) =
      release_chain_lem c ks (insert k (release_tenant c t) m) (suc i)
        (if eqb i 0 then release_quota t.usage c else u) d.1
        (Live-insert-All m k (release_tenant c t) ks live) in
    (
      m',
      rw (at, release_chain) (ground arith),
      λ j. ground (arith, changed j, get-insert k j (release_tenant c t) m, eqb_iff k j),
    )

-- A change that keeps parents keeps chains.
pub chain_loop-ChangedOn :
    (f : Tenant → Tenant) (on : List TenantId) (m m' : Map ℕ Tenant)
    → ((t : Tenant) → (f t).parent ≡ t.parent)
    → ChangedOn f on m m'
    → (rounds : ℕ) (p : Option TenantId) → chain_loop m' rounds p ≡ chain_loop m rounds p
unfolding chain_loop
chain_loop-ChangedOn f on m m' same changed rounds none = refl
chain_loop-ChangedOn f on m m' same changed zero (some p) = refl
chain_loop-ChangedOn f on m m' same changed (suc rounds) (some p) = elim (Option-cases (get m p)) [
  | inl e ↦ ground (arith, changed p)
  | inr (t, e) ↦
      ground (arith, changed p, same t, chain_loop-ChangedOn f on m m' same changed rounds t.parent)
]
