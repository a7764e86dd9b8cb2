-- ===== src/Tenancy/Invariant.antt =====
-- The well-formed states of the tenant store of crates/celtenancy/src/store.rs.
pub mod Create
pub mod Update
pub mod Remove
pub mod Users
pub mod Revocation
pub mod Charges
pub mod Recursive
use celium.Prelude.{
  ℕ, ◌+◌, ◌≤◌, ◌<◌, ◌≡◌, ◌≢◌, refl, true, false, Option, none, some, List, [], ◌∷◌, All, arith, eqb,
  retain, find, subst, ◌++◌, Bool, Bool-cases, inl, inr,
}
use celium.Prelude.Key.{Bytes, Key, nat_key, bytes_key}
use celium.Prelude.Map.{Map, get, insert, remove, empty, get-empty, get-insert, get-remove}
use celium.Prelude.Map.Ordered.{IsOrdered, empty-IsOrdered}
use celium.Tenancy.Caps.{contains}
use celium.Tenancy.Quota.Laws.{IsWithin}
use celium.Tenancy.Auth.{Session}
use celium.Tenancy.Model.{TenantId, User, Tenant, StoreState, init}

-- Every user of a tenant holds a part of its root capabilities, under an id that was given out.
abbrev pub UsersFit : ℕ → Tenant → Type 0
UsersFit n t = All (λ (u : User). (contains t.root_caps u.caps ≡ true) × (u.id ≤ n)) t.users

-- The parent of a tenant is older and lives.
abbrev pub ParentLives : Map ℕ Tenant → ℕ → Option TenantId → Type 0
ParentLives m k none = Unit
ParentLives m k (some p) = (p < k) × ((u : Tenant) × (get m p ≡ some u))

-- A session carries a part of the root capabilities of its tenant, while the tenant lives.
abbrev pub SessionFits : StoreState → Session → Type 0
SessionFits s x =
    (x.tenant ≤ s.next_tenant_id)
    × ((t : Tenant) → get s.tenants x.tenant ≡ some t → contains t.root_caps x.caps ≡ true)

pub record IsTenant (s : StoreState) (k : ℕ) (t : Tenant) : Type 0 where
  pub id : t.id ≡ k
  pub bounded : k ≤ s.next_tenant_id
  pub named : get s.by_name t.name ≡ some k
  pub parent : ParentLives s.tenants k t.parent
  pub within : IsWithin t.usage t.quotas
  pub users : UsersFit s.next_user_id t

pub record IsWellFormed (s : StoreState) : Type 0 where
  pub tenants : (k : ℕ) (t : Tenant) → get s.tenants k ≡ some t → IsTenant s k t
  pub indexed :
      (n : Bytes) (k : ℕ)
      → get s.by_name n ≡ some k
      → (t : Tenant) × (get s.tenants k ≡ some t) × (t.name ≡ n)
  pub sessions : All (SessionFits s) s.sessions
  pub ordered : IsOrdered s.tenants

pub init-IsWellFormed : IsWellFormed init
init-IsWellFormed = record {
  tenants = λ k t h. absurd (cc (get-empty {V = Tenant} k));
  indexed = λ n k h. absurd (cc (get-empty {V = ℕ} n));
  sessions = tt;
  ordered = empty-IsOrdered Tenant;
}

pub ParentLives-mono :
    (m m' : Map ℕ Tenant) (k : ℕ) (p : Option TenantId)
    → ((j : ℕ) (t : Tenant) → get m j ≡ some t → (u : Tenant) × (get m' j ≡ some u))
    → ParentLives m k p
    → ParentLives m' k p
ParentLives-mono m m' k none f h = tt
ParentLives-mono m m' k (some p) f (lt, (u, e)) = (lt, f p u e)

pub All-mono {ℓ κ} :
    {A : Type ℓ} {P Q : A → Type κ} (xs : List A) → ((a : A) → P a → Q a) → All P xs → All Q xs
All-mono [] f h = tt
All-mono (x ∷ xs) f h = (f x h.0, All-mono xs f h.1)

-- What `retain` leaves has the predicate, and passes the test.
pub All-retain {ℓ κ} :
    {A : Type ℓ} (P : A → Type κ) (p : A → Bool) (xs : List A)
    → All P xs
    → All (λ a. P a × (p a ≡ true)) (retain p xs)
All-retain P p [] h = tt
All-retain P p (x ∷ xs) h = elim (Bool-cases (p x)) [
  | inl e ↦ rw e ((h.0, e), All-retain P p xs h.1)
  | inr e ↦ rw e (All-retain P p xs h.1)
]

pub All-find {ℓ κ} :
    {A : Type ℓ} (P : A → Type κ) (p : A → Bool) (xs : List A) (a : A)
    → find p xs ≡ some a
    → All P xs
    → P a
All-find P p [] a e h = absurd (cc e)
All-find P p (x ∷ xs) a e h = elim (Bool-cases (p x)) [
  | inl hit ↦ let same : x ≡ a = ground arith in subst P same h.0
  | inr miss ↦ All-find P p xs a (rw miss at e) h.1
]

pub All-append {ℓ κ} :
    {A : Type ℓ} (P : A → Type κ) (xs ys : List A) → All P xs → All P ys → All P (xs ++ ys)
All-append P [] ys hx hy = hy
All-append P (x ∷ xs) ys hx hy = (hx.0, All-append P xs ys hx.1 hy)

pub All-and {ℓ κ μ} :
    {A : Type ℓ} (P : A → Type κ) (Q : A → Type μ) (xs : List A)
    → All P xs
    → All Q xs
    → All (λ a. P a × Q a) xs
All-and P Q [] h k = tt
All-and P Q (x ∷ xs) h k = ((h.0, k.0), All-and P Q xs h.1 k.1)
