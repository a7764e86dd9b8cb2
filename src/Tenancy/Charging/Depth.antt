-- ===== src/Tenancy/Charging/Depth.antt =====
-- When the bound of 65 levels on a chain of ancestors, crates/celtenancy/src/store.rs, is enough.
use celium.Prelude.{ℕ, zero, suc, ◌≤◌, ◌<◌, ◌≡◌, refl, Option, none, some, List, [], ◌∷◌, arith}
use celium.Prelude.Key.{nat_key}
use celium.Prelude.Map.{Map, get}
use celium.Prelude.Error.{ok}
use celium.Tenancy.Model.{TenantId, Tenant, StoreState}
use celium.Tenancy.Charging.{max_levels, chain_loop, chain_from}
use celium.Tenancy.Charging.Chains.{ParentsLive}
use celium.Tenancy.Charging.Atomic.{parents_live}
use celium.Tenancy.Invariant.{ParentLives, IsWellFormed}

-- A parent is older, so as many rounds as the id reach the root.
chain_loop_total :
    (m : Map ℕ Tenant) (rounds b : ℕ) (p : Option TenantId)
    → ParentsLive m
    → ParentLives m b p
    → b ≤ rounds
    → (chain : List TenantId) × (chain_loop m rounds p ≡ ok chain)
unfolding chain_loop
chain_loop_total m rounds b none live h le = ([], refl)
chain_loop_total m zero b (some p) live h le = absurd (omega arith)
chain_loop_total m (suc rounds) b (some p) live (lt, (t, e)) le =
    let (rest, r) = chain_loop_total m rounds p t.parent live (live p t e) (omega arith) in
    (p ∷ rest, ground arith)

-- In a well-formed store the chain of a live tenant is found if its id is below 65.
pub chain_from_total :
    (s : StoreState) (tid : TenantId) (t : Tenant)
    → IsWellFormed s
    → get s.tenants tid ≡ some t
    → tid < max_levels
    → (chain : List TenantId) × (chain_from s tid ≡ ok chain)
unfolding chain_from
chain_from_total s tid t w h lt =
    chain_loop_total s.tenants max_levels max_levels (some tid) (parents_live s w) (lt, (t, h))
      (omega arith)
