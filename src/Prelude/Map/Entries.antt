-- ===== src/Prelude/Map/Entries.antt =====
-- A predicate that holds of every entry of a map, under the operations on maps.
use mathlib.Core.Path.{◌≡◌, sym, subst}
use mathlib.Core.Logic.{◌≢◌, inl, inr}
use mathlib.Core.List.{List, [], ◌∷◌}
use mathlib.Core.Option.{some}
use celium.Prelude.Key.{Key, ◌==◌}
use celium.Prelude.Tests.{Bool-cases}
use celium.Prelude.Lists.{All}
use celium.Prelude.Map.{Map, empty, get, insert, remove, values, items}
use celium.Prelude.Map.Assoc.{lookup, place, without, seconds}

module _ {ℓ κ μ} {K : Type ℓ} {V : Type κ} where
  abbrev pub Entries : (K → V → Type μ) → Map K V → Type μ
  Entries P m = All (λ e. P e.0 e.1) (items m)

  abbrev Each : (K → V → Type μ) → List (K × V) → Type μ
  Each P m = All (λ e. P e.0 e.1) m

  pub Entries-empty : (P : K → V → Type μ) → Entries P empty
  unfolding items empty
  Entries-empty P = tt

  Each-values :
      (P : K → V → Type μ) (Q : V → Type μ) (m : List (K × V))
      → ((k : K) (v : V) → P k v → Q v)
      → Each P m
      → All Q (seconds m)
  unfolding seconds
  Each-values P Q [] f h = tt
  Each-values P Q ((k, v) ∷ m) f h = (f k v h.0, Each-values P Q m f h.1)

  pub Entries-values :
      (P : K → V → Type μ) (Q : V → Type μ) (m : Map K V)
      → ((k : K) (v : V) → P k v → Q v)
      → Entries P m
      → All Q (values m)
  unfolding items values
  Entries-values P Q m f h = Each-values P Q m.entries f h

  Each-mono :
      (P Q : K → V → Type μ) (m : List (K × V))
      → ((k : K) (v : V) → P k v → Q k v)
      → Each P m
      → Each Q m
  Each-mono P Q [] f h = tt
  Each-mono P Q ((k, v) ∷ m) f h = (f k v h.0, Each-mono P Q m f h.1)

  pub Entries-mono :
      (P Q : K → V → Type μ) (m : Map K V)
      → ((k : K) (v : V) → P k v → Q k v)
      → Entries P m
      → Entries Q m
  unfolding items
  Entries-mono P Q m f h = Each-mono P Q m.entries f h

module _ {ℓ κ μ} {K : Type ℓ} {V : Type κ} ⦃key : Key K⦄ where
  Each-get :
      (P : K → V → Type μ) (k : K) (v : V) (m : List (K × V))
      → Each P m
      → lookup k m ≡ some v
      → P k v
  unfolding lookup
  Each-get P k v [] h e = absurd (cc e)
  Each-get P k v ((j, w) ∷ m) h e = elim (Bool-cases (j == k)) [
    | inl same ↦
        let found : some w ≡ some v = rw same at e in
        let names : w ≡ v = cc found in
        subst (λ i. P i v) ((key.beq_iff j k).0 same) (subst (P j) names h.0)
    | inr other ↦ Each-get P k v m h.1 (rw other at e)
  ]

  pub Entries-get :
      (P : K → V → Type μ) (k : K) (v : V) (m : Map K V) → Entries P m → get m k ≡ some v → P k v
  unfolding items get
  Entries-get P k v m h e = Each-get P k v m.entries h e

  Each-place :
      (P : K → V → Type μ) (k : K) (v : V) (m : List (K × V))
      → Each P m
      → P k v
      → Each P (place k v m)
  unfolding place
  Each-place P k v [] h p = (p, tt)
  Each-place P k v ((j, w) ∷ m) h p = elim (Bool-cases (j == k)) [
    | inl same ↦ rw same (p, h.1)
    | inr other ↦ elim (Bool-cases (key.lt k j)) [
      | inl before ↦ rw (other, before) (p, h)
      | inr after ↦ rw (other, after) (h.0, Each-place P k v m h.1 p)
    ]
  ]

  pub Entries-insert :
      (P : K → V → Type μ) (k : K) (v : V) (m : Map K V)
      → Entries P m
      → P k v
      → Entries P (insert k v m)
  unfolding items insert
  Entries-insert P k v m h p = Each-place P k v m.entries h p

  Each-without :
      (P : K → V → Type μ) (k : K) (m : List (K × V))
      → Each P m
      → Each (λ j v. P j v × (k ≢ j)) (without k m)
  unfolding without
  Each-without P k [] h = tt
  Each-without P k ((j, w) ∷ m) h = elim (Bool-cases (j == k)) [
    | inl same ↦ rw same (Each-without P k m h.1)
    | inr other ↦
        rw other
          ((h.0, (λ e. absurd (cc (other, (key.beq_iff j k).1 (sym e))))), Each-without P k m h.1)
  ]

  -- What stays of a map without a key is under other keys.
  pub Entries-remove :
      (P : K → V → Type μ) (k : K) (m : Map K V)
      → Entries P m
      → Entries (λ j v. P j v × (k ≢ j)) (remove k m)
  unfolding items remove
  Entries-remove P k m h = Each-without P k m.entries h

module _ {ℓ κ μ ν} {K : Type ℓ} {V : Type κ} where
  Each_both :
      (P : K → V → Type μ) (Q : K → V → Type ν) (m : List (K × V))
      → All (λ e. P e.0 e.1) m
      → All (λ e. Q e.0 e.1) m
      → All (λ e. P e.0 e.1 × Q e.0 e.1) m
  Each_both P Q [] h k = tt
  Each_both P Q ((j, v) ∷ m) h k = ((h.0, k.0), Each_both P Q m h.1 k.1)

  -- A predicate of the listed entries is one of the map's.
  pub Entries-all :
      (P : K → V → Type μ) (Q : K → V → Type ν) (m : Map K V)
      → Entries P m
      → All (λ e. Q e.0 e.1) (items m)
      → Entries (λ k v. P k v × Q k v) m
  Entries-all P Q m h k = Each_both P Q (items m) h k
