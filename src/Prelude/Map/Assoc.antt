-- ===== src/Prelude/Map/Assoc.antt =====
-- Association lists in the order of their keys: the operations behind `Map`, with their laws.
use mathlib.Core.Path.{◌≡◌, refl}
use mathlib.Core.Bool.{Bool, true, false}
use mathlib.Core.List.{List, [], ◌∷◌, map}
use mathlib.Core.Option
use mathlib.Core.Option.{Option, none, some}
use native.Mathlib.Omega.{arith}
use celium.Prelude.Key.{Key, ◌==◌}
use celium.Prelude.Tests.{if◌then◌else◌}
use celium.Prelude.Lists.{any}

pub key_refl {ℓ} : {K : Type ℓ} ⦃key : Key K⦄ (k : K) → (k == k) ≡ true
key_refl ⦃key⦄ k = (key.beq_iff k k).1 refl

module _ {ℓ κ} {K : Type ℓ} {V : Type κ} where
  unfoldable pub adjust : (K → V → V) → List (K × V) → List (K × V)
  adjust f [] = []
  adjust f ((j, v) ∷ m) = (j, f j v) ∷ adjust f m

  unfoldable pub keep : (K → V → Bool) → List (K × V) → List (K × V)
  keep p [] = []
  keep p ((j, v) ∷ m) = let rest = keep p m in if p j v then (j, v) ∷ rest else rest

  unfoldable pub seconds : List (K × V) → List V
  seconds [] = []
  seconds ((j, v) ∷ m) = v ∷ seconds m

  pub adjust-map : (f : K → V → V) (m : List (K × V)) → adjust f m ≡ map (λ e. (e.0, f e.0 e.1)) m
  unfolding adjust
  adjust-map f [] = refl
  adjust-map f ((j, v) ∷ m) = rw (adjust-map f m)

module _ {ℓ κ} {K : Type ℓ} {V : Type κ} ⦃key : Key K⦄ where
  unfoldable pub lookup : K → List (K × V) → Option V
  lookup k [] = none
  lookup k ((j, v) ∷ m) = if j == k then some v else lookup k m

  unfoldable pub place : K → V → List (K × V) → List (K × V)
  place k v [] = (k, v) ∷ []
  place k v ((j, w) ∷ m) =
      if j == k
      then (k, v) ∷ m
      else if key.lt k j
      then (k, v) ∷ (j, w) ∷ m
      else (j, w) ∷ place k v m

  unfoldable pub without : K → List (K × V) → List (K × V)
  without k [] = []
  without k ((j, v) ∷ m) = let rest = without k m in if j == k then rest else (j, v) ∷ rest

  pub lookup-place :
      (k j : K) (v : V) (m : List (K × V))
      → lookup j (place k v m) ≡ (if k == j then some v else lookup j m)
  unfolding lookup place
  lookup-place k j v [] = refl
  lookup-place k j v ((i, w) ∷ m) =
      ground (arith, key.beq_iff k j, key.beq_iff i k, key.beq_iff i j, lookup-place k j v m)

  pub lookup-without :
      (k j : K) (m : List (K × V)) → lookup j (without k m) ≡ (if k == j then none else lookup j m)
  unfolding lookup without
  lookup-without k j [] = ground arith
  lookup-without k j ((i, w) ∷ m) =
      ground (arith, key.beq_iff k j, key.beq_iff i k, key.beq_iff i j, lookup-without k j m)

  pub lookup-adjust :
      (f : K → V → V) (k : K) (m : List (K × V))
      → lookup k (adjust f m) ≡ Option.map (f k) (lookup k m)
  unfolding lookup adjust
  lookup-adjust f k [] = refl
  lookup-adjust f k ((j, v) ∷ m) = ground (arith, key.beq_iff j k, lookup-adjust f k m)

  pub lookup-any :
      (p : V → Bool) (k : K) (v : V) (m : List (K × V))
      → any p (seconds m) ≡ false
      → lookup k m ≡ some v
      → p v ≡ false
  unfolding lookup seconds
  lookup-any p k v [] h e = cc
  lookup-any p k v ((j, w) ∷ m) h e = ground (arith, lookup-any p k v m)

  pub lookup-keep :
      (p : K → V → Bool) (k : K) (v : V) (m : List (K × V))
      → lookup k m ≡ some v
      → p k v ≡ true
      → lookup k (keep p m) ≡ some v
  unfolding lookup keep
  lookup-keep p k v [] h e = cc
  lookup-keep p k v ((j, w) ∷ m) h e = ground (arith, key.beq_iff j k, lookup-keep p k v m)
