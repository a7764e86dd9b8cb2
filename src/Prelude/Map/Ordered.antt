-- ===== src/Prelude/Map/Ordered.antt =====
-- Maps whose keys are numbers in increasing order, as every map is that the operations build.
use Prim.Native.Nat.{ℕ, ◌<◌}
use mathlib.Core.Path.{◌≡◌}
use mathlib.Core.Logic.{inl, inr}
use mathlib.Core.List.{List, [], ◌∷◌}
use mathlib.Core.Bool.{true, false}
use mathlib.Core.Option.{some}
use native.Mathlib.Omega.{arith}
use celium.Prelude.Key.{nat_key}
use celium.Prelude.Tests.{Bool-cases, eqb, ltb, eqb_iff}
use celium.Prelude.Lists.{All}
use celium.Prelude.Map.{Map, empty, get, insert, remove, values}
use celium.Prelude.Map.Assoc.{lookup, place, without, seconds}

first : (k j : ℕ) → ltb k j ≡ true → k < j
first k j e = ground (arith, e)

last : (k j : ℕ) → eqb j k ≡ false → ltb k j ≡ false → j < k
last k j other e = ground (arith, other, e)

differs : (i j : ℕ) → i < j → eqb i j ≡ false
differs i j lt = ground (arith, lt)

module _ {κ} {V : Type κ} where
  abbrev Rises : List (ℕ × V) → Type κ
  Rises [] = Unit
  Rises ((j, v) ∷ m) = All (λ e. j < e.0) m × Rises m

  abbrev pub IsOrdered : Map ℕ V → Type κ
  IsOrdered m = Rises m.entries

  later : (i j : ℕ) (m : List (ℕ × V)) → i < j → All (λ e. j < e.0) m → All (λ e. i < e.0) m
  later i j [] lt h = tt
  later i j ((k, v) ∷ m) lt h = (omega (arith, lt, h.0), later i j m lt h.1)

  place-above :
      (i k : ℕ) (v : V) (m : List (ℕ × V))
      → i < k
      → All (λ e. i < e.0) m
      → All (λ e. i < e.0) (place k v m)
  unfolding place
  place-above i k v [] lt h = (lt, tt)
  place-above i k v ((j, w) ∷ m) lt h = elim (Bool-cases (eqb j k)) [
    | inl same ↦ rw same (lt, h.1)
    | inr other ↦ elim (Bool-cases (ltb k j)) [
      | inl before ↦ rw (other, before) (lt, h)
      | inr after ↦ rw (other, after) (h.0, place-above i k v m lt h.1)
    ]
  ]

  place-Rises : (k : ℕ) (v : V) (m : List (ℕ × V)) → Rises m → Rises (place k v m)
  unfolding place
  place-Rises k v [] h = (tt, tt)
  place-Rises k v ((j, w) ∷ m) h = elim (Bool-cases (eqb j k)) [
    | inl same ↦ rw (same, ← (eqb_iff j k).0 same) h
    | inr other ↦ elim (Bool-cases (ltb k j)) [
      | inl before ↦ rw (other, before) ((first k j before, later k j m (first k j before) h.0), h)
      | inr after ↦
          rw (other, after) (place-above j k v m (last k j other after) h.0, place-Rises k v m h.1)
    ]
  ]

  without-above :
      (i k : ℕ) (m : List (ℕ × V)) → All (λ e. i < e.0) m → All (λ e. i < e.0) (without k m)
  unfolding without
  without-above i k [] h = tt
  without-above i k ((j, w) ∷ m) h = elim (Bool-cases (eqb j k)) [
    | inl same ↦ rw same (without-above i k m h.1)
    | inr other ↦ rw other (h.0, without-above i k m h.1)
  ]

  without-Rises : (k : ℕ) (m : List (ℕ × V)) → Rises m → Rises (without k m)
  unfolding without
  without-Rises k [] h = tt
  without-Rises k ((j, w) ∷ m) h = elim (Bool-cases (eqb j k)) [
    | inl same ↦ rw same (without-Rises k m h.1)
    | inr other ↦ rw other (without-above j k m h.0, without-Rises k m h.1)
  ]

  pub insert-IsOrdered : (k : ℕ) (v : V) (m : Map ℕ V) → IsOrdered m → IsOrdered (insert k v m)
  unfolding insert
  insert-IsOrdered k v m h = place-Rises k v m.entries h

  pub remove-IsOrdered : (k : ℕ) (m : Map ℕ V) → IsOrdered m → IsOrdered (remove k m)
  unfolding remove
  remove-IsOrdered k m h = without-Rises k m.entries h

  found : (m : List (ℕ × V)) → Rises m → All (λ e. lookup e.0 m ≡ some e.1) m
  unfolding lookup
  found [] h = tt
  found ((j, w) ∷ m) h = (here j, past m h.0 (found m h.1))
    where
      here : (i : ℕ) → lookup i ((i, w) ∷ m) ≡ some w
      here i = ground (arith, eqb_iff i i)

      past :
          (rest : List (ℕ × V))
          → All (λ e. j < e.0) rest
          → All (λ e. lookup e.0 m ≡ some e.1) rest
          → All (λ e. lookup e.0 ((j, w) ∷ m) ≡ some e.1) rest
      past [] h f = tt
      past ((k, v) ∷ rest) h f = (rw (differs j k h.0) f.0, past rest h.1 f.1)

  under_key :
      (m rest : List (ℕ × V))
      → All (λ e. lookup e.0 m ≡ some e.1) rest
      → All (λ v. (k : ℕ) × (lookup k m ≡ some v)) (seconds rest)
  unfolding seconds
  under_key m [] f = tt
  under_key m ((k, v) ∷ rest) f = ((k, f.0), under_key m rest f.1)

  -- Every value is found under a key.
  pub values-found :
      (m : Map ℕ V) → IsOrdered m → All (λ v. (k : ℕ) × (get m k ≡ some v)) (values m)
  unfolding get values
  values-found m h = under_key m.entries m.entries (found m.entries h)

pub empty-IsOrdered {κ} : (V : Type κ) → IsOrdered (empty {K = ℕ} {V = V})
unfolding empty
empty-IsOrdered V = tt
