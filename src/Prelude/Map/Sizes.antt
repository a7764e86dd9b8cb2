-- ===== src/Prelude/Map/Sizes.antt =====
-- The number of entries of a map, under the operations on maps.
use Prim.Native.Nat.{ℕ, zero, suc, ◌+◌, ◌≤◌, ◌<◌}
use mathlib.Core.Path.{◌≡◌, refl}
use mathlib.Core.Logic.{inl, inr}
use mathlib.Core.Bool.{false}
use mathlib.Core.List.{List, [], ◌∷◌}
use mathlib.Core.Option.{none, some}
use native.Mathlib.Omega.{arith}
use celium.Prelude.Key.{Key, ◌==◌, nat_key}
use celium.Prelude.Tests.{Bool-cases, Option-cases, eqb}
use celium.Prelude.Lists.{length}
use celium.Prelude.Map.{Map, empty, get, insert, remove, len, get-remove}
use celium.Prelude.Map.Assoc.{lookup, place, without, key_refl}

pub len-empty {ℓ κ} : (K : Type ℓ) (V : Type κ) → len (empty {K = K} {V = V}) ≡ 0
unfolding len empty
len-empty K V = omega arith

module _ {ℓ κ} {K : Type ℓ} {V : Type κ} ⦃key : Key K⦄ where
  length-place : (k : K) (v : V) (m : List (K × V)) → length (place k v m) ≤ suc (length m)
  unfolding place
  length-place k v [] = omega arith
  length-place k v ((j, w) ∷ m) = elim (Bool-cases (j == k)) [
    | inl same ↦ rw same (omega arith)
    | inr other ↦ elim (Bool-cases (key.lt k j)) [
      | inl before ↦ rw (other, before) (omega arith)
      | inr after ↦ rw (other, after) (omega (arith, length-place k v m))
    ]
  ]

  pub len-insert : (k : K) (v : V) (m : Map K V) → len (insert k v m) ≤ suc (len m)
  unfolding len insert
  len-insert k v m = length-place k v m.entries

  length-without : (k : K) (m : List (K × V)) → length (without k m) ≤ length m
  unfolding without
  length-without k [] = omega arith
  length-without k ((j, w) ∷ m) = elim (Bool-cases (j == k)) [
    | inl same ↦ rw same (omega (arith, length-without k m))
    | inr other ↦ rw other (omega (arith, length-without k m))
  ]

  pub len-remove : (k : K) (m : Map K V) → len (remove k m) ≤ len m
  unfolding len remove
  len-remove k m = length-without k m.entries

  without-less :
      (k : K) (v : V) (m : List (K × V)) → lookup k m ≡ some v → length (without k m) < length m
  unfolding lookup without
  without-less k v [] e = absurd (cc e)
  without-less k v ((j, w) ∷ m) e = elim (Bool-cases (j == k)) [
    | inl same ↦ rw same (omega (arith, length-without k m))
    | inr other ↦ rw other (omega (arith, without-less k v m (rw other at e)))
  ]

  -- An entry that is there counts.
  pub remove-less : (k : K) (v : V) (m : Map K V) → get m k ≡ some v → len (remove k m) < len m
  unfolding len remove get
  remove-less k v m e = without-less k v m.entries e

  -- A map without entries has none at any key.
  pub len-zero : (k : K) (m : Map K V) → len m ≡ 0 → get m k ≡ none
  len-zero k m e = elim (Option-cases (get m k)) [
    | inl missing ↦ missing
    | inr (v, there) ↦ absurd (omega (arith, remove-less k v m there, e))
  ]

module _ {ℓ κ} {K : Type ℓ} {V : Type κ} ⦃key : Key K⦄ where
  first_of : (m : List (K × V)) → 0 < length m → (k : K) × (v : V) × (lookup k m ≡ some v)
  unfolding lookup
  first_of [] full = absurd (omega (arith, full))
  first_of ((k, v) ∷ m) full = (k, v, rw (key_refl k) refl)

  -- A map that is not empty has an entry.
  pub some_entry : (m : Map K V) → 0 < len m → (k : K) × (v : V) × (get m k ≡ some v)
  unfolding len get
  some_entry m full = first_of m.entries full

-- The pigeonhole: a map with an entry at each of `k` numbers in a row has `k` entries at least.
pub row-le-len {κ} :
    {V : Type κ} (base k : ℕ) (m : Map ℕ V)
    → ((i : ℕ) → 0 < i → i ≤ k → (v : V) × (get m (base + i) ≡ some v))
    → k ≤ len m
row-le-len base zero m h = omega arith
row-le-len base (suc k) m h =
    let (v, last) = h (suc k) (omega arith) (omega arith) in
    let rest = row-le-len base k (remove (base + suc k) m) (λ i positive below.
      let (w, there) = h i positive (omega (arith, below)) in
      let other : eqb (base + suc k) (base + i) ≡ false = ground (arith, below) in
      (w, rw (get-remove (base + suc k) (base + i) m, other) there)) in
    omega (arith, rest, remove-less (base + suc k) v m last)
