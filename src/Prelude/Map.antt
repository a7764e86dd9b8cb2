-- ===== src/Prelude/Map.antt =====
-- `BTreeMap` and `HashMap`. Clients have the laws; tests open the representation. A `HashMap`
-- promises no order of iteration; the order of the keys is one that it may choose.
pub mod Assoc
pub mod Entries
pub mod Sizes
pub mod Cases
pub mod Ordered
use Assoc.{
  lookup, place, without, adjust, keep, seconds, lookup-place, lookup-without, lookup-adjust,
  lookup-any, adjust-map, key_refl,
}
use Prim.Native.Nat.{ℕ}
use mathlib.Core.Path.{◌≡◌, refl}
use mathlib.Core.Bool.{Bool, true, false}
use mathlib.Core.List.{List, [], map}
use mathlib.Core.Option
use mathlib.Core.Option.{Option, none, some}
use native.Mathlib.Omega.{arith}
use celium.Prelude.Key.{Key, ◌==◌}
use celium.Prelude.Tests.{if◌then◌else◌}
use celium.Prelude.Lists.{any, length}

pub record Map {ℓ κ} (K : Type ℓ) (V : Type κ) : Type (ℓ ⊔ κ) where
  entries : List (K × V)

module _ {ℓ κ} {K : Type ℓ} {V : Type κ} where
  unfoldable pub empty : Map K V
  empty = record { entries = [] }

  -- `values()`, and `len()`.
  unfoldable pub values : Map K V → List V
  unfolding seconds
  values m = seconds m.entries

  unfoldable pub len : Map K V → ℕ
  len m = length m.entries

  -- `iter()`: the entries, in the order of the keys.
  unfoldable pub items : Map K V → List (K × V)
  items m = m.entries

  -- `iter_mut()`: every value is given anew.
  unfoldable pub map_values : (K → V → V) → Map K V → Map K V
  unfolding adjust
  map_values f m = record { entries = adjust f m.entries }

  -- `retain`.
  unfoldable pub retain : (K → V → Bool) → Map K V → Map K V
  unfolding keep
  retain p m = record { entries = keep p m.entries }

  pub items-map_values :
      (f : K → V → V) (m : Map K V) → items (map_values f m) ≡ map (λ e. (e.0, f e.0 e.1)) (items m)
  unfolding items map_values
  items-map_values f m = adjust-map f m.entries

module _ {ℓ κ} {K : Type ℓ} {V : Type κ} ⦃key : Key K⦄ where
  unfoldable pub get : Map K V → K → Option V
  unfolding lookup
  get m k = lookup k m.entries

  unfoldable pub insert : K → V → Map K V → Map K V
  unfolding place
  insert k v m = record { entries = place k v m.entries }

  unfoldable pub remove : K → Map K V → Map K V
  unfolding without
  remove k m = record { entries = without k m.entries }

  pub get-empty : (k : K) → get (empty {V = V}) k ≡ none
  unfolding get empty lookup
  get-empty k = refl

  pub get-insert :
      (k j : K) (v : V) (m : Map K V) → get (insert k v m) j ≡ (if k == j then some v else get m j)
  unfolding get insert
  get-insert k j v m = lookup-place k j v m.entries

  pub get-remove : (k j : K) (m : Map K V) → get (remove k m) j ≡ (if k == j then none else get m j)
  unfolding get remove
  get-remove k j m = lookup-without k j m.entries

  pub get-map_values :
      (f : K → V → V) (k : K) (m : Map K V) → get (map_values f m) k ≡ Option.map (f k) (get m k)
  unfolding get map_values
  get-map_values f k m = lookup-adjust f k m.entries

  -- What `any` refuses of all values it refuses of the value at a key.
  pub get-any :
      (p : V → Bool) (k : K) (v : V) (m : Map K V)
      → any p (values m) ≡ false
      → get m k ≡ some v
      → p v ≡ false
  unfolding get values
  get-any p k v m h e = lookup-any p k v m.entries h e

  pub get-insert_self : (k : K) (v : V) (m : Map K V) → get (insert k v m) k ≡ some v
  get-insert_self k v m = rw (get-insert k k v m, key_refl k) refl

  pub get-remove_self : (k : K) (m : Map K V) → get (remove k m) k ≡ none
  get-remove_self k m = rw (get-remove k k m, key_refl k) refl

pub ruleset map_laws = (get-empty, get-insert, get-remove, get-map_values)
