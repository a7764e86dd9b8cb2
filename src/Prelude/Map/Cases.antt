-- ===== src/Prelude/Map/Cases.antt =====
-- What a lookup in a changed map finds, by whether it is at the changed key.
use mathlib.Core.Path.{◌≡◌, refl, ◌∙◌}
use mathlib.Core.Logic.{◌⊎◌, inl, inr}
use mathlib.Core.Bool.{false}
use mathlib.Core.Option.{none, some}
use celium.Prelude.Key.{Key, ◌==◌}
use celium.Prelude.Tests.{Bool-cases}
use celium.Prelude.Map.{Map, get, insert, remove, get-insert, get-remove}

module _ {ℓ κ} {K : Type ℓ} {V : Type κ} ⦃key : Key K⦄ where
  pub get-insert_other :
      (k j : K) (v : V) (m : Map K V) → (k == j) ≡ false → get (insert k v m) j ≡ get m j
  get-insert_other k j v m other = rw (get-insert k j v m, other) refl

  pub get-remove_other : (k j : K) (m : Map K V) → (k == j) ≡ false → get (remove k m) j ≡ get m j
  get-remove_other k j m other = rw (get-remove k j m, other) refl

  pub insert-cases :
      (k j : K) (v w : V) (m : Map K V)
      → get (insert k v m) j ≡ some w
      → ((k ≡ j) × (v ≡ w)) ⊎ (((k == j) ≡ false) × (get m j ≡ some w))
  insert-cases k j v w m e = elim (Bool-cases (k == j)) [
    | inl same ↦
        let found : some v ≡ some w = rw (get-insert k j v m, same) at e in
        inl ((key.beq_iff k j).0 same, cc found)
    | inr other ↦ inr (other, rw (get-insert k j v m, other) at e)
  ]

  pub remove-cases :
      (k j : K) (w : V) (m : Map K V)
      → get (remove k m) j ≡ some w
      → ((k == j) ≡ false) × (get m j ≡ some w)
  remove-cases k j w m e = elim (Bool-cases (k == j)) [
    | inl same ↦ absurd (cc (rw (get-remove k j m, same) at e))
    | inr other ↦ (other, rw (get-remove k j m, other) at e)
  ]

  -- A new key leaves what was found before.
  pub get-insert_fresh :
      (k j : K) (v w : V) (m : Map K V)
      → get m k ≡ none
      → get m j ≡ some w
      → get (insert k v m) j ≡ some w
  get-insert_fresh k j v w m fresh there = elim (Bool-cases (k == j)) [
    | inl same ↦
        let found : get m k ≡ some w = rw ((key.beq_iff k j).0 same) there in
        absurd (cc (fresh, found))
    | inr other ↦ get-insert_other k j v m other ∙ there
  ]

  -- A key without an entry is not one with an entry.
  pub absent-differs :
      (k j : K) (v : V) (m : Map K V) → get m k ≡ none → get m j ≡ some v → (k == j) ≡ false
  absent-differs k j v m missing there = elim (Bool-cases (k == j)) [
    | inr other ↦ other
    | inl same ↦
        let found : get m k ≡ some v = rw ((key.beq_iff k j).0 same) there in
        absurd (cc (missing, found))
  ]
