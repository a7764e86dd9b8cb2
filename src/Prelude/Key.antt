-- ===== src/Prelude/Key.antt =====
-- The interface of a map's keys, with its instances for numbers and for byte strings.
use mathlib.Core.Path.{◌≡◌, refl}
use mathlib.Core.Logic.{◌↔◌}
use mathlib.Core.Bool.{Bool, true, false, ◌&&◌}
use mathlib.Core.List.{List, [], ◌∷◌}
use Prim.Native.Nat.{ℕ}
use native.Mathlib.Omega.{arith}
use celium.Prelude.Tests.{eqb, eqb_iff, ltb, if◌then◌else◌}

-- `Eq` and `Ord` of Rust, as far as the maps use them: `lt` only chooses where a new entry stands.
pub record Key {ℓ} (K : Type ℓ) : Type ℓ where
  pub beq : K → K → Bool
  pub lt : K → K → Bool
  pub beq_iff : (a b : K) → (beq a b ≡ true) ↔ (a ≡ b)

infix 50 ◌==◌
abbrev pub ◌==◌ {ℓ} : {K : Type ℓ} ⦃k : Key K⦄ → K → K → Bool
◌==◌ ⦃k⦄ = k.beq

-- Text is a list of bytes.
abbrev pub Bytes : Type 0
Bytes = List ℕ

unfoldable pub bytes_eq : Bytes → Bytes → Bool
bytes_eq [] [] = true
bytes_eq [] (y ∷ ys) = false
bytes_eq (x ∷ xs) [] = false
bytes_eq (x ∷ xs) (y ∷ ys) = eqb x y && bytes_eq xs ys

unfoldable pub bytes_lt : Bytes → Bytes → Bool
bytes_lt [] [] = false
bytes_lt [] (y ∷ ys) = true
bytes_lt (x ∷ xs) [] = false
bytes_lt (x ∷ xs) (y ∷ ys) =
    let rest = bytes_lt xs ys in if ltb x y then true else if eqb x y then rest else false

pub bytes_eq_iff : (a b : Bytes) → (bytes_eq a b ≡ true) ↔ (a ≡ b)
unfolding bytes_eq
bytes_eq_iff [] [] = ((λ _. refl), (λ _. refl))
bytes_eq_iff [] (y ∷ ys) = ((λ e. cc), (λ e. cc))
bytes_eq_iff (x ∷ xs) [] = ((λ e. cc), (λ e. cc))
bytes_eq_iff (x ∷ xs) (y ∷ ys) =
    ((λ e. ground (arith, bytes_eq_iff xs ys)), (λ e. ground (arith, bytes_eq_iff xs ys)))

instance abbrev pub nat_key : Key ℕ
nat_key = record { beq = eqb; lt = ltb; beq_iff = eqb_iff }

instance abbrev pub bytes_key : Key Bytes
bytes_key = record { beq = bytes_eq; lt = bytes_lt; beq_iff = bytes_eq_iff }
