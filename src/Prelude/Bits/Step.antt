-- ===== src/Prelude/Bits/Step.antt =====
-- One binary digit of `&` and of `|`, from the digit recursion that the native operations stand for.
use Prim.Native.Nat.{
  ℕ, zero, suc, ◌+◌, ◌*◌, ◌/◌, ◌%◌, ◌≤◌, min, max, bit_and, bit_or, digits, bitwise,
  bit_and-bitwise, bit_or-bitwise,
}
use mathlib.Core.Path.{◌≡◌, refl, ap}
use native.Mathlib.Omega.{arith}

module _ (tail : ℕ → ℕ) (op : ℕ → ℕ → ℕ) where
  -- Two amounts of fuel, each enough for the left number, give the same digits.
  same_digits :
      (a : ℕ) (n : ℕ)
      → a ≤ n
      → (m : ℕ) → a ≤ m
      → (b : ℕ) → digits tail op n a b ≡ digits tail op m a b
  same_digits (suc a) (suc n) below (suc m) under b =
      ap (λ high. high * 2 + op (suc a % 2) (b % 2))
        (same_digits (suc a / 2) n (omega arith) m (omega arith) (b / 2))
  same_digits (suc a) zero below m under b = absurd (omega arith)
  same_digits (suc a) (suc n) below zero under b = absurd (omega arith)
  same_digits zero (suc n) below (suc m) under b = refl
  same_digits zero (suc n) below zero under b = refl
  same_digits zero zero below (suc m) under b = refl
  same_digits zero zero below zero under b = refl

  split_lowest :
      (k b : ℕ)
      → bitwise tail op (suc k) b ≡ bitwise tail op (suc k / 2) (b / 2) * 2 + op (suc k % 2) (b % 2)
  split_lowest k b =
      let half = suc k / 2 in
      ap (λ high. high * 2 + op (suc k % 2) (b % 2))
        (same_digits half k (omega arith) half (omega arith) (b / 2))

pub bit_and_step : (a b : ℕ) → bit_and a b ≡ bit_and (a / 2) (b / 2) * 2 + min (a % 2) (b % 2)
bit_and_step (suc k) b = simp bit_and-bitwise (split_lowest (λ _. 0) min k b)
bit_and_step zero b = simp bit_and-bitwise (omega arith)

pub bit_or_step : (a b : ℕ) → bit_or a b ≡ bit_or (a / 2) (b / 2) * 2 + max (a % 2) (b % 2)
bit_or_step (suc k) b = simp bit_or-bitwise (split_lowest (λ bits. bits) max k b)
bit_or_step zero b = simp bit_or-bitwise (omega arith)
