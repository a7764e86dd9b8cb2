-- ===== src/Prelude/Bits.antt =====
-- Laws of `&` and `|` at variables, by induction on the binary digits.
pub mod Step
use Prim.Native.Nat.{
  ℕ, zero, suc, ◌+◌, ◌*◌, ◌/◌, ◌%◌, ◌≤◌, ◌<◌, ◌^◌, ◌-◌, min, max, bit_and, bit_or, bit_and-bitwise,
  bit_or-bitwise,
}
use mathlib.Core.Path.{◌≡◌, refl, sym, ap}
use native.Mathlib.Omega.{arith}
use native.Mathlib.Nat.{pow-suc}
use Step.{bit_and_step, bit_or_step}

-- Digit by digit: the bound `n` on the numbers is the fuel.
idem_upto : (n a : ℕ) → a ≤ n → bit_and a a ≡ a
idem_upto n zero h = refl
idem_upto zero (suc a) h = absurd (omega arith)
idem_upto (suc n) (suc a) h =
    omega (arith, bit_and_step (suc a) (suc a), idem_upto n (suc a / 2) (omega arith))

pub bit_and_idem : (a : ℕ) → bit_and a a ≡ a
bit_and_idem a = idem_upto a a (omega arith)

pub zero-bit_and : (b : ℕ) → bit_and 0 b ≡ 0
zero-bit_and b = bit_and-bitwise 0 b

zero_upto : (n a : ℕ) → a ≤ n → bit_and a 0 ≡ 0
zero_upto n zero h = refl
zero_upto zero (suc a) h = absurd (omega arith)
zero_upto (suc n) (suc a) h =
    omega (arith, bit_and_step (suc a) 0, zero_upto n (suc a / 2) (omega arith))

pub bit_and-zero : (a : ℕ) → bit_and a 0 ≡ 0
bit_and-zero a = zero_upto a a (omega arith)

comm_upto : (n a b : ℕ) → a ≤ n → bit_and a b ≡ bit_and b a
comm_upto n zero b h = omega (arith, bit_and-zero b, zero-bit_and b)
comm_upto zero (suc a) b h = absurd (omega arith)
comm_upto (suc n) (suc a) b h = omega (
  arith,
  bit_and_step (suc a) b,
  bit_and_step b (suc a),
  comm_upto n (suc a / 2) (b / 2) (omega arith),
)

pub bit_and_comm : (a b : ℕ) → bit_and a b ≡ bit_and b a
bit_and_comm a b = comm_upto a a b (omega arith)

-- The halves and the lowest digit of `a & b`.
bit_and-half : (a b : ℕ) → bit_and a b / 2 ≡ bit_and (a / 2) (b / 2)
bit_and-half a b = omega (arith, bit_and_step a b)

bit_and-digit : (a b : ℕ) → bit_and a b % 2 ≡ min (a % 2) (b % 2)
bit_and-digit a b = omega (arith, bit_and_step a b)

bit_or-half : (a b : ℕ) → bit_or a b / 2 ≡ bit_or (a / 2) (b / 2)
bit_or-half a b = omega (arith, bit_or_step a b)

bit_or-digit : (a b : ℕ) → bit_or a b % 2 ≡ max (a % 2) (b % 2)
bit_or-digit a b = omega (arith, bit_or_step a b)

assoc_upto : (n a b c : ℕ) → a ≤ n → bit_and (bit_and a b) c ≡ bit_and a (bit_and b c)
assoc_upto n zero b c h = rw (zero-bit_and b, zero-bit_and c) (sym (zero-bit_and (bit_and b c)))
assoc_upto zero (suc a) b c h = absurd (omega arith)
assoc_upto (suc n) (suc a) b c h =
    rw (bit_and_step (bit_and (suc a) b) c, bit_and-half (suc a) b, bit_and-digit (suc a) b)
      (rw (bit_and_step (suc a) (bit_and b c), bit_and-half b c, bit_and-digit b c)
        (omega (arith, assoc_upto n (suc a / 2) (b / 2) (c / 2) (omega arith))))

pub bit_and_assoc : (a b c : ℕ) → bit_and (bit_and a b) c ≡ bit_and a (bit_and b c)
bit_and_assoc a b c = assoc_upto a a b c (omega arith)

-- `b & (a | b) = b`.
absorb_upto : (n a b : ℕ) → b ≤ n → bit_and b (bit_or a b) ≡ b
absorb_upto n a zero h = zero-bit_and (bit_or a 0)
absorb_upto zero a (suc b) h = absurd (omega arith)
absorb_upto (suc n) a (suc b) h =
    rw (bit_and_step (suc b) (bit_or a (suc b)), bit_or-half a (suc b), bit_or-digit a (suc b))
      (omega (arith, absorb_upto n (a / 2) (suc b / 2) (omega arith)))

pub bit_and-bit_or : (a b : ℕ) → bit_and b (bit_or a b) ≡ b
bit_and-bit_or a b = absorb_upto b a b (omega arith)

le_upto : (n a b : ℕ) → a ≤ n → bit_and a b ≤ a
le_upto n zero b h = omega (arith, zero-bit_and b)
le_upto zero (suc a) b h = absurd (omega arith)
le_upto (suc n) (suc a) b h =
    omega (arith, bit_and_step (suc a) b, le_upto n (suc a / 2) (b / 2) (omega arith))

pub bit_and-le : (a b : ℕ) → bit_and a b ≤ a
bit_and-le a b = le_upto a a b (omega arith)

or_zero_upto : (n a : ℕ) → a ≤ n → bit_or a 0 ≡ a
or_zero_upto n zero h = refl
or_zero_upto zero (suc a) h = absurd (omega arith)
or_zero_upto (suc n) (suc a) h =
    omega (arith, bit_or_step (suc a) 0, or_zero_upto n (suc a / 2) (omega arith))

pub zero-bit_or : (b : ℕ) → bit_or 0 b ≡ b
zero-bit_or b = bit_or-bitwise 0 b

or_comm_upto : (n a b : ℕ) → a ≤ n → bit_or a b ≡ bit_or b a
or_comm_upto n zero b h = omega (arith, zero-bit_or b, or_zero_upto b b (omega arith))
or_comm_upto zero (suc a) b h = absurd (omega arith)
or_comm_upto (suc n) (suc a) b h = omega (
  arith,
  bit_or_step (suc a) b,
  bit_or_step b (suc a),
  or_comm_upto n (suc a / 2) (b / 2) (omega arith),
)

pub bit_or_comm : (a b : ℕ) → bit_or a b ≡ bit_or b a
bit_or_comm a b = or_comm_upto a a b (omega arith)

-- `c & (a | b) = (c & a) | (c & b)`.
distrib_upto : (n a b c : ℕ) → c ≤ n → bit_and c (bit_or a b) ≡ bit_or (bit_and c a) (bit_and c b)
distrib_upto n a b zero h = rw (zero-bit_and (bit_or a b), zero-bit_and a, zero-bit_and b) refl
distrib_upto zero a b (suc c) h = absurd (omega arith)
distrib_upto (suc n) a b (suc c) h =
    rw (bit_and_step (suc c) (bit_or a b), bit_or-half a b, bit_or-digit a b)
      (rw (bit_or_step (bit_and (suc c) a) (bit_and (suc c) b)) (
        rw (bit_and-half (suc c) a, bit_and-half (suc c) b)
          (rw (bit_and-digit (suc c) a, bit_and-digit (suc c) b)
            (omega (arith, distrib_upto n (a / 2) (b / 2) (suc c / 2) (omega arith))))))

pub bit_and-bit_or_distrib :
    (a b c : ℕ) → bit_and c (bit_or a b) ≡ bit_or (bit_and c a) (bit_and c b)
bit_and-bit_or_distrib a b c = distrib_upto c a b c (omega arith)

halve : (w b : ℕ) → b < 2 ^ suc w → (2 ^ suc w - 1 - b) / 2 ≡ 2 ^ w - 1 - b / 2
halve w b h = omega (arith, pow-suc 2 w)

-- A number and the complement of it in `2 ^ w - 1` have no bit in common.
pub bit_and-disjoint : (w b : ℕ) → b < 2 ^ w → bit_and b (2 ^ w - 1 - b) ≡ 0
bit_and-disjoint zero b h = ground (arith, zero-bit_and (2 ^ 0 - 1 - b))
bit_and-disjoint (suc w) b h = omega (
  arith,
  pow-suc 2 w,
  bit_and_step b (2 ^ suc w - 1 - b),
  bit_and-disjoint w (b / 2) (omega (arith, pow-suc 2 w)),
  ap (bit_and (b / 2)) (halve w b h),
)

-- The complement keeps every number that has no bit in common with `b`.
pub complement-bit_and :
    (w b c : ℕ) → b < 2 ^ w → c < 2 ^ w → bit_and b c ≡ 0 → bit_and (2 ^ w - 1 - b) c ≡ c
complement-bit_and zero b c h k e = ground (arith, zero-bit_and c)
complement-bit_and (suc w) b c h k e = omega (
  arith,
  pow-suc 2 w,
  bit_and_step b c,
  bit_and_step (2 ^ suc w - 1 - b) c,
  complement-bit_and w (b / 2) (c / 2) (omega (arith, pow-suc 2 w)) (omega (arith, pow-suc 2 w))
      (omega (arith, bit_and_step b c)),
  ap (λ (x : ℕ). bit_and x (c / 2)) (halve w b h),
)
