-- ===== src/Prelude/Decimal.antt =====
-- Decimal text, as `Display` writes a `u64` and `parse` reads one, and `split_once` at a byte.
use celium.Prelude.Tests.{eqb, leb, ltb, if◌then◌else◌, eqb_iff, Bool-cases}
use celium.Prelude.Key.{Bytes}
use celium.Prelude.Lists.{any}
use celium.Prelude.Words.{u64_max}
use Prim.Native.Nat.{ℕ, zero, suc, ◌+◌, ◌-◌, ◌*◌, ◌/◌, ◌%◌, ◌^◌, ◌≤◌, ◌<◌}
use mathlib.Core.Path.{◌≡◌, refl, ap}
use mathlib.Core.Logic.{◌≢◌, inl, inr}
use mathlib.Core.Bool.{true, false, ◌&&◌}
use mathlib.Core.Option.{Option, none, some}
use mathlib.Core.List.{[], ◌∷◌, ◌++◌}
use native.Mathlib.Omega.{arith}

-- The digits of a number of at most `fuel` digits, most significant first.
unfoldable pub digits : ℕ → ℕ → Bytes
digits zero n = []
digits (suc fuel) n =
    let rest = digits fuel (n / 10) in
    if ltb n 10 then (48 + n) ∷ [] else rest ++ ((48 + n % 10) ∷ [])

-- A `u64` has at most twenty digits.
abbrev pub decimal : ℕ → Bytes
decimal n = digits 20 n

unfoldable pub parse_from : ℕ → Bytes → Option ℕ
parse_from acc [] = some acc
parse_from acc (c ∷ cs) =
    let rest = parse_from (acc * 10 + (c - 48)) cs in
    if leb 48 c && leb c 57 && leb (acc * 10 + (c - 48)) u64_max then rest else none

-- `str::parse::<u64>`: a leading plus is allowed, the empty text is not.
unfoldable pub parse_u64 : Bytes → Option ℕ
parse_u64 [] = none
parse_u64 (c ∷ []) = parse_from 0 (c ∷ [])
parse_u64 (c ∷ d ∷ cs) = if eqb c 43 then parse_from 0 (d ∷ cs) else parse_from 0 (c ∷ d ∷ cs)

-- `parse` at a smaller type: the same text, with a smaller largest value.
abbrev pub at_most : ℕ → Option ℕ → Option ℕ
at_most largest none = none
at_most largest (some n) = if leb n largest then some n else none

parse_from-snoc :
    (acc m d n : ℕ) (xs : Bytes)
    → parse_from acc xs ≡ some m
    → d < 10
    → m * 10 + d ≡ n
    → n ≤ u64_max
    → parse_from acc (xs ++ ((48 + d) ∷ [])) ≡ some n
unfolding parse_from
parse_from-snoc acc m d n [] e small sum fits = ground arith
parse_from-snoc acc m d n (x ∷ xs) e small sum fits =
    let rest = parse_from-snoc (acc * 10 + (x - 48)) m d n xs in ground (arith, rest)

parse_from-digits :
    (fuel n : ℕ) → n < 10 ^ fuel → n ≤ u64_max → parse_from 0 (digits fuel n) ≡ some n
unfolding digits parse_from
parse_from-digits zero n small fits = ap some (omega arith)
parse_from-digits (suc fuel) n small fits = elim (Bool-cases (ltb n 10)) [
  | inl e ↦ ground (arith, e)
  | inr e ↦ rw e (
      parse_from-snoc 0 (n / 10) (n % 10) n (digits fuel (n / 10))
        (parse_from-digits fuel (n / 10) (omega arith) (omega arith)) (omega arith) (omega arith)
        fits)
]

-- A text that starts with a plus is no sequence of digits.
parse_from-plus : (acc : ℕ) (cs : Bytes) → parse_from acc (43 ∷ cs) ≡ none
unfolding parse_from
parse_from-plus acc cs = refl

parse_u64-from : (s : Bytes) (n : ℕ) → parse_from 0 s ≡ some n → s ≢ [] → parse_u64 s ≡ some n
unfolding parse_u64
parse_u64-from [] n e full = ground (arith, full)
parse_u64-from (c ∷ []) n e full = e
parse_u64-from (c ∷ d ∷ cs) n e full = ground (arith, e, parse_from-plus 0 (d ∷ cs))

snoc-full : (d : ℕ) (xs : Bytes) → xs ++ d ∷ [] ≢ []
snoc-full d [] = ground arith
snoc-full d (x ∷ xs) = ground arith

digits-full : (fuel n : ℕ) → digits (suc fuel) n ≢ []
unfolding digits
digits-full fuel n = elim (Bool-cases (ltb n 10)) [
  | inl e ↦ rw e (snoc-full (48 + n) [])
  | inr e ↦ rw e (snoc-full (48 + n % 10) (digits fuel (n / 10)))
]

-- What `Display` writes of a `u64`, `parse` reads back.
pub parse_u64-decimal : (n : ℕ) → n ≤ u64_max → parse_u64 (decimal n) ≡ some n
parse_u64-decimal n fits =
    parse_u64-from (decimal n) n (parse_from-digits 20 n (omega arith) fits) (digits-full 19 n)

-- Bytes below the digit zero or above the digit nine do not occur.
pub any-digits :
    (c fuel n : ℕ) → (leb 48 c && leb c 57) ≡ false → any (eqb c) (digits fuel n) ≡ false
unfolding digits
any-digits c zero n e = refl
any-digits c (suc fuel) n e = elim (Bool-cases (ltb n 10)) [
  | inl small ↦ ground (arith, small)
  | inr large ↦ rw large (
      any-snoc c (48 + n % 10) (digits fuel (n / 10)) (any-digits c fuel (n / 10) e) (ground arith))
]
  where
    any-snoc :
        (c d : ℕ) (xs : Bytes)
        → any (eqb c) xs ≡ false
        → eqb c d ≡ false
        → any (eqb c) (xs ++ d ∷ []) ≡ false
    any-snoc c d [] e f = ground (arith, f)
    any-snoc c d (x ∷ xs) e f = let rest = any-snoc c d xs in ground (arith, e, f, rest)

-- `s.split_once(c)`
unfoldable pub split_once : ℕ → Bytes → Option (Bytes × Bytes)
split_once c [] = none
split_once c (x ∷ xs) =
    let rest = split_once c xs in
    if eqb c x then some ([], xs) else elim rest [ none ↦ none | some p ↦ some (x ∷ p.0, p.1) ]

-- Split at its first occurrence.
pub split_once-append :
    (c : ℕ) (xs ys : Bytes) → any (eqb c) xs ≡ false → split_once c (xs ++ c ∷ ys) ≡ some (xs, ys)
unfolding split_once
split_once-append c [] ys e = ground (arith, eqb_iff c c)
split_once-append c (x ∷ xs) ys e = let rest = split_once-append c xs ys in ground (arith, e, rest)

-- What follows the last occurrence of a byte.
unfoldable pub after_last : ℕ → Bytes → Bytes
after_last c [] = []
after_last c (x ∷ xs) =
    let rest = after_last c xs in if any (eqb c) xs then rest else if eqb c x then xs else []

any-append : (c : ℕ) (xs ys : Bytes) → any (eqb c) (xs ++ c ∷ ys) ≡ true
any-append c [] ys = ground (arith, eqb_iff c c)
any-append c (x ∷ xs) ys = ground (arith, any-append c xs ys)

pub after_last-append :
    (c : ℕ) (xs ys : Bytes) → any (eqb c) ys ≡ false → after_last c (xs ++ c ∷ ys) ≡ ys
unfolding after_last
after_last-append c [] ys e = ground (arith, e, eqb_iff c c)
after_last-append c (x ∷ xs) ys e = rw (any-append c xs ys) (after_last-append c xs ys e)
