-- ===== src/Hyper/Scanner/Laws.antt =====
-- What the readers of crates/celhyper/src/wire.rs read of a text, and how much of it they leave.
pub mod Remains
pub mod Starts
use celium.Prelude.{
  ℕ, zero, suc, ◌+◌, ◌-◌, ◌*◌, ◌/◌, ◌%◌, ◌^◌, ◌≤◌, ◌<◌, ◌≡◌, refl, sym, ap, ◌∙◌, Bool, true, false,
  ◌&&◌, ◌||◌, not, Option, none, some, List, [], ◌∷◌, ◌++◌, arith, inl, inr, Bool-cases, length,
  length-append, all, ltb, leb, eqb, if◌then◌else◌, String,
}
use celium.Prelude.Key.{Bytes}
use celium.Prelude.Words.{u32_max, u64_max}
use celium.Prelude.Decimal.{digits}
use celium.Hyper.Error.{HyperResult, ok, err, ◌>>=◌, HyperResult-cases}
use celium.Hyper.Writer.{digits_loop, number}
use celium.Hyper.Scanner.{
  expect, until_quote, string, is_digit, digit_run, accumulate, value, u32_value, u64_value,
}

-- A byte that a string may hold.
abbrev pub is_plain : ℕ → Bool
is_plain b = not (eqb b 34) && not (eqb b 92)

pub until_quote-append :
    (s rest : Bytes) → all is_plain s ≡ true → until_quote (s ++ 34 ∷ rest) ≡ ok (s, rest)
unfolding until_quote
until_quote-append [] rest e = refl
until_quote-append (b ∷ s) rest e = let ih = until_quote-append s rest in ground (arith, ih, e)

-- The text does not start with a digit.
abbrev pub ends_number : Bytes → Bool
ends_number [] = true
ends_number (b ∷ s) = not (is_digit b)

digit_run-append :
    (ds rest : Bytes)
    → all is_digit ds ≡ true
    → ends_number rest ≡ true
    → digit_run (ds ++ rest) ≡ (ds, rest)
unfolding digit_run
digit_run-append [] [] e f = refl
digit_run-append [] (b ∷ s) e f = ground (arith, f)
digit_run-append (d ∷ ds) rest e f = let ih = digit_run-append ds rest in ground (arith, ih, e, f)

all-snoc :
    (d : ℕ) (xs : Bytes)
    → all is_digit xs ≡ true
    → is_digit d ≡ true
    → all is_digit (xs ++ d ∷ []) ≡ true
all-snoc d [] e f = ground (arith, f)
all-snoc d (x ∷ xs) e f = let ih = all-snoc d xs in ground (arith, e, f, ih)

all-digits : (fuel n : ℕ) → all is_digit (digits fuel n) ≡ true
unfolding digits
all-digits zero n = refl
all-digits (suc fuel) n = elim (Bool-cases (ltb n 10)) [
  | inl small ↦ ground (arith, small)
  | inr large ↦
      rw large
        (all-snoc (48 + n % 10) (digits fuel (n / 10)) (all-digits fuel (n / 10)) (ground arith))
]

-- A digit more at the end.
accumulate-snoc :
    (largest : ℕ) (o : String) (acc m d n : ℕ) (xs : Bytes)
    → accumulate largest o acc xs ≡ ok m
    → d < 10
    → m * 10 + d ≡ n
    → n ≤ largest
    → accumulate largest o acc (xs ++ ((48 + d) ∷ [])) ≡ ok n
unfolding accumulate
accumulate-snoc largest o acc m d n [] e small sum fits = ground arith
accumulate-snoc largest o acc m d n (x ∷ xs) e small sum fits =
    let rest = accumulate-snoc largest o (acc * 10 + (x - 48)) m d n xs in ground (arith, rest)

accumulate-digits :
    (largest : ℕ) (o : String) (fuel n : ℕ)
    → n < 10 ^ fuel
    → n ≤ largest
    → accumulate largest o 0 (digits fuel n) ≡ ok n
unfolding digits accumulate
accumulate-digits largest o zero n small fits = ap ok (omega arith)
accumulate-digits largest o (suc fuel) n small fits = elim (Bool-cases (ltb n 10)) [
  | inl e ↦ ground (arith, e)
  | inr e ↦ rw e (
      accumulate-snoc largest o 0 (n / 10) (n % 10) n (digits fuel (n / 10))
        (accumulate-digits largest o fuel (n / 10) (omega arith) (omega arith)) (omega arith)
        (omega arith) fits)
]

digits_loop-zero : (fuel : ℕ) (acc : Bytes) → digits_loop fuel 0 acc ≡ acc
unfolding digits_loop
digits_loop-zero zero acc = refl
digits_loop-zero (suc fuel) acc = refl

append-snoc : (xs ys : Bytes) (d : ℕ) → xs ++ d ∷ ys ≡ (xs ++ d ∷ []) ++ ys
append-snoc [] ys d = refl
append-snoc (x ∷ xs) ys d = ap (◌∷◌ x) (append-snoc xs ys d)

-- Its fuel is enough for the loop of the writer.
digits_loop-digits :
    (fuel n : ℕ) (acc : Bytes)
    → 0 < n
    → n < 10 ^ fuel
    → digits_loop fuel n acc ≡ digits fuel n ++ acc
unfolding digits_loop digits
digits_loop-digits zero n acc some_digit small = absurd (omega (arith, some_digit, small))
digits_loop-digits (suc fuel) n acc some_digit small = elim (Bool-cases (ltb n 10)) [
  | inl e ↦
      rw (e, not_zero n some_digit, low n e, digits_loop-zero fuel ((48 + n % 10) ∷ acc))
        (ap (λ d. (48 + d) ∷ acc) (omega_mod n e))
  | inr e ↦
      rw
        (
          e,
          not_zero n some_digit,
          digits_loop-digits fuel (n / 10) ((48 + n % 10) ∷ acc) (ground (arith, e))
              (omega (arith, small)),
        )
        (append-snoc (digits fuel (n / 10)) acc (48 + n % 10))
]
  where
    not_zero : (m : ℕ) → 0 < m → eqb m 0 ≡ false
    not_zero m h = ground (arith, h)

    low : (m : ℕ) → ltb m 10 ≡ true → m / 10 ≡ 0
    low m h = ground (arith, h)

    omega_mod : (m : ℕ) → ltb m 10 ≡ true → m % 10 ≡ m
    omega_mod m h = ground (arith, h)

number-digits : (size n : ℕ) → n < 10 ^ (suc size) → number (suc size) n ≡ digits (suc size) n
unfolding digits
number-digits size zero small = refl
number-digits size (suc n) small = rw (positive n) (
    digits_loop-digits (suc size) (suc n) [] (omega arith) small
    ∙ append_nil (digits (suc size) (suc n)))
  where
    positive : (m : ℕ) → eqb (suc m) 0 ≡ false
    positive m = ground arith

    append_nil : (xs : Bytes) → xs ++ [] ≡ xs
    append_nil [] = refl
    append_nil (x ∷ xs) = ap (◌∷◌ x) (append_nil xs)

digits_not_empty : (size n : ℕ) → eqb (length (digits (suc size) n)) 0 ≡ false
unfolding digits
digits_not_empty size n = elim (Bool-cases (ltb n 10)) [
  | inl e ↦ ground (arith, e)
  | inr e ↦ rw (e, length-append (digits size (n / 10)) ((48 + n % 10) ∷ [])) (ground arith)
]

-- The number that the writer writes.
value-number :
    (largest : ℕ) (o : String) (size n : ℕ) (rest : Bytes)
    → n < 10 ^ (suc size)
    → n ≤ largest
    → ends_number rest ≡ true
    → value largest o (number (suc size) n ++ rest) ≡ ok (n, rest)
value-number largest o size n rest small fits ends =
    rw
      (
        number-digits size n small,
        digit_run-append (digits (suc size) n) rest (all-digits (suc size) n) ends,
        digits_not_empty size n,
        accumulate-digits largest o (suc size) n small fits,
      )
      refl

pub u32_value-number :
    (n : ℕ) (rest : Bytes)
    → n ≤ u32_max
    → ends_number rest ≡ true
    → u32_value (number 10 n ++ rest) ≡ ok (n, rest)
unfolding u32_value
u32_value-number n rest fits ends =
    value-number u32_max "wire: u32 overflow" 9 n rest (omega (arith, fits)) fits ends

pub u64_value-number :
    (n : ℕ) (rest : Bytes)
    → n ≤ u64_max
    → ends_number rest ≡ true
    → u64_value (number 20 n ++ rest) ≡ ok (n, rest)
unfolding u64_value
u64_value-number n rest fits ends =
    value-number u64_max "wire: u64 overflow" 19 n rest (omega (arith, fits)) fits ends
