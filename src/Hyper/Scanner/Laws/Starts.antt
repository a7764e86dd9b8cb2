-- ===== src/Hyper/Scanner/Laws/Starts.antt =====
-- A number starts with a digit, so that the scanner of crates/celhyper/src/wire.rs skips nothing before
-- it and does not take it for `null`.
use celium.Prelude.{
  ℕ, suc, ◌^◌, ◌<◌, ◌≡◌, refl, true, false, none, [], ◌∷◌, ◌++◌, arith, length, all, eqb,
}
use celium.Prelude.Key.{Bytes, bytes_eq}
use celium.Prelude.Decimal.{digits}
use celium.Hyper.Writer.{number}
use celium.Hyper.Scanner.{is_digit, skip_ws, try_consume_null}
use celium.Hyper.Scanner.Laws.{number-digits, all-digits, digits_not_empty}

skip_ws-digits :
    (ds rest : Bytes)
    → all is_digit ds ≡ true
    → eqb (length ds) 0 ≡ false
    → skip_ws (ds ++ rest) ≡ ds ++ rest
unfolding skip_ws
skip_ws-digits [] rest e full = absurd (ground (arith, full))
skip_ws-digits (d ∷ ds) rest e full = ground (arith, e)

null-digits :
    (ds rest : Bytes)
    → all is_digit ds ≡ true
    → eqb (length ds) 0 ≡ false
    → try_consume_null (ds ++ rest) ≡ none
unfolding try_consume_null bytes_eq
null-digits [] rest e full = absurd (ground (arith, full))
null-digits (d ∷ ds) rest e full = rw (not_n d (ground (arith, e))) refl
  where
    not_n : (m : ℕ) → is_digit m ≡ true → eqb m 110 ≡ false
    not_n m h = ground (arith, h)

pub skip_ws-number :
    (size n : ℕ) (rest : Bytes)
    → n < 10 ^ (suc size)
    → skip_ws (number (suc size) n ++ rest) ≡ number (suc size) n ++ rest
skip_ws-number size n rest small =
    rw (number-digits size n small) (
      skip_ws-digits (digits (suc size) n) rest (all-digits (suc size) n) (digits_not_empty size n))

pub null-number :
    (size n : ℕ) (rest : Bytes)
    → n < 10 ^ (suc size)
    → try_consume_null (number (suc size) n ++ rest) ≡ none
null-number size n rest small =
    rw (number-digits size n small)
      (null-digits (digits (suc size) n) rest (all-digits (suc size) n) (digits_not_empty size n))
