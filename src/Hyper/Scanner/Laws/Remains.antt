-- ===== src/Hyper/Scanner/Laws/Remains.antt =====
-- No reader of crates/celhyper/src/wire.rs leaves more bytes than it was given.
use celium.Prelude.{
  ℕ, zero, suc, ◌+◌, ◌-◌, ◌≤◌, ◌<◌, ◌≡◌, sym, ap, Bool, true, false, some, [], ◌∷◌, arith, inl, inr,
  Bool-cases, Option-cases, length, take, drop, eqb, String,
}
use celium.Prelude.Key.{Bytes, bytes_eq}
use celium.Prelude.Text.{text}
use celium.Prelude.Words.{u32_max, u64_max}
use celium.Hyper.Error.{ok, HyperResult-cases, ok_inj}
use celium.Hyper.Scanner.{
  Read, expect, skip_ws, until_quote, string, is_digit, digit_run, accumulate, value, u32_value,
  u64_value, try_consume_null, nullable, skip_nested, skip_literal, skip_at, skip_value,
}

-- What remains is no longer than what was given.
abbrev pub Shrinks : {A : Type 0} → Read A → Type 0
Shrinks {A} read =
    (s : Bytes) (a : A) (rest : Bytes) → read s ≡ ok (a, rest) → length rest ≤ length s

pub length-skip_ws : (s : Bytes) → length (skip_ws s) ≤ length s
unfolding skip_ws
length-skip_ws [] = omega arith
length-skip_ws (b ∷ s) = let ih = length-skip_ws s in ground (arith, ih)

pub length-expect : (want : ℕ) (s rest : Bytes) → expect want s ≡ ok rest → length rest < length s
unfolding expect
length-expect want [] rest e = absurd (cc e)
length-expect want (b ∷ s) rest e = elim (Bool-cases (eqb b want)) [
  | inl same ↦ rw (sym (ok_inj (rw same at e))) (omega arith)
  | inr other ↦ absurd (cc (rw other at e))
]

Shrinks-until_quote : Shrinks until_quote
unfolding until_quote
Shrinks-until_quote [] a rest e = absurd (cc e)
Shrinks-until_quote (b ∷ s) a rest e = elim (Bool-cases (eqb b 34)) [
  | inl quote ↦ rw (sym (ap (λ p. p.1) (ok_inj (rw quote at e)))) (omega arith)
  | inr other ↦ elim (Bool-cases (eqb b 92)) [
    | inl slash ↦ absurd (cc (rw (other, slash) at e))
    | inr plain ↦ elim (HyperResult-cases (until_quote s)) [
      | inl (p, h) ↦
          let ih = Shrinks-until_quote s p.0 p.1 h in
          rw (sym (ap (λ q. q.1) (ok_inj (rw (other, plain, h) at e)))) (omega (arith, ih))
      | inr (x, h) ↦ absurd (cc (rw (other, plain, h) at e))
    ]
  ]
]

-- A string has at least its first quote.
pub length-string : (s a rest : Bytes) → string s ≡ ok (a, rest) → length rest < length s
length-string s a rest e = elim (HyperResult-cases (expect 34 s)) [
  | inl (t, h) ↦
      let opened = length-expect 34 s t h in
      let inside = Shrinks-until_quote t a rest (rw h at e) in omega (arith, opened, inside)
  | inr (x, h) ↦ absurd (cc (rw h at e))
]

length-digit_run : (s : Bytes) → length (digit_run s).1 ≤ length s
unfolding digit_run
length-digit_run [] = omega arith
length-digit_run (b ∷ s) = elim (Bool-cases (is_digit b)) [
  | inl digit ↦ rw digit (omega (arith, length-digit_run s))
  | inr other ↦ rw other (omega arith)
]

Shrinks-value : (largest : ℕ) (o : String) → Shrinks (value largest o)
Shrinks-value largest o s a rest e = elim (Bool-cases (eqb (length (digit_run s).0) 0)) [
  | inl empty ↦ absurd (cc (rw empty at e))
  | inr full ↦ elim (HyperResult-cases (accumulate largest o 0 (digit_run s).0)) [
    | inl (n, h) ↦ rw (sym (ap (λ q. q.1) (ok_inj (rw (full, h) at e)))) (length-digit_run s)
    | inr (x, h) ↦ absurd (cc (rw (full, h) at e))
  ]
]

pub Shrinks-u32_value : Shrinks u32_value
unfolding u32_value
Shrinks-u32_value = Shrinks-value u32_max "wire: u32 overflow"

pub Shrinks-u64_value : Shrinks u64_value
unfolding u64_value
Shrinks-u64_value = Shrinks-value u64_max "wire: u64 overflow"

length-drop : (n : ℕ) (s : Bytes) → length (drop n s) ≤ length s
length-drop zero s = omega arith
length-drop (suc n) [] = omega arith
length-drop (suc n) (b ∷ s) = omega (arith, length-drop n s)

length-try_consume_null : (s rest : Bytes) → try_consume_null s ≡ some rest → length rest ≤ length s
unfolding try_consume_null
length-try_consume_null s rest e = elim (Bool-cases (bytes_eq (take 4 s) (text "null"))) [
  | inl there ↦ rw (sym (some_inj (rw there at e))) (length-drop 4 s)
  | inr other ↦ absurd (cc (rw other at e))
]
  where
    some_inj : {a b : Bytes} → some a ≡ some b → a ≡ b
    some_inj e = cc

pub Shrinks-nullable : {A : Type 0} (read : Read A) → Shrinks read → Shrinks (nullable read)
Shrinks-nullable read h s a rest e = elim (Option-cases (try_consume_null s)) [
  | inl missing ↦ elim (HyperResult-cases (read s)) [
    | inl (p, f) ↦ rw (sym (ap (λ q. q.1) (ok_inj (rw (missing, f) at e)))) (h s p.0 p.1 f)
    | inr (x, f) ↦ absurd (cc (rw (missing, f) at e))
  ]
  | inr (t, there) ↦
      rw (sym (ap (λ q. q.1) (ok_inj (rw there at e)))) (length-try_consume_null s t there)
]

length-skip_literal : (s : Bytes) → length (skip_literal s) ≤ length s
unfolding skip_literal
length-skip_literal [] = omega arith
length-skip_literal (b ∷ s) = let ih = length-skip_literal s in ground (arith, ih)

length-skip_nested :
    (quoted : Bool) (opening closing depth : ℕ) (s rest : Bytes)
    → skip_nested quoted opening closing depth s ≡ ok rest
    → length rest ≤ length s
unfolding skip_nested
length-skip_nested true opening closing depth [] rest e = absurd (cc e)
length-skip_nested true opening closing depth (b ∷ s) rest e =
    let after = length-skip_nested false opening closing depth s rest in
    let inside = length-skip_nested true opening closing depth s rest in
    ground (arith, after, inside, e)
length-skip_nested false opening closing depth [] rest e = absurd (cc e)
length-skip_nested false opening closing depth (b ∷ s) rest e =
    let same = length-skip_nested false opening closing depth s rest in
    let inside = length-skip_nested true opening closing depth s rest in
    let deeper = length-skip_nested false opening closing (depth + 1) s rest in
    let outer = length-skip_nested false opening closing (depth - 1) s rest in
    ground (arith, same, inside, deeper, outer, e)

length-skip_at : (s rest : Bytes) → skip_at s ≡ ok rest → length rest ≤ length s
length-skip_at [] rest e = absurd (cc e)
length-skip_at (b ∷ s) rest e = elim (Bool-cases (eqb b 34)) [
  | inl quote ↦ elim (HyperResult-cases (string (b ∷ s))) [
    | inl (p, f) ↦
        let shorter = length-string (b ∷ s) p.0 p.1 f in
        rw (sym (ok_inj (rw (quote, f) at e))) (omega (arith, shorter))
    | inr (x, f) ↦ absurd (cc (rw (quote, f) at e))
  ]
  | inr other ↦ elim (Bool-cases (eqb b 123)) [
    | inl brace ↦
        let inside = length-skip_nested false 123 125 1 s rest (rw (other, brace) at e) in
        omega (arith, inside)
    | inr no_brace ↦ elim (Bool-cases (eqb b 91)) [
      | inl bracket ↦
          let inside =
            length-skip_nested false 91 93 1 s rest (rw (other, no_brace, bracket) at e) in
          omega (arith, inside)
      | inr literal ↦
          rw (sym (ok_inj (rw (other, no_brace, literal) at e))) (length-skip_literal (b ∷ s))
    ]
  ]
]

pub length-skip_value : (s rest : Bytes) → skip_value s ≡ ok rest → length rest ≤ length s
unfolding skip_value
length-skip_value s rest e =
    let inside = length-skip_at (skip_ws s) rest e in
    let blank = length-skip_ws s in omega (arith, inside, blank)

pub Shrinks-string : Shrinks string
Shrinks-string s a rest e = let shorter = length-string s a rest e in omega (arith, shorter)
