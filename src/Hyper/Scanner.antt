-- ===== src/Hyper/Scanner.antt =====
-- The scanner of crates/celhyper/src/wire.rs: it is the suffix of its buffer that it has not read.
pub mod Laws
use celium.Prelude.{
  ℕ, ◌+◌, ◌-◌, ◌*◌, ◌≡◌, refl, Bool, true, false, ◌&&◌, ◌||◌, Option, none, some, List, [], ◌∷◌,
  ltb, leb, eqb, length, take, drop, if◌then◌else◌, String,
}
use celium.Prelude.Key.{Bytes, bytes_eq}
use celium.Prelude.Text.{text}
use celium.Prelude.Words.{u32_max, u64_max}
use celium.Hyper.Error.{HyperResult, ok, err, invalid, ◌>>=◌, ◌>>◌, refuse_if}

-- What a reader answers: a value and the bytes that remain.
abbrev pub Read : Type 0 → Type 0
Read A = Bytes → HyperResult (A × Bytes)

unfoldable pub expect : ℕ → Bytes → HyperResult Bytes
expect want [] = err (invalid "wire: unexpected byte")
expect want (b ∷ s) = if eqb b want then ok s else err (invalid "wire: unexpected byte")

abbrev pub is_ws : ℕ → Bool
is_ws b = eqb b 32 || eqb b 9 || eqb b 13 || eqb b 10

unfoldable pub skip_ws : Bytes → Bytes
skip_ws [] = []
skip_ws (b ∷ s) = let rest = skip_ws s in if is_ws b then rest else b ∷ s

-- The loop of `string`.
unfoldable pub until_quote : Read Bytes
until_quote [] = err (invalid "wire: unterminated string")
until_quote (b ∷ s) =
    let rest = until_quote s in
    if eqb b 34
    then ok ([], s)
    else if eqb b 92
    then err (invalid "wire: escapes not allowed")
    else (rest >>= λ p. ok (b ∷ p.0, p.1))

abbrev pub string : Read Bytes
string s = expect 34 s >>= until_quote

abbrev pub is_digit : ℕ → Bool
is_digit b = leb 48 b && leb b 57

-- The first loop of `u32_value` and of `u64_value`: the digits, and what follows them.
unfoldable pub digit_run : Bytes → Bytes × Bytes
digit_run [] = ([], [])
digit_run (b ∷ s) =
    let rest = digit_run s in if is_digit b then (b ∷ rest.0, rest.1) else ([], b ∷ s)

-- The second loop, with `checked_mul` and `checked_add`.
unfoldable pub accumulate : ℕ → String → ℕ → Bytes → HyperResult ℕ
accumulate largest overflow acc [] = ok acc
accumulate largest overflow acc (b ∷ bs) =
    let rest = accumulate largest overflow (acc * 10 + (b - 48)) bs in
    if ltb largest (acc * 10)
    then err (invalid overflow)
    else if ltb largest (acc * 10 + (b - 48))
    then err (invalid overflow)
    else rest

abbrev pub value : ℕ → String → Read ℕ
value largest overflow s =
    refuse_if (eqb (length (digit_run s).0) 0) (invalid "wire: expected number")
    >> (accumulate largest overflow 0 (digit_run s).0 >>= λ n. ok (n, (digit_run s).1))

unfoldable pub u32_value : Read ℕ
u32_value = value u32_max "wire: u32 overflow"

unfoldable pub u64_value : Read ℕ
u64_value = value u64_max "wire: u64 overflow"

-- What follows the literal, where it is there.
unfoldable pub try_consume_null : Bytes → Option Bytes
try_consume_null s = if bytes_eq (take 4 s) (text "null") then some (drop 4 s) else none

-- `if s.try_consume_null() { None } else { Some(read(s)?) }`
abbrev pub null_or :
    {A : Type 0} → Option Bytes → HyperResult (A × Bytes) → HyperResult (Option A × Bytes)
null_or (some rest) r = ok (none, rest)
null_or none r = r >>= λ p. ok (some p.0, p.1)

abbrev pub nullable : {A : Type 0} → Read A → Read (Option A)
nullable read s = null_or (try_consume_null s) (read s)

-- The loop over a nested value, whose strings are its quoted parts. The depth is a `u32`, which a
-- frame of the bridge cannot exceed.
unfoldable pub skip_nested : Bool → ℕ → ℕ → ℕ → Bytes → HyperResult Bytes
skip_nested true opening closing depth [] = err (invalid "wire: unterminated string")
skip_nested true opening closing depth (b ∷ s) =
    let after = skip_nested false opening closing depth s in
    let inside = skip_nested true opening closing depth s in
    if eqb b 34
    then after
    else if eqb b 92
    then err (invalid "wire: escapes not allowed")
    else inside
skip_nested false opening closing depth [] = err (invalid "wire: eof")
skip_nested false opening closing depth (b ∷ s) =
    let same = skip_nested false opening closing depth s in
    let inside = skip_nested true opening closing depth s in
    let deeper = skip_nested false opening closing (depth + 1) s in
    let outer = skip_nested false opening closing (depth - 1) s in
    if is_ws b
    then same
    else if eqb b 34
    then inside
    else if eqb b opening
    then deeper
    else if eqb b closing
    then (if eqb depth 1 then ok s else outer)
    else same

abbrev pub is_delimiter : ℕ → Bool
is_delimiter b = eqb b 44 || eqb b 125 || eqb b 93 || is_ws b

unfoldable pub skip_literal : Bytes → Bytes
skip_literal [] = []
skip_literal (b ∷ s) = let rest = skip_literal s in if is_delimiter b then b ∷ s else rest

abbrev pub skip_at : Bytes → HyperResult Bytes
skip_at [] = err (invalid "wire: eof in value")
skip_at (b ∷ s) =
    if eqb b 34
    then (string (b ∷ s) >>= λ p. ok p.1)
    else if eqb b 123
    then skip_nested false 123 125 1 s
    else if eqb b 91
    then skip_nested false 91 93 1 s
    else ok (skip_literal (b ∷ s))

unfoldable pub skip_value : Bytes → HyperResult Bytes
skip_value s = skip_at (skip_ws s)
