-- ===== src/Prelude/Words.antt =====
-- Unsigned machine integers: numbers below `2 ^ w`, with Rust's saturating and checked operations.
use Prim.Native.Nat.{ℕ, ◌+◌, ◌-◌, ◌^◌, min}
use mathlib.Core.Option.{Option, none, some}
use celium.Prelude.Tests.{leb, if◌then◌else◌}

abbrev pub u8_max : ℕ
u8_max = 2 ^ 8 - 1

abbrev pub u16_max : ℕ
u16_max = 2 ^ 16 - 1

abbrev pub u32_max : ℕ
u32_max = 2 ^ 32 - 1

abbrev pub u64_max : ℕ
u64_max = 2 ^ 64 - 1

-- `a.saturating_add(b)` at the type whose largest value is the first argument.
abbrev pub saturating_add : ℕ → ℕ → ℕ → ℕ
saturating_add largest a b = min (a + b) largest

-- `a.saturating_sub(b)`: subtraction on ℕ stops at 0 too.
abbrev pub saturating_sub : ℕ → ℕ → ℕ
saturating_sub a b = a - b

-- `a.checked_add(b)`
abbrev pub checked_add : ℕ → ℕ → ℕ → Option ℕ
checked_add largest a b = if leb (a + b) largest then some (a + b) else none
