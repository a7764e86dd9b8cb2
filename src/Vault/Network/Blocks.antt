-- ===== src/Vault/Network/Blocks.antt =====
-- The address blocks of crates/celvault/src/network.rs: `capacity`, `nth_host` and `contains` of
-- `Cidr4`. A prefix is at most 32, as in every block that `parse` gives.
use celium.Prelude.{
  ℕ, zero, suc, ◌+◌, ◌-◌, ◌*◌, ◌/◌, ◌%◌, ◌^◌, ◌≤◌, ◌<◌, ◌≡◌, refl, sym, Bool, true, Option, none,
  some, arith, bit_and, min, ltb, eqb, ◌||◌, if◌then◌else◌,
}
use celium.Prelude.Bits.Step.{bit_and_step}
use celium.Prelude.Words.{u32_max, saturating_sub}
use celium.Vault.Network.{Cidr4}
use native.Mathlib.Nat.{pow-suc}

-- `a << k` of a `u32`, for a `k` below 32.
abbrev pub shl : ℕ → ℕ → ℕ
shl a k = a * 2 ^ k % 2 ^ 32

-- `!0u32 << (32 - prefix_len)`
abbrev pub mask : ℕ → ℕ
mask prefix_len = shl u32_max (32 - prefix_len)

unfoldable pub capacity : Cidr4 → ℕ
capacity c = saturating_sub (shl 1 (32 - c.prefix_len)) 2

unfoldable pub nth_host : Cidr4 → ℕ → Option ℕ
nth_host c n = if eqb n 0 || ltb (capacity c) n then none else some (c.base + n)

unfoldable pub contains : Cidr4 → ℕ → Bool
contains c addr = eqb (bit_and addr (if eqb c.prefix_len 0 then 0 else mask c.prefix_len)) c.base

-- What `parse` gives: a prefix between 1 and 31, and a base masked to it.
pub record IsBlock (c : Cidr4) : Type 0 where
  pub long : 0 < c.prefix_len
  pub short : c.prefix_len < 32
  pub fits : c.base ≤ u32_max
  pub masked : bit_and c.base (mask c.prefix_len) ≡ c.base

pow-positive : (k : ℕ) → 0 < 2 ^ k
pow-positive zero = omega arith
pow-positive (suc k) = omega (arith, pow-suc 2 k, pow-positive k)

pub pow-le : (k w : ℕ) → k ≤ w → 2 ^ k ≤ 2 ^ w
pow-le zero w h = omega (arith, pow-positive w)
pow-le (suc k) zero h = absurd (omega (arith, h))
pow-le (suc k) (suc w) h = omega (arith, pow-suc 2 k, pow-suc 2 w, pow-le k w (omega (arith, h)))

-- The mask is the complement of the host bits.
mask-host : (k : ℕ) → k ≤ 32 → shl u32_max k ≡ 2 ^ 32 - 2 ^ k
mask-host k h = omega (arith, pow-le k 32 h, pow-positive k)

-- Below the mask an address moves freely.
offset_upto :
    (k w b n : ℕ)
    → k ≤ w
    → b < 2 ^ w
    → bit_and b (2 ^ w - 2 ^ k) ≡ b
    → n < 2 ^ k
    → (bit_and (b + n) (2 ^ w - 2 ^ k) ≡ b) × (b + n < 2 ^ w)
offset_upto zero w b n le fits e small =
    let same : b + n ≡ b = omega (arith, small) in (rw same e, omega (arith, same, fits))
offset_upto (suc k) zero b n le fits e small = absurd (omega (arith, le))
offset_upto (suc k) (suc w) b n le fits e small =
    let hosts = 2 ^ w - 2 ^ k in
    let twice : 2 ^ suc w - 2 ^ suc k ≡ 2 * hosts =
      omega (arith, pow-suc 2 k, pow-suc 2 w, pow-le k w (omega (arith, le))) in
    let half : (2 * hosts) / 2 ≡ hosts = omega arith in
    let low : (2 * hosts) % 2 ≡ 0 = omega arith in
    let step : bit_and b (2 * hosts) ≡ bit_and (b / 2) hosts * 2 + min (b % 2) 0 =
      rw (bit_and_step b (2 * hosts), half, low) refl in
    let masked : bit_and b (2 * hosts) ≡ b = rw twice at e in
    let even : b / 2 ≡ bit_and (b / 2) hosts = omega (arith, step, masked) in
    let rest =
      offset_upto k w (b / 2) (n / 2) (omega (arith, le)) (omega (arith, fits, pow-suc 2 w))
        (sym even) (omega (arith, small, pow-suc 2 k)) in
    let halves : (b + n) / 2 ≡ b / 2 + n / 2 = omega (arith, even, step, masked) in
    let here : bit_and (b + n) (2 * hosts)
        ≡ bit_and (b / 2 + n / 2) hosts * 2 + min ((b + n) % 2) 0 =
      rw (bit_and_step (b + n) (2 * hosts), half, low, halves) refl in
    (
      rw twice (omega (arith, here, rest.0, even, step, masked)),
      omega (arith, rest.1, pow-suc 2 w, halves),
    )

pub nth_host-some :
    (c : Cidr4) (n a : ℕ) → nth_host c n ≡ some a → (0 < n) × (n ≤ capacity c) × (a ≡ c.base + n)
unfolding nth_host
nth_host-some c n a e = ground (arith, e)

pub nth_host-inside :
    (c : Cidr4) (n : ℕ) → 0 < n → n ≤ capacity c → nth_host c n ≡ some (c.base + n)
unfolding nth_host
nth_host-inside c n positive low = ground (arith, positive, low)

capacity-below : (c : Cidr4) → IsBlock c → capacity c < 2 ^ (32 - c.prefix_len)
unfolding capacity
capacity-below c block = omega (
  arith,
  pow-positive (32 - c.prefix_len),
  pow-le (32 - c.prefix_len) 31 (omega (arith, block.long)),
)

-- Each host of a block is in it, and is a 32-bit number.
pub nth_host-contains :
    (c : Cidr4) (n a : ℕ)
    → IsBlock c
    → nth_host c n ≡ some a
    → (contains c a ≡ true) × (a ≤ u32_max)
unfolding contains
nth_host-contains c n a block e =
    let (positive, low, at) = nth_host-some c n a e in
    let k = 32 - c.prefix_len in
    let hosts : mask c.prefix_len ≡ 2 ^ 32 - 2 ^ k = mask-host k (omega arith) in
    let (inside, small) =
      offset_upto k 32 c.base n (omega arith) (omega (arith, block.fits))
        (rw (← hosts) block.masked) (omega (arith, low, capacity-below c block)) in
    let kept : bit_and a (mask c.prefix_len) ≡ c.base = rw (at, hosts) inside in
    (ground (arith, kept, block.long), omega (arith, at, small))
