-- ===== src/Vault/Network/Addresses.antt =====
-- `Cidr4::parse` of crates/celvault/src/network.rs and its `Display`, with the text of an
-- `Ipv4Addr`: four decimal octets without leading zeros.
use celium.Prelude.{
  ℕ, zero, suc, ◌+◌, ◌*◌, ◌/◌, ◌%◌, ◌^◌, ◌<◌, ◌≤◌, ◌≡◌, refl, ap, ◌∙◌, Bool, true, false, Option,
  none, some, [], ◌∷◌, ◌++◌, arith, inl, inr, Bool-cases, Option-cases, subst, bit_and, ltb, leb,
  eqb, length, any, ◌||◌, ◌&&◌, if◌then◌else◌,
}
use celium.Prelude.Key.{Bytes}
use celium.Prelude.Bits.{bit_and_assoc, bit_and_comm, bit_and_idem, bit_and-le}
use celium.Prelude.Words.{u8_max, u32_max}
use celium.Prelude.Decimal.{
  at_most, digits, parse_from, parse_u64, split_once, split_once-append, any-digits,
}
use celium.Prelude.Error.{CelResult, ok, invalid, ok_or, refuse_if, ◌>>=◌, ◌>>◌}
use celium.Vault.Network.{Cidr4}
use celium.Vault.Network.Blocks.{mask, IsBlock}

abbrev padded : Bytes → Bool
padded [] = false
padded (d ∷ []) = false
padded (d ∷ e ∷ ds) = eqb d 48

-- One octet: one to three digits, of which the first is a zero only if it is the only one.
unfoldable pub parse_octet : Bytes → Option ℕ
parse_octet s =
    if eqb (length s) 0 || (ltb 3 (length s) || padded s)
    then none
    else at_most u8_max (parse_from 0 s)

-- The octets that are left, each but the last before a dot, behind the number read.
unfoldable pub read_octets : ℕ → ℕ → Bytes → Option ℕ
read_octets zero acc s = elim (parse_octet s) [ none ↦ none | some o ↦ some (acc * 256 + o) ]
read_octets (suc k) acc s = elim (split_once 46 s) [
  | none ↦ none
  | some (x, rest) ↦ elim (parse_octet x) [
    | none ↦ none
    | some o ↦ read_octets k (acc * 256 + o) rest
  ]
]

abbrev pub parse_ipv4 : Bytes → Option ℕ
parse_ipv4 s = read_octets 3 0 s

-- An octet has at most three digits.
abbrev pub octet : ℕ → Bytes
octet n = digits 3 n

abbrev pub display_ipv4 : ℕ → Bytes
display_ipv4 a =
    octet (a / 2 ^ 24 % 256)
    ++ 46 ∷ (octet (a / 2 ^ 16 % 256) ++ 46 ∷ (octet (a / 2 ^ 8 % 256) ++ 46 ∷ octet (a % 256)))

-- `str::parse::<u8>`
abbrev pub parse_u8 : Bytes → Option ℕ
parse_u8 s = at_most u8_max (parse_u64 s)

unfoldable pub parse : Bytes → CelResult Cidr4
parse s = do
  parts ← ok_or (split_once 47 s) (invalid "cidr: missing '/'")
  ip ← ok_or (parse_ipv4 parts.0) (invalid "cidr: bad ipv4")
  prefix_len ← ok_or (parse_u8 parts.1) (invalid "cidr: bad prefix")
  refuse_if (eqb prefix_len 0 || leb 32 prefix_len) (invalid "cidr: prefix must be in 1..32")
  ok (record { base = bit_and ip (mask prefix_len); prefix_len = prefix_len })

-- A prefix is a `u8`.
abbrev pub display : Cidr4 → Bytes
display c = display_ipv4 c.base ++ 47 ∷ octet c.prefix_len

any-octet : (c n : ℕ) → (leb 48 c && leb c 57) ≡ false → any (eqb c) (octet n) ≡ false
any-octet c n e = any-digits c 3 n e

-- `Display` writes an octet as `parse` reads it.
parse_octet-octet : (n : ℕ) → n ≤ u8_max → parse_octet (octet n) ≡ some n
unfolding parse_octet parse_from digits
parse_octet-octet n fits = elim (Bool-cases (ltb n 10)) [
  | inl one ↦ ground (arith, one)
  | inr more ↦ elim (Bool-cases (ltb (n / 10) 10)) [
    | inl two ↦ rw (more, two) (ground (arith, more, two, fits))
    | inr three ↦
        let last : ltb (n / 10 / 10) 10 ≡ true = ground (arith, fits) in
        rw (more, three, last) (ground (arith, more, three, fits))
  ]
]

read_octets-last : (acc n : ℕ) → n ≤ u8_max → read_octets 0 acc (octet n) ≡ some (acc * 256 + n)
unfolding read_octets
read_octets-last acc n fits = rw (read_octets, parse_octet-octet n fits) refl

read_octets-next :
    (k acc n : ℕ) (rest : Bytes)
    → n ≤ u8_max
    → read_octets (suc k) acc (octet n ++ 46 ∷ rest) ≡ read_octets k (acc * 256 + n) rest
unfolding read_octets
read_octets-next k acc n rest fits =
    rw
      (
        read_octets,
        split_once-append 46 (octet n) rest (any-octet 46 n refl),
        parse_octet-octet n fits,
      )
      refl

parse_ipv4-display_ipv4 : (a : ℕ) → a ≤ u32_max → parse_ipv4 (display_ipv4 a) ≡ some a
parse_ipv4-display_ipv4 a fits =
    read_octets-next 2 0 (a / 2 ^ 24 % 256) _ (omega arith)
    ∙ read_octets-next 1 _ (a / 2 ^ 16 % 256) _ (omega arith)
    ∙ read_octets-next 0 _ (a / 2 ^ 8 % 256) _ (omega arith)
    ∙ read_octets-last _ (a % 256) (omega arith)
    ∙ ap some (omega arith)

any_join :
    (c : ℕ) (xs ys : Bytes)
    → any (eqb c) xs ≡ false
    → any (eqb c) ys ≡ false
    → any (eqb c) (xs ++ ys) ≡ false
any_join c [] ys e f = f
any_join c (x ∷ xs) ys e f = let rest = any_join c xs ys in ground (arith, e, f, rest)

any-dotted :
    (n : ℕ) (rest : Bytes) → any (eqb 47) rest ≡ false → any (eqb 47) (octet n ++ 46 ∷ rest) ≡ false
any-dotted n rest e = any_join 47 (octet n) (46 ∷ rest) (any-octet 47 n refl) e

any-display_ipv4 : (a : ℕ) → any (eqb 47) (display_ipv4 a) ≡ false
any-display_ipv4 a =
    any-dotted (a / 2 ^ 24 % 256) _ (
      any-dotted (a / 2 ^ 16 % 256) _
        (any-dotted (a / 2 ^ 8 % 256) _ (any-octet 47 (a % 256) refl)))

parse_u8-octet : (n : ℕ) → n < 100 → parse_u8 (octet n) ≡ some n
unfolding parse_u64 parse_from digits
parse_u8-octet n fits = elim (Bool-cases (ltb n 10)) [
  | inl one ↦ rw one (ground (arith, one))
  | inr more ↦
      let two : ltb (n / 10) 10 ≡ true = ground (arith, fits) in
      rw (more, two) (ground (arith, more, two, fits))
]

-- The text of a block with a prefix between 1 and 31 and a masked base parses to that block.
pub parse-display : (c : Cidr4) → IsBlock c → parse (display c) ≡ ok c
unfolding parse
parse-display c block =
    let parts =
      split_once-append 47 (display_ipv4 c.base) (octet c.prefix_len) (any-display_ipv4 c.base) in
    let ip = parse_ipv4-display_ipv4 c.base block.fits in
    let bits = parse_u8-octet c.prefix_len (omega (arith, block.short)) in
    let inside : (eqb c.prefix_len 0 || leb 32 c.prefix_len) ≡ false =
      ground (arith, block.long, block.short) in
    rw (parts, ip, bits, inside, block.masked) refl

masked-IsBlock :
    (ip n : ℕ) → 0 < n → n < 32 → IsBlock (record { base = bit_and ip (mask n); prefix_len = n })
masked-IsBlock ip n long short = record {
  long = long;
  short = short;
  fits = omega (arith, bit_and_comm ip (mask n), bit_and-le (mask n) ip);
  masked = bit_and_assoc ip (mask n) (mask n) ∙ ap (bit_and ip) (bit_and_idem (mask n));
}

-- Every block that `parse` gives has a prefix between 1 and 31 and a masked base.
pub parse-IsBlock : (s : Bytes) (c : Cidr4) → parse s ≡ ok c → IsBlock c
unfolding parse
parse-IsBlock s c e = elim (Option-cases (split_once 47 s)) [
  | inl bad ↦ absurd (cc (e, bad))
  | inr (parts, e1) ↦ elim (Option-cases (parse_ipv4 parts.0)) [
    | inl bad ↦ absurd (cc (rw (parse, e1, bad) at e))
    | inr (ip, e2) ↦ elim (Option-cases (parse_u8 parts.1)) [
      | inl bad ↦ absurd (cc (rw (parse, e1, e2, bad) at e))
      | inr (n, e3) ↦ elim (Bool-cases (eqb n 0 || leb 32 n)) [
        | inl bad ↦ absurd (cc (rw (parse, e1, e2, e3, bad) at e))
        | inr fine ↦
            let done : ok (record { base = bit_and ip (mask n); prefix_len = n }) ≡ ok c =
              rw (parse, e1, e2, e3, fine) at e in
            let same : record { base = bit_and ip (mask n); prefix_len = n } ≡ c = cc done in
            subst IsBlock same (masked-IsBlock ip n (ground (arith, fine)) (ground (arith, fine)))
      ]
    ]
  ]
]
