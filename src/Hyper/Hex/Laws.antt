-- ===== src/Hyper/Hex/Laws.antt =====
-- The two sides of the hex text, crates/celmesh/src/hyper_host.rs and crates/celhyper/src/wire.rs, agree.
use celium.Prelude.{
  ℕ, suc, ◌+◌, ◌*◌, ◌/◌, ◌%◌, ◌≤◌, ◌<◌, ◌≡◌, refl, sym, ap, true, false, [], ◌∷◌, arith, inl, inr,
  Bool-cases, All, length, eqb, ltb, ◌↔◌,
}
use celium.Prelude.Key.{Bytes}
use celium.Hyper.Error.{ok, HyperResult-cases, ok_inj}
use celium.Hyper.Hex.{lut, hex_encode, hex_nibble, hex_loop, hex_decode}

abbrev pub IsByte : ℕ → Type 0
IsByte b = b < 256

hex_nibble-lut : (n : ℕ) → n < 16 → hex_nibble (lut n) ≡ ok n
unfolding hex_nibble lut
hex_nibble-lut n small = elim (Bool-cases (ltb n 10)) [
  | inl e ↦ ground (arith, e, small)
  | inr e ↦ ground (arith, e, small)
]

lut-hex_nibble : (c n : ℕ) → hex_nibble c ≡ ok n → (lut n ≡ c) × (n < 16)
unfolding hex_nibble lut
lut-hex_nibble c n e = ground (arith, e)

pub length-hex_encode : (bs : Bytes) → length (hex_encode bs) ≡ 2 * length bs
unfolding hex_encode
length-hex_encode [] = refl
length-hex_encode (b ∷ bs) = omega (arith, length-hex_encode bs)

hex_loop-hex_encode : (bs : Bytes) → All IsByte bs → hex_loop (hex_encode bs) ≡ ok bs
unfolding hex_loop hex_encode
hex_loop-hex_encode [] h = refl
hex_loop-hex_encode (b ∷ bs) h =
    rw
      (
        hex_nibble-lut (b / 16) (omega (arith, h.0)),
        hex_nibble-lut (b % 16) (omega arith),
        hex_loop-hex_encode bs h.1,
      )
      (ap (λ a. ok (a ∷ bs)) (omega arith))

join : (hi lo : ℕ) → lo < 16 → ((hi * 16 + lo) / 16 ≡ hi) × ((hi * 16 + lo) % 16 ≡ lo)
join hi lo small = (omega (arith, small), omega (arith, small))

shorter : (n : ℕ) → eqb (suc (suc n) % 2) 0 ≡ true → eqb (n % 2) 0 ≡ true
shorter n e = ground (arith, e)

-- What the loop reads is the text of bytes.
hex_loop-inverse :
    (s bs : Bytes)
    → eqb (length s % 2) 0 ≡ true
    → hex_loop s ≡ ok bs
    → (hex_encode bs ≡ s) × All IsByte bs
unfolding hex_loop hex_encode
hex_loop-inverse [] bs even e = rw (sym (ok_inj e)) (refl, tt)
hex_loop-inverse (c ∷ []) bs even e = absurd (ground (arith, even))
hex_loop-inverse (c ∷ d ∷ s) bs even e = elim (HyperResult-cases (hex_nibble c)) [
  | inl (hi, f) ↦ elim (HyperResult-cases (hex_nibble d)) [
    | inl (lo, g) ↦ elim (HyperResult-cases (hex_loop s)) [
      | inl (rest, h) ↦
          let (text_c, small_hi) = lut-hex_nibble c hi f in
          let (text_d, small_lo) = lut-hex_nibble d lo g in
          let (whole, bytes) = hex_loop-inverse s rest (shorter (length s) even) h in
          let joined = join hi lo small_lo in
          rw (sym (ok_inj (rw (f, g, h) at e)), joined.0, joined.1, text_c, text_d, whole)
            (refl, (omega (arith, small_hi, small_lo), bytes))
      | inr (x, h) ↦ absurd (cc (rw (f, g, h) at e))
    ]
    | inr (x, g) ↦ absurd (cc (rw (f, g) at e))
  ]
  | inr (x, f) ↦ absurd (cc (rw f at e))
]

even : (n : ℕ) → eqb ((2 * n) % 2) 0 ≡ true
even n = ground arith

not_larger : (size n : ℕ) → n ≤ size → ltb size ((2 * n) / 2) ≡ false
not_larger size n h = ground (arith, h)

-- The kernel reads a text as a list of values into a buffer exactly if it is what the host writes
-- for them, they are bytes, and they fit into the buffer.
pub hex_decode_iff :
    (size : ℕ) (s bs : Bytes)
    → (hex_decode size s ≡ ok bs) ↔ ((hex_encode bs ≡ s) × All IsByte bs × (length bs ≤ size))
unfolding hex_decode
hex_decode_iff size s bs = (forth, back)
  where
    forth : hex_decode size s ≡ ok bs → (hex_encode bs ≡ s) × All IsByte bs × (length bs ≤ size)
    forth e = elim (Bool-cases (eqb (length s % 2) 0)) [
      | inl pairs ↦ elim (Bool-cases (ltb size (length s / 2))) [
        | inl large ↦ absurd (cc (rw (pairs, large) at e))
        | inr fits ↦
            let (whole, bytes) = hex_loop-inverse s bs pairs (rw (pairs, fits) at e) in
            let len = length-hex_encode bs in
            (whole, bytes, ground (arith, fits, len, ap length whole))
      ]
      | inr odd ↦ absurd (cc (rw odd at e))
    ]

    back : (hex_encode bs ≡ s) × All IsByte bs × (length bs ≤ size) → hex_decode size s ≡ ok bs
    back (whole, bytes, small) =
        let len = length-hex_encode bs in
        let fits = not_larger size (length bs) small in
        rw (sym whole, len, even (length bs), fits) (hex_loop-hex_encode bs bytes)
