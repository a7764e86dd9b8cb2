-- ===== src/Hyper/Writer.antt =====
-- The byte writer of crates/celhyper/src/wire.rs: it is the bytes that it has written into a buffer of
-- `cap` bytes.
use celium.Prelude.{
  ℕ, zero, suc, ◌+◌, ◌/◌, ◌%◌, ◌≤◌, ◌<◌, ◌≡◌, refl, [], ◌∷◌, ◌++◌, arith, inl, inr, Bool-cases, ltb,
  leb, eqb, length, length-append, if◌then◌else◌,
}
use celium.Prelude.Key.{Bytes}
use celium.Hyper.Error.{HyperResult, ok, err, exhausted, ◌>>=◌}

-- One write.
abbrev pub Put : Type 0
Put = Bytes → HyperResult Bytes

infixr 5 ◌▸◌
-- A write with `?`, and the next one.
abbrev pub ◌▸◌ : Put → Put → Put
(f ▸ g) w = f w >>= g

abbrev pub nothing : Put
nothing w = ok w

-- The digits of a number, from the last to the first, before those that are there.
unfoldable pub digits_loop : ℕ → ℕ → Bytes → Bytes
digits_loop zero n acc = acc
digits_loop (suc fuel) n acc =
    let rest = digits_loop fuel (n / 10) ((48 + n % 10) ∷ acc) in if eqb n 0 then acc else rest

-- `buf[i..]` of `put_u32` and of `put_u64`, whose buffers have 10 and 20 bytes.
abbrev pub number : ℕ → ℕ → Bytes
number size n = if eqb n 0 then 48 ∷ [] else digits_loop size n []

module _ (cap : ℕ) where
  unfoldable pub put_u8 : ℕ → Put
  put_u8 b w =
      if leb cap (length w)
      then err (exhausted "wire: reply buffer too small")
      else ok (w ++ b ∷ [])

  unfoldable pub put_str : Bytes → Put
  put_str s w =
      if ltb cap (length w + length s)
      then err (exhausted "wire: reply buffer too small")
      else ok (w ++ s)

  abbrev pub put_u32 : ℕ → Put
  put_u32 v = put_str (number 10 v)

  abbrev pub put_u64 : ℕ → Put
  put_u64 v = put_str (number 20 v)

  -- A write that always succeeds where it has room for `k` bytes, and then takes no more of them.
  abbrev pub Adds : ℕ → Put → Type 0
  Adds k f =
      (w : Bytes) → length w + k ≤ cap → (v : Bytes) × (f w ≡ ok v) × (length v ≤ length w + k)

  pub Adds-nothing : Adds 0 nothing
  Adds-nothing w room = (w, refl, omega arith)

  pub Adds-put_u8 : (b : ℕ) → Adds 1 (put_u8 b)
  unfolding put_u8
  Adds-put_u8 b w room =
      (w ++ b ∷ [], ground (arith, room), omega (arith, length-append w (b ∷ [])))

  pub Adds-put_str : (s : Bytes) (k : ℕ) → length s ≤ k → Adds k (put_str s)
  unfolding put_str
  Adds-put_str s k short w room =
      (w ++ s, ground (arith, room, short), omega (arith, length-append w s, short))

  pub Adds-then : (f g : Put) (j k : ℕ) → Adds j f → Adds k g → Adds (j + k) (f ▸ g)
  Adds-then f g j k first second w room =
      let (v, done, more) = first w (omega (arith, room)) in
      let (u, ended, rest) = second v (omega (arith, room, more)) in
      (u, rw done ended, omega (arith, more, rest))

  pub Adds-more : (f : Put) (j k : ℕ) → j ≤ k → Adds j f → Adds k f
  Adds-more f j k less first w room =
      let (v, done, more) = first w (omega (arith, room, less)) in
      (v, done, omega (arith, more, less))

length-digits_loop :
    (fuel n : ℕ) (acc : Bytes) → length (digits_loop fuel n acc) ≤ fuel + length acc
unfolding digits_loop
length-digits_loop zero n acc = omega arith
length-digits_loop (suc fuel) n acc = elim (Bool-cases (eqb n 0)) [
  | inl done ↦ rw done (omega arith)
  | inr more ↦ rw more (omega (arith, length-digits_loop fuel (n / 10) ((48 + n % 10) ∷ acc)))
]

pub length-number : (size n : ℕ) → 0 < size → length (number size n) ≤ size
length-number size n some_room = elim (Bool-cases (eqb n 0)) [
  | inl done ↦ rw done (omega (arith, some_room))
  | inr more ↦ rw more (omega (arith, length-digits_loop size n []))
]
