-- ===== src/Hyper/Hex.antt =====
-- The hex text of an image: `hex_encode` of the host in crates/celmesh/src/hyper_host.rs, and
-- `hex_decode` of the kernel in crates/celhyper/src/wire.rs.
pub mod Laws
use celium.Prelude.{
  ℕ, ◌+◌, ◌-◌, ◌*◌, ◌/◌, ◌%◌, ◌≡◌, refl, Bool, true, false, ◌&&◌, List, [], ◌∷◌, ltb, leb, eqb,
  length, if◌then◌else◌,
}
use celium.Prelude.Key.{Bytes}
use celium.Hyper.Error.{HyperResult, ok, err, invalid, exhausted, ◌>>=◌, ◌>>◌, refuse_if}

-- An entry of the table "0123456789abcdef".
unfoldable pub lut : ℕ → ℕ
lut n = if ltb n 10 then 48 + n else 87 + n

unfoldable pub hex_encode : Bytes → Bytes
hex_encode [] = []
hex_encode (b ∷ bs) = lut (b / 16) ∷ lut (b % 16) ∷ hex_encode bs

unfoldable pub hex_nibble : ℕ → HyperResult ℕ
hex_nibble b =
    if leb 48 b && leb b 57
    then ok (b - 48)
    else if leb 97 b && leb b 102
    then ok (10 + (b - 97))
    else err (invalid "wire: hex_decode non-hex byte")

-- The loop. Nibbles are below 16, so `(hi << 4) | lo` is a sum.
unfoldable pub hex_loop : Bytes → HyperResult Bytes
hex_loop [] = ok []
hex_loop (c ∷ []) = ok []
hex_loop (c ∷ d ∷ s) =
    let rest = hex_loop s in
    hex_nibble c >>= λ hi. hex_nibble d >>= λ lo. rest >>= λ bs. ok ((hi * 16 + lo) ∷ bs)

-- The bytes that are written into a buffer of `size` bytes; the code returns their number.
unfoldable pub hex_decode : ℕ → Bytes → HyperResult Bytes
hex_decode size src =
    refuse_if (if eqb (length src % 2) 0 then false else true)
      (invalid "wire: hex_decode odd input length")
    >> refuse_if (ltb size (length src / 2)) (exhausted "wire: hex_decode dst too small")
    >> hex_loop src
