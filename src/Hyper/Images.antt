-- ===== src/Hyper/Images.antt =====
-- The upload of a guest's image: `stage_image` of the host in crates/celmesh/src/hyper_host.rs, and the
-- kernel's staging slot and checksum in crates/celhyper/src/image_loader.rs and crc.rs.
pub mod Upload
use celium.Prelude.{
  ℕ, zero, suc, ◌+◌, ◌*◌, ◌/◌, ◌%◌, Bool, true, false, Option, none, some, List, [], ◌∷◌, ltb, eqb,
  length, if◌then◌else◌,
}
use Prim.Native.Nat.{bit_xor}
use celium.Prelude.Key.{Bytes}
use celium.Hyper.Error.{HyperResult, ok, err, invalid}
use celium.Hyper.Hex.{hex_encode, hex_decode}
use celium.Hyper.Request.{Request, image_load}

-- The loop over the bits of a byte.
unfoldable pub crc_bits : ℕ → ℕ → ℕ
crc_bits zero state = state
crc_bits (suc n) state =
    crc_bits n (if eqb (state % 2) 1 then bit_xor (state / 2) 0x82F63B78 else state / 2)

unfoldable pub crc32c_continue : ℕ → Bytes → ℕ
crc32c_continue state [] = state
crc32c_continue state (b ∷ bytes) = crc32c_continue (crc_bits 8 (bit_xor state b)) bytes

unfoldable pub crc32c : Bytes → ℕ
crc32c bytes = bit_xor (crc32c_continue 0xFFFFFFFF bytes) 0xFFFFFFFF

-- The host's copy of `crc32c`, which has the same loops in one function.
unfoldable pub crc32c_bytes : Bytes → ℕ
crc32c_bytes bytes = bit_xor (crc32c_continue 0xFFFFFFFF bytes) 0xFFFFFFFF

-- A page.
abbrev pub max_image_bytes : ℕ
max_image_bytes = 4096

-- `bytes` is the valid prefix of the buffer, its first `len` bytes.
pub record StagedImage : Type 0 where
  pub bytes : Bytes
  pub len : ℕ
  pub crc : ℕ
  pub present : Bool

abbrev pub empty : StagedImage
empty = record { bytes = []; len = 0; crc = 0; present = false }

-- What follows the decoding, whose slot has been cleared.
unfoldable pub verify : HyperResult Bytes → ℕ → ℕ → StagedImage × HyperResult (Unit {0})
verify (err e) len expected = (empty, err e)
verify (ok bytes) len expected =
    if eqb (crc32c bytes) expected
    then (record { bytes = bytes; len = len; crc = crc32c bytes; present = true }, ok tt)
    else (empty, err (invalid "image_loader: stage CRC mismatch"))

unfoldable pub stage_from_hex : StagedImage → Bytes → ℕ → ℕ → StagedImage × HyperResult (Unit {0})
stage_from_hex slot hex len expected =
    if eqb len 0
    then (slot, err (invalid "image_loader: stage len == 0"))
    else if ltb max_image_bytes len
    then (slot, err (invalid "image_loader: stage len > MAX_IMAGE_BYTES"))
    else if eqb (length hex) (len * 2)
    then verify (hex_decode len hex) len expected
    else (slot, err (invalid "image_loader: stage hex len mismatch"))

unfoldable pub staged_meta : StagedImage → Option (ℕ × ℕ)
staged_meta slot = if slot.present then some (slot.len, slot.crc) else none

abbrev pub discard_staged : StagedImage → StagedImage
discard_staged slot = empty

abbrev pub max_staged_image_bytes : ℕ
max_staged_image_bytes = 4096

-- The request that `stage_image` sends, or `none` where it refuses the bytes.
unfoldable pub stage_image : Bytes → Option Request
stage_image bytes =
    if eqb (length bytes) 0
    then none
    else if ltb max_staged_image_bytes (length bytes)
    then none
    else some (image_load (length bytes) (crc32c_bytes bytes) (hex_encode bytes))
