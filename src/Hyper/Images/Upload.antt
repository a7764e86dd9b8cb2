-- ===== src/Hyper/Images/Upload.antt =====
-- An image that the host sends, crates/celmesh/src/hyper_host.rs, is the one that the kernel stages,
-- crates/celhyper/src/image_loader.rs.
use celium.Prelude.{
  ℕ, ◌*◌, ◌≤◌, ◌≡◌, refl, ap, true, false, Option, none, some, arith, inl, inr, Bool-cases, All,
  length, ltb, eqb, eqb_iff,
}
use celium.Prelude.Key.{Bytes}
use celium.Hyper.Error.{HyperResult, ok, HyperResult-cases}
use celium.Hyper.Hex.{hex_encode, hex_decode}
use celium.Hyper.Hex.Laws.{IsByte, hex_decode_iff, length-hex_encode}
use celium.Hyper.Request.{Request, image_load}
use celium.Hyper.Images.{
  crc32c_continue, crc32c, crc32c_bytes, max_image_bytes, StagedImage, empty, verify,
  stage_from_hex, stage_image,
}

-- The slot with an image.
abbrev pub holding : Bytes → StagedImage
holding bytes = record { bytes = bytes; len = length bytes; crc = crc32c bytes; present = true }

same : (n : ℕ) → eqb n n ≡ true
same n = ground (arith, eqb_iff n n)

-- What the kernel does with the request of `stage_image`.
abbrev pub load : StagedImage → Option Request → Option (StagedImage × HyperResult (Unit {0}))
load slot (some (image_load len crc hex)) = some (stage_from_hex slot hex len crc)
load slot _ = none

verify-same :
    (bytes : Bytes) → verify (ok bytes) (length bytes) (crc32c bytes) ≡ (holding bytes, ok tt)
unfolding verify
verify-same bytes = rw (same (crc32c bytes)) refl

-- The checksums of the two sides are the same.
crc32c_bytes-crc32c : (bytes : Bytes) → crc32c_bytes bytes ≡ crc32c bytes
unfolding crc32c_bytes crc32c
crc32c_bytes-crc32c bytes = refl

hex_length : (bytes : Bytes) → eqb (length (hex_encode bytes)) (length bytes * 2) ≡ true
hex_length bytes = let len = length-hex_encode bytes in ground (arith, len)

reads : (bytes : Bytes) → All IsByte bytes → hex_decode (length bytes) (hex_encode bytes) ≡ ok bytes
reads bytes h = (hex_decode_iff (length bytes) (hex_encode bytes) bytes).1 (refl, h, omega arith)

-- An image of bytes, not empty and of at most 4096 of them, is sent, and whatever the kernel's
-- slot held, it then holds exactly these bytes, with their length and their checksum.
pub stage_from_hex-stage_image :
    (slot : StagedImage) (bytes : Bytes)
    → All IsByte bytes
    → eqb (length bytes) 0 ≡ false
    → ltb max_image_bytes (length bytes) ≡ false
    → load slot (stage_image bytes) ≡ some (holding bytes, ok tt)
unfolding stage_image stage_from_hex
stage_from_hex-stage_image slot bytes are_bytes full fits =
    rw
      (
        full,
        fits,
        full,
        fits,
        hex_length bytes,
        reads bytes are_bytes,
        crc32c_bytes-crc32c bytes,
        verify-same bytes,
      )
      refl

-- What the slot records of its bytes is true of them.
abbrev pub IsStaged : StagedImage → Type 0
IsStaged slot =
    (slot.crc ≡ crc32c slot.bytes) × (length slot.bytes ≡ slot.len) × (slot.len ≤ max_image_bytes)

pub empty-IsStaged : IsStaged empty
unfolding crc32c crc32c_continue
empty-IsStaged = (refl, refl, omega arith)

half : (s bs : Bytes) (n : ℕ) → hex_encode bs ≡ s → eqb (length s) (n * 2) ≡ true → length bs ≡ n
half s bs n whole e =
    let len = length-hex_encode bs in let all = ap length whole in ground (arith, e, len, all)

verify-IsStaged :
    (hex : Bytes) (len expected : ℕ)
    → eqb (length hex) (len * 2) ≡ true
    → ltb max_image_bytes len ≡ false
    → IsStaged (verify (hex_decode len hex) len expected).0
unfolding verify
verify-IsStaged hex len expected double fits = elim (HyperResult-cases (hex_decode len hex)) [
  | inl (bytes, e) ↦ elim (Bool-cases (eqb (crc32c bytes) expected)) [
    | inl good ↦
        let (whole, _, _) = (hex_decode_iff len hex bytes).0 e in
        rw (e, good) (refl, half hex bytes len whole double, small len fits)
    | inr bad ↦ rw (e, bad) empty-IsStaged
  ]
  | inr (x, e) ↦ rw e empty-IsStaged
]
  where
    small : (n : ℕ) → ltb max_image_bytes n ≡ false → n ≤ max_image_bytes
    small n h = ground (arith, h)

-- Whatever is sent, and whether it is taken or refused: if the checksum and the length that the
-- slot records are those of its bytes, and these are at most 4096, they still are afterwards.
pub stage_from_hex-IsStaged :
    (slot : StagedImage) (hex : Bytes) (len expected : ℕ)
    → IsStaged slot
    → IsStaged (stage_from_hex slot hex len expected).0
unfolding stage_from_hex
stage_from_hex-IsStaged slot hex len expected h = elim (Bool-cases (eqb len 0)) [
  | inl zero_len ↦ rw zero_len h
  | inr full ↦ elim (Bool-cases (ltb max_image_bytes len)) [
    | inl large ↦ rw (full, large) h
    | inr fits ↦ elim (Bool-cases (eqb (length hex) (len * 2))) [
      | inl double ↦ rw (full, fits, double) (verify-IsStaged hex len expected double fits)
      | inr other ↦ rw (full, fits, other) h
    ]
  ]
]
