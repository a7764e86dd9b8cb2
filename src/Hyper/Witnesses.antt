-- ===== src/Hyper/Witnesses.antt =====
-- The wire format of crates/celhyper on concrete frames.
use celium.Prelude.{◌≡◌, ◌≤◌, refl, none, some, [], ◌∷◌, ◌↔◌, arith, All, length}
use celium.Prelude.Key.{Bytes, bytes_eq}
use celium.Prelude.Text.{text}
use celium.Hyper.Error.{HyperResult, ok, err, invalid}
use celium.Hyper.Wire.{Row, Reply, listed, running, encode_reply}
use celium.Hyper.Wire.Fits.{tx_cap, encode_reply-fits}
use celium.Hyper.Scanner.{
  u32_value, u64_value, until_quote, expect, skip_ws, digit_run, accumulate, try_consume_null,
  skip_nested, skip_literal, skip_value,
}
use celium.Hyper.Request.{Request, create, read_field}
use celium.Hyper.Request.Decode.{decode_request, decode_loop, turn, finish, request_of}
use celium.Hyper.Request.Total.{decode_request-total}
use celium.Hyper.Request.Frames.{frame}
use celium.Hyper.Request.Frames.Round.{decode_request-frame}
use celium.Hyper.Request.Limits.{IsLimited, decode_request-IsLimited}
use celium.Hyper.Hex.{hex_encode, hex_decode}
use celium.Hyper.Images.{empty, stage_from_hex, stage_image}
use celium.Hyper.Images.Upload.{
  holding, load, IsStaged, empty-IsStaged, stage_from_hex-stage_image, stage_from_hex-IsStaged,
}
use celium.Hyper.Hex.Laws.{IsByte, hex_decode_iff}

abbrev row : Row
row = record {
  vm_id = 1;
  label = text "hello";
  state = running;
  last_exit = none;
  image_path = text "/img/a";
  cpu_count = some 2;
  memory_mib = some 512;
  boot_blob_crc32c = some 3735928559;
}

abbrev reply : Reply
reply = listed (some row ∷ none ∷ [])

encode_reply-fits_example :
    (bytes : Bytes) × (encode_reply tx_cap reply ≡ ok bytes) × (length bytes ≤ tx_cap)
encode_reply-fits_example =
    encode_reply-fits reply (omega arith, ((omega arith, omega arith), (tt, tt)))

abbrev new_vm : Request
new_vm = create (text "vm") (some (text "/img/disk.raw")) (some 2) none (some 3735928559)

decode_request-frame_example : decode_request (frame new_vm) ≡ some (ok new_vm)
decode_request-frame_example =
    decode_request-frame new_vm
      ((refl, omega arith), (refl, omega arith), omega arith, tt, omega arith)

decode_request-IsLimited_example : IsLimited new_vm
decode_request-IsLimited_example =
    decode_request-IsLimited (frame new_vm) new_vm decode_request-frame_example

abbrev broken : Bytes
broken = text "{\"op\":\"start\",\"x\":[1,{\"y\":2}"

decode_request-total_example : (r : HyperResult Request) × (decode_request broken ≡ some r)
decode_request-total_example = decode_request-total broken

abbrev image : Bytes
image = 222 ∷ 173 ∷ 0 ∷ []

hex_decode_iff_example :
    (hex_decode 4 (text "dead00") ≡ ok image)
    ↔ ((hex_encode image ≡ text "dead00") × All IsByte image × (length image ≤ 4))
hex_decode_iff_example = hex_decode_iff 4 (text "dead00") image

stage_from_hex-stage_image_example :
    load (holding (text "old")) (stage_image image) ≡ some (holding image, ok tt)
stage_from_hex-stage_image_example =
    stage_from_hex-stage_image (holding (text "old")) image
      (omega arith, (omega arith, (omega arith, tt))) refl refl

stage_from_hex-IsStaged_example : IsStaged (stage_from_hex empty (text "dead00") 3 7).0
stage_from_hex-IsStaged_example = stage_from_hex-IsStaged empty (text "dead00") 3 7 empty-IsStaged

-- The frames of the source's tests.
unknown_field :
    decode_request (text "{\"op\":\"create\",\"label\":\"x\",\"future\":{\"a\":1}}")
    ≡ some (ok (create (text "x") none none none none))
unfolding decode_request decode_loop turn finish request_of read_field u32_value u64_value
    until_quote expect skip_ws digit_run accumulate try_consume_null skip_nested skip_literal
    skip_value bytes_eq
unknown_field = refl

escaped_label :
    decode_request (text "{\"op\":\"create\",\"label\":\"a\\nb\"}")
    ≡ some (err (invalid "wire: escapes not allowed"))
unfolding decode_request decode_loop turn until_quote expect skip_ws read_field bytes_eq
escaped_label = refl
