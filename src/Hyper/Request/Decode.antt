-- ===== src/Hyper/Request/Decode.antt =====
-- `decode_request` of crates/celhyper/src/wire.rs. Each turn of its loop reads at least one byte.
use celium.Prelude.{
  ℕ, zero, suc, ◌*◌, Bool, true, false, Option, none, some, [], ◌∷◌, ltb, eqb, length, drop,
  if◌then◌else◌, String,
}
use celium.Prelude.Key.{Bytes, bytes_eq}
use celium.Prelude.Text.{text}
use celium.Hyper.Error.{HyperResult, ok, err, invalid, ◌>>=◌, ◌>>◌, refuse_if}
use celium.Hyper.Wire.{label_max, image_path_max}
use celium.Hyper.Scanner.{expect, skip_ws}
use celium.Hyper.Request.{
  Request, create, start, stop, delete, list, image_load, Fields, no_fields, read_entry,
}

abbrev pub starts : ℕ → Bytes → Bool
starts b [] = false
starts b (c ∷ s) = eqb c b

-- One turn of the loop: `continue`, or the end with the fields and the bytes that remain.
pub data Turn : Type 0 where
  more : Fields → Bytes → Turn
  finished : HyperResult (Fields × Bytes) → Turn

abbrev pub after_entry : Fields → Bytes → Turn
after_entry f s =
    if starts 44 s then more f (drop 1 s) else finished (expect 125 s >>= λ rest. ok (f, rest))

abbrev pub entry_turn : HyperResult (Fields × Bytes) → Turn
entry_turn (ok p) = after_entry p.0 (skip_ws p.1)
entry_turn (err e) = finished (err e)

unfoldable pub turn : Fields → Bytes → Turn
turn f s =
    if starts 125 (skip_ws s)
    then finished (ok (f, drop 1 (skip_ws s)))
    else entry_turn (read_entry f (skip_ws s))

-- The loop; `none` where the fuel is used up.
unfoldable pub decode_loop : ℕ → Fields → Bytes → Option (HyperResult (Fields × Bytes))
decode_loop zero f s = none
decode_loop (suc fuel) f s = elim (turn f s) [
  | more g rest ↦ decode_loop fuel g rest
  | finished r ↦ some r
]

-- `o.ok_or(HyperError::Invalid(message))`
abbrev pub required : {A : Type 0} → Option A → String → HyperResult A
required none message = err (invalid message)
required (some a) message = ok a

abbrev pub path_too_long : Option Bytes → Bool
path_too_long none = false
path_too_long (some p) = ltb image_path_max (length p)

abbrev pub create_of : Fields → HyperResult Request
create_of f = required f.label "wire: create missing label" >>= λ label.
    refuse_if (ltb label_max (length label)) (invalid "wire: label > 32 chars")
    >> refuse_if (path_too_long f.image_path) (invalid "wire: image_path > 128 chars")
    >> ok (create label f.image_path f.cpu_count f.memory_mib f.boot_blob_crc32c)

abbrev pub image_load_of : Fields → HyperResult Request
image_load_of f = required f.len "wire: image_load missing len" >>= λ len.
    required f.crc32c "wire: image_load missing crc32c" >>= λ crc32c.
    required f.bytes_hex "wire: image_load missing bytes_hex" >>= λ bytes_hex.
    refuse_if (if eqb (length bytes_hex) (2 * len) then false else true)
      (invalid "wire: image_load bytes_hex length != 2*len")
    >> ok (image_load len crc32c bytes_hex)

-- The match on the operation.
unfoldable pub request_of : Fields → Bytes → HyperResult Request
request_of f op =
    if bytes_eq op (text "create")
    then create_of f
    else if bytes_eq op (text "start")
    then (required f.vm_id "wire: start missing vm_id" >>= λ i. ok (start i))
    else if bytes_eq op (text "stop")
    then (required f.vm_id "wire: stop missing vm_id" >>= λ i. ok (stop i))
    else if bytes_eq op (text "delete")
    then (required f.vm_id "wire: delete missing vm_id" >>= λ i. ok (delete i))
    else if bytes_eq op (text "list")
    then ok list
    else if bytes_eq op (text "image_load")
    then image_load_of f
    else err (invalid "wire: unknown op")

-- What follows the loop.
unfoldable pub finish : Fields → Bytes → HyperResult Request
finish f s =
    refuse_if (if eqb (length (skip_ws s)) 0 then false else true)
      (invalid "wire: trailing bytes after request")
    >> (required f.op "wire: request missing op" >>= λ op. request_of f op)

abbrev pub ended : Option (HyperResult (Fields × Bytes)) → Option (HyperResult Request)
ended none = none
ended (some r) = some (r >>= λ p. finish p.0 p.1)

-- The rest after the opening brace, with one turn for each of its bytes and one more.
abbrev pub decode_object : HyperResult Bytes → Option (HyperResult Request)
decode_object (err e) = some (err e)
decode_object (ok s) = ended (decode_loop (suc (length s)) no_fields s)

unfoldable pub decode_request : Bytes → Option (HyperResult Request)
decode_request frame = decode_object (expect 123 frame)
