-- ===== src/Hyper/Request/Limits.antt =====
-- The limits that the decoder of crates/celhyper/src/wire.rs promises for its requests.
use celium.Prelude.{
  ℕ, suc, ◌*◌, ◌≤◌, ◌≡◌, refl, Bool, true, false, Option, none, some, arith, length, ltb, eqb,
  if◌then◌else◌, String,
}
use celium.Prelude.Key.{Bytes, bytes_eq}
use celium.Prelude.Text.{text}
use mathlib.Core.Path.{subst}
use celium.Hyper.Error.{HyperError, HyperResult, ok, err, ◌>>=◌, ◌>>◌, refuse_if, ok_inj}
use celium.Hyper.Wire.{label_max, image_path_max}
use celium.Hyper.Scanner.{expect, skip_ws}
use celium.Hyper.Request.{Request, create, start, stop, delete, image_load, Fields, no_fields}
use celium.Hyper.Request.Decode.{
  decode_loop, required, path_too_long, create_of, image_load_of, request_of, finish, ended,
  decode_object, decode_request,
}

-- A label and a path within their sizes, and a hex text of twice the length.
abbrev pub IsLimited : Request → Type 0
IsLimited (create label none cpus memory crc) = length label ≤ label_max
IsLimited (create label (some path) cpus memory crc) =
    (length label ≤ label_max) × (length path ≤ image_path_max)
IsLimited (image_load len crc hex) = length hex ≡ 2 * len
IsLimited _ = Unit

bind-ok :
    {A B : Type 0} (m : HyperResult A) (f : A → HyperResult B) (b : B)
    → m >>= f ≡ ok b
    → (a : A) × (f a ≡ ok b)
bind-ok (ok a) f b e = (a, e)
bind-ok (err x) f b e = absurd (cc e)

refuse-ok :
    {B : Type 0} (t : Bool) (x : HyperError) (k : HyperResult B) (b : B)
    → refuse_if t x >> k ≡ ok b
    → (t ≡ false) × (k ≡ ok b)
refuse-ok true x k b e = absurd (cc e)
refuse-ok false x k b e = (refl, e)

both-ok :
    {B : Type 0} (t u : Bool) (x y : HyperError) (k : HyperResult B) (b : B)
    → refuse_if t x >> refuse_if u y >> k ≡ ok b
    → (t ≡ false) × (u ≡ false) × (k ≡ ok b)
both-ok true u x y k b e = absurd (cc e)
both-ok false true x y k b e = absurd (cc e)
both-ok false false x y k b e = (refl, refl, e)

-- A result of one of two branches.
branch :
    (t : Bool) (a b : HyperResult Request) (r : Request)
    → (a ≡ ok r → IsLimited r)
    → (b ≡ ok r → IsLimited r)
    → (if t then a else b) ≡ ok r
    → IsLimited r
branch true a b r left right e = left e
branch false a b r left right e = right e

create-IsLimited :
    (label : Bytes) (path : Option Bytes) (cpus memory crc : Option ℕ)
    → ltb label_max (length label) ≡ false
    → path_too_long path ≡ false
    → IsLimited (create label path cpus memory crc)
create-IsLimited label none cpus memory crc e f = ground (arith, e)
create-IsLimited label (some p) cpus memory crc e f =
    (within label_max (length label) e, within image_path_max (length p) f)
  where
    within : (largest n : ℕ) → ltb largest n ≡ false → n ≤ largest
    within largest n h = ground (arith, h)

id-IsLimited :
    (vm : Option ℕ) (message : String) (k : ℕ → Request) (r : Request)
    → ((i : ℕ) → IsLimited (k i))
    → (required vm message >>= λ i. ok (k i)) ≡ ok r
    → IsLimited r
id-IsLimited vm message k r h e =
    let (i, f) = bind-ok (required vm message) (λ i. ok (k i)) r e in
    subst IsLimited (ok_inj f) (h i)

create_of-IsLimited : (f : Fields) (r : Request) → create_of f ≡ ok r → IsLimited r
create_of-IsLimited f r e =
    let (label, e1) = bind-ok (required f.label "wire: create missing label") _ r e in
    let (short, fits, e3) =
      both-ok (ltb label_max (length label)) (path_too_long f.image_path) _ _ _ r e1 in
    subst IsLimited (ok_inj e3)
      (create-IsLimited label f.image_path f.cpu_count f.memory_mib f.boot_blob_crc32c short fits)

image_load_of-IsLimited : (f : Fields) (r : Request) → image_load_of f ≡ ok r → IsLimited r
image_load_of-IsLimited f r e =
    let (len, e1) = bind-ok (required f.len "wire: image_load missing len") _ r e in
    let (crc, e2) = bind-ok (required f.crc32c "wire: image_load missing crc32c") _ r e1 in
    let (hex, e3) = bind-ok (required f.bytes_hex "wire: image_load missing bytes_hex") _ r e2 in
    let (same, e4) = refuse-ok (if eqb (length hex) (2 * len) then false else true) _ _ r e3 in
    subst IsLimited (ok_inj e4) (ground (arith, same))

request_of-IsLimited :
    (f : Fields) (op : Bytes) (r : Request) → request_of f op ≡ ok r → IsLimited r
unfolding request_of
request_of-IsLimited f op r = branch (bytes_eq op (text "create")) _ _ r (create_of-IsLimited f r) (
    branch (bytes_eq op (text "start")) _ _ r (id-IsLimited f.vm_id _ start r (λ i. tt)) (
      branch (bytes_eq op (text "stop")) _ _ r (id-IsLimited f.vm_id _ stop r (λ i. tt)) (
        branch (bytes_eq op (text "delete")) _ _ r (id-IsLimited f.vm_id _ delete r (λ i. tt)) (
          branch (bytes_eq op (text "list")) _ _ r (λ e. subst IsLimited (ok_inj e) tt)
            (branch (bytes_eq op (text "image_load")) _ _ r (image_load_of-IsLimited f r)
              (λ e. absurd (cc e)))))))

finish-IsLimited : (f : Fields) (s : Bytes) (r : Request) → finish f s ≡ ok r → IsLimited r
unfolding finish
finish-IsLimited f s r e =
    let (_, e1) =
      refuse-ok (if eqb (length (skip_ws s)) 0 then false else true) _
        (required f.op "wire: request missing op" >>= λ op. request_of f op) r e in
    let (op, e2) =
      bind-ok (required f.op "wire: request missing op") (λ op. request_of f op) r e1 in
    request_of-IsLimited f op r e2

some_inj : {a b : HyperResult Request} → some a ≡ some b → a ≡ b
some_inj e = cc

ended-IsLimited :
    (o : Option (HyperResult (Fields × Bytes))) (r : Request) → ended o ≡ some (ok r) → IsLimited r
ended-IsLimited none r e = absurd (cc e)
ended-IsLimited (some m) r e =
    let (p, f) = bind-ok m (λ p. finish p.0 p.1) r (some_inj e) in finish-IsLimited p.0 p.1 r f

object-IsLimited :
    (m : HyperResult Bytes) (r : Request) → decode_object m ≡ some (ok r) → IsLimited r
object-IsLimited (ok s) r e = ended-IsLimited (decode_loop (suc (length s)) no_fields s) r e
object-IsLimited (err x) r e = absurd (cc (some_inj e))

-- Whatever the frame, a request that is decoded has a label and an image path within their sizes,
-- and an image's hex text has twice the length that its request states.
pub decode_request-IsLimited :
    (frame : Bytes) (r : Request) → decode_request frame ≡ some (ok r) → IsLimited r
unfolding decode_request
decode_request-IsLimited frame r e = object-IsLimited (expect 123 frame) r e
