-- ===== src/Hyper/Request/Frames.antt =====
-- The requests of crates/celhyper/src/wire.rs in the shape that its head documents, and how the
-- decoder reads their fields.
pub mod Round
use celium.Prelude.{
  ℕ, zero, suc, ◌+◌, ◌*◌, ◌≤◌, ◌<◌, ◌≡◌, refl, Bool, true, false, Option, none, some, List, [], ◌∷◌,
  ◌++◌, arith, length, all,
}
use celium.Prelude.Key.{Bytes, bytes_eq}
use celium.Prelude.Text.{text}
use celium.Prelude.Words.{u32_max, u64_max}
use celium.Hyper.Error.{HyperResult, ok, ◌>>=◌}
use celium.Hyper.Writer.{number}
use celium.Hyper.Wire.{label_max, image_path_max}
use celium.Hyper.Scanner.{expect, skip_ws, until_quote, u32_value, u64_value, try_consume_null}
use celium.Hyper.Scanner.Laws.{
  is_plain, ends_number, until_quote-append, u32_value-number, u64_value-number,
}
use celium.Hyper.Scanner.Laws.Starts.{skip_ws-number, null-number}
use celium.Hyper.Request.{
  Request, create, start, stop, delete, list, image_load, Fields, read_field, read_entry,
}
use celium.Hyper.Request.Decode.{turn, more, finished, decode_loop}
use celium.Hyper.Request.Total.{length-turn}

-- An optional field, with the comma before it.
abbrev pub optional : {A : Type 0} → (A → Bytes) → Option A → Bytes
optional write none = []
optional write (some a) = write a

abbrev pub path_field : Option Bytes → Bytes → Bytes
path_field none rest = rest
path_field (some p) rest = text ",\"image_path\":\"" ++ (p ++ 34 ∷ rest)

abbrev pub create_tail : Option Bytes → Option ℕ → Option ℕ → Option ℕ → Bytes
create_tail path cpus memory crc = path_field path (
    optional (λ n. text ",\"cpu_count\":" ++ number 10 n) cpus
    ++ (optional (λ n. text ",\"memory_mib\":" ++ number 20 n) memory
        ++ (optional (λ n. text ",\"boot_blob_crc32c\":" ++ number 10 n) crc ++ text "}")))

abbrev pub frame : Request → Bytes
frame (create label path cpus memory crc) =
    text "{\"op\":\"create\",\"label\":\"" ++ (label ++ 34 ∷ create_tail path cpus memory crc)
frame (start i) = text "{\"op\":\"start\",\"vm_id\":" ++ (number 10 i ++ text "}")
frame (stop i) = text "{\"op\":\"stop\",\"vm_id\":" ++ (number 10 i ++ text "}")
frame (delete i) = text "{\"op\":\"delete\",\"vm_id\":" ++ (number 10 i ++ text "}")
frame list = text "{\"op\":\"list\"}"
frame (image_load len crc hex) =
    text "{\"op\":\"image_load\",\"len\":"
    ++ (number 10 len
        ++ (text ",\"crc32c\":"
            ++ (number 10 crc ++ (text ",\"bytes_hex\":\"" ++ (hex ++ text "\"}")))))

-- The loop ends with these fields, on any fuel that is enough.
abbrev pub Decodes : Fields → Bytes → Fields → Type 0
Decodes f s g = (fuel : ℕ) → length s < fuel → decode_loop fuel f s ≡ some (ok (g, []))

-- What follows an entry: a comma and further entries, or the closing brace.
pub data Ends : Fields → Bytes → Fields → Type 0 where
  comma : (f g : Fields) (s : Bytes) → Decodes f s g → Ends f (44 ∷ s) g
  brace : (f : Fields) → Ends f (125 ∷ []) f

pub Ends-ends_number : (f g : Fields) (s : Bytes) → Ends f s g → ends_number s ≡ true
Ends-ends_number f g (_) (comma _ _ s h) = refl
Ends-ends_number f g (_) (brace _) = refl

turn-comma :
    (f g : Fields) (t rest : Bytes)
    → read_entry f (34 ∷ t) ≡ ok (g, 44 ∷ rest)
    → turn f (34 ∷ t) ≡ more g rest
unfolding turn skip_ws
turn-comma f g t rest e = rw e refl

turn-brace :
    (f g : Fields) (t : Bytes)
    → read_entry f (34 ∷ t) ≡ ok (g, 125 ∷ [])
    → turn f (34 ∷ t) ≡ finished (ok (g, []))
unfolding turn skip_ws expect
turn-brace f g t e = rw e refl

Decodes-more :
    (f g h : Fields) (s rest : Bytes) → turn f s ≡ more g rest → Decodes g rest h → Decodes f s h
unfolding decode_loop
Decodes-more f g h s rest e later zero enough = absurd (omega (arith, enough))
Decodes-more f g h s rest e later (suc fuel) enough =
    let shorter = length-turn f g s rest e in
    rw (decode_loop, e) (later fuel (omega (arith, enough, shorter)))

Decodes-finished : (f g : Fields) (s : Bytes) → turn f s ≡ finished (ok (g, [])) → Decodes f s g
unfolding decode_loop
Decodes-finished f g s e zero enough = absurd (omega (arith, enough))
Decodes-finished f g s e (suc fuel) enough = rw (decode_loop, e) refl

-- An entry, and what follows it.
pub Decodes-entry :
    (f g h : Fields) (t rest : Bytes)
    → read_entry f (34 ∷ t) ≡ ok (g, rest)
    → Ends g rest h
    → Decodes f (34 ∷ t) h
Decodes-entry f g h t (_) e (comma _ _ s later) =
    Decodes-more f g h (34 ∷ t) s (turn-comma f g t s e) later
Decodes-entry f g h t (_) e (brace _) = Decodes-finished f g (34 ∷ t) (turn-brace f g t e)

-- The fields.
pub read-label :
    (f : Fields) (s rest : Bytes)
    → all is_plain s ≡ true
    → read_entry f (text "\"label\":\"" ++ (s ++ 34 ∷ rest))
      ≡ ok (record f { label = some s }, rest)
unfolding expect skip_ws until_quote read_field bytes_eq
read-label f s rest plain = rw (until_quote-append s rest plain) refl

pub read-bytes_hex :
    (f : Fields) (s rest : Bytes)
    → all is_plain s ≡ true
    → read_entry f (text "\"bytes_hex\":\"" ++ (s ++ 34 ∷ rest))
      ≡ ok (record f { bytes_hex = some s }, rest)
unfolding expect skip_ws until_quote read_field bytes_eq try_consume_null
read-bytes_hex f s rest plain = rw (until_quote-append s rest plain) refl

pub read-image_path :
    (f : Fields) (s rest : Bytes)
    → all is_plain s ≡ true
    → read_entry f (text "\"image_path\":\"" ++ (s ++ 34 ∷ rest))
      ≡ ok (record f { image_path = some s }, rest)
unfolding expect skip_ws until_quote read_field bytes_eq try_consume_null
read-image_path f s rest plain = rw (until_quote-append s rest plain) refl

pub read-vm_id :
    (f : Fields) (n : ℕ) (rest : Bytes)
    → n ≤ u32_max
    → ends_number rest ≡ true
    → read_entry f (text "\"vm_id\":" ++ (number 10 n ++ rest))
      ≡ ok (record f { vm_id = some n }, rest)
unfolding expect skip_ws until_quote read_field bytes_eq
read-vm_id f n rest small ends =
    rw (skip_ws-number 9 n rest (omega (arith, small)), u32_value-number n rest small ends) refl

pub read-len :
    (f : Fields) (n : ℕ) (rest : Bytes)
    → n ≤ u32_max
    → ends_number rest ≡ true
    → read_entry f (text "\"len\":" ++ (number 10 n ++ rest)) ≡ ok (record f { len = some n }, rest)
unfolding expect skip_ws until_quote read_field bytes_eq
read-len f n rest small ends =
    rw (skip_ws-number 9 n rest (omega (arith, small)), u32_value-number n rest small ends) refl

pub read-crc32c :
    (f : Fields) (n : ℕ) (rest : Bytes)
    → n ≤ u32_max
    → ends_number rest ≡ true
    → read_entry f (text "\"crc32c\":" ++ (number 10 n ++ rest))
      ≡ ok (record f { crc32c = some n }, rest)
unfolding expect skip_ws until_quote read_field bytes_eq
read-crc32c f n rest small ends =
    rw (skip_ws-number 9 n rest (omega (arith, small)), u32_value-number n rest small ends) refl

pub read-cpu_count :
    (f : Fields) (n : ℕ) (rest : Bytes)
    → n ≤ u32_max
    → ends_number rest ≡ true
    → read_entry f (text "\"cpu_count\":" ++ (number 10 n ++ rest))
      ≡ ok (record f { cpu_count = some n }, rest)
unfolding expect skip_ws until_quote read_field bytes_eq
read-cpu_count f n rest small ends =
    rw
      (
        skip_ws-number 9 n rest (omega (arith, small)),
        null-number 9 n rest (omega (arith, small)),
        u32_value-number n rest small ends,
      )
      refl

pub read-memory_mib :
    (f : Fields) (n : ℕ) (rest : Bytes)
    → n ≤ u64_max
    → ends_number rest ≡ true
    → read_entry f (text "\"memory_mib\":" ++ (number 20 n ++ rest))
      ≡ ok (record f { memory_mib = some n }, rest)
unfolding expect skip_ws until_quote read_field bytes_eq
read-memory_mib f n rest small ends =
    rw
      (
        skip_ws-number 19 n rest (omega (arith, small)),
        null-number 19 n rest (omega (arith, small)),
        u64_value-number n rest small ends,
      )
      refl

pub read-boot_blob_crc32c :
    (f : Fields) (n : ℕ) (rest : Bytes)
    → n ≤ u32_max
    → ends_number rest ≡ true
    → read_entry f (text "\"boot_blob_crc32c\":" ++ (number 10 n ++ rest))
      ≡ ok (record f { boot_blob_crc32c = some n }, rest)
unfolding expect skip_ws until_quote read_field bytes_eq
read-boot_blob_crc32c f n rest small ends =
    rw
      (
        skip_ws-number 9 n rest (omega (arith, small)),
        null-number 9 n rest (omega (arith, small)),
        u32_value-number n rest small ends,
      )
      refl

pub read-op :
    (f : Fields) (s rest : Bytes)
    → all is_plain s ≡ true
    → read_entry f (text "\"op\":\"" ++ (s ++ 34 ∷ rest)) ≡ ok (record f { op = some s }, rest)
unfolding expect skip_ws until_quote read_field bytes_eq
read-op f s rest plain = rw (until_quote-append s rest plain) refl
