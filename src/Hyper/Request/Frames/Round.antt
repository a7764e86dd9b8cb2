-- ===== src/Hyper/Request/Frames/Round.antt =====
-- `decode_request` of crates/celhyper/src/wire.rs reads every request of the documented shape.
use celium.Prelude.{
  ℕ, suc, ◌*◌, ◌≤◌, ◌≡◌, refl, ap, ◌∙◌, true, false, Option, none, some, [], ◌∷◌, ◌++◌, arith,
  length, all, ltb, eqb,
}
use celium.Prelude.Key.{Bytes, bytes_eq}
use celium.Prelude.Text.{text}
use celium.Prelude.Words.{u32_max, u64_max}
use celium.Hyper.Error.{ok}
use celium.Hyper.Writer.{number}
use celium.Hyper.Wire.{label_max, image_path_max}
use celium.Hyper.Scanner.{expect, skip_ws}
use celium.Hyper.Scanner.Laws.{is_plain}
use celium.Hyper.Request.{Request, create, start, stop, delete, list, image_load, Fields, no_fields}
use celium.Hyper.Request.Decode.{finish, request_of, decode_request}
use celium.Hyper.Request.Frames.{
  create_tail, frame, Decodes, Ends, comma, brace, Ends-ends_number, Decodes-entry, read-op,
  read-label, read-vm_id, read-image_path, read-cpu_count, read-memory_mib, read-boot_blob_crc32c,
  read-len, read-crc32c, read-bytes_hex,
}

-- A text of at most so many bytes without quotes and backslashes.
abbrev pub IsText : ℕ → Bytes → Type 0
IsText largest s = (all is_plain s ≡ true) × (length s ≤ largest)

abbrev pub IsOptional : {A : Type 0} → (A → Type 0) → Option A → Type 0
IsOptional P none = Unit
IsOptional P (some a) = P a

-- The requests that the shape can carry: numbers of their types, texts within their limits.
abbrev pub IsRequest : Request → Type 0
IsRequest (create label path cpus memory crc) =
    IsText label_max label
    × IsOptional (IsText image_path_max) path
    × IsOptional (λ n. n ≤ u32_max) cpus
    × IsOptional (λ n. n ≤ u64_max) memory
    × IsOptional (λ n. n ≤ u32_max) crc
IsRequest (start i) = i ≤ u32_max
IsRequest (stop i) = i ≤ u32_max
IsRequest (delete i) = i ≤ u32_max
IsRequest list = Unit
IsRequest (image_load len crc hex) =
    (len ≤ u32_max) × (crc ≤ u32_max) × (all is_plain hex ≡ true) × (length hex ≡ 2 * len)

abbrev op_fields : Bytes → Fields
op_fields op = record no_fields { op = some op }

abbrev id_fields : Bytes → ℕ → Fields
id_fields op i = record no_fields { op = some op; vm_id = some i }

abbrev create_fields : Bytes → Option Bytes → Option ℕ → Option ℕ → Option ℕ → Fields
create_fields label path cpus memory crc = record no_fields {
  op = some (text "create");
  label = some label;
  image_path = path;
  cpu_count = cpus;
  memory_mib = memory;
  boot_blob_crc32c = crc;
}

module _ (label : Bytes) where
  Ends-crc :
      (path : Option Bytes) (cpus memory crc : Option ℕ)
      → IsOptional (λ n. n ≤ u32_max) crc
      → Ends
          (create_fields label path cpus memory none)
          (create_tail none none none crc)
          (create_fields label path cpus memory crc)
  Ends-crc path cpus memory none h = brace _
  Ends-crc path cpus memory (some n) h =
      comma _ _ _ (Decodes-entry _ _ _ _ _ (read-boot_blob_crc32c _ n (text "}") h refl) (brace _))

  Ends-memory :
      (path : Option Bytes) (cpus memory crc : Option ℕ)
      → IsOptional (λ n. n ≤ u64_max) memory
      → IsOptional (λ n. n ≤ u32_max) crc
      → Ends
          (create_fields label path cpus none none)
          (create_tail none none memory crc)
          (create_fields label path cpus memory crc)
  Ends-memory path cpus none crc h k = Ends-crc path cpus none crc k
  Ends-memory path cpus (some n) crc h k =
      let rest = Ends-crc path cpus (some n) crc k in
      comma _ _ _
        (Decodes-entry _ _ _ _ _ (read-memory_mib _ n _ h (Ends-ends_number _ _ _ rest)) rest)

  Ends-cpus :
      (path : Option Bytes) (cpus memory crc : Option ℕ)
      → IsOptional (λ n. n ≤ u32_max) cpus
      → IsOptional (λ n. n ≤ u64_max) memory
      → IsOptional (λ n. n ≤ u32_max) crc
      → Ends
          (create_fields label path none none none)
          (create_tail none cpus memory crc)
          (create_fields label path cpus memory crc)
  Ends-cpus path none memory crc g h k = Ends-memory path none memory crc h k
  Ends-cpus path (some n) memory crc g h k =
      let rest = Ends-memory path (some n) memory crc h k in
      comma _ _ _
        (Decodes-entry _ _ _ _ _ (read-cpu_count _ n _ g (Ends-ends_number _ _ _ rest)) rest)

  Ends-path :
      (path : Option Bytes) (cpus memory crc : Option ℕ)
      → IsOptional (IsText image_path_max) path
      → IsOptional (λ n. n ≤ u32_max) cpus
      → IsOptional (λ n. n ≤ u64_max) memory
      → IsOptional (λ n. n ≤ u32_max) crc
      → Ends
          (create_fields label none none none none)
          (create_tail path cpus memory crc)
          (create_fields label path cpus memory crc)
  Ends-path none cpus memory crc f g h k = Ends-cpus none cpus memory crc g h k
  Ends-path (some p) cpus memory crc f g h k = comma _ _ _ (
      Decodes-entry _ _ _ _ _ (read-image_path _ p _ f.0)
        (Ends-cpus (some p) cpus memory crc g h k))

decode_request-Decodes :
    (s : Bytes) (g : Fields) → Decodes no_fields s g → decode_request (123 ∷ s) ≡ some (finish g [])
unfolding decode_request expect
decode_request-Decodes s g d = rw (d (suc (length s)) (omega arith)) refl

id_Decodes :
    (op : Bytes) (i : ℕ)
    → all is_plain op ≡ true
    → i ≤ u32_max
    → Decodes no_fields
        (text "\"op\":\"" ++ (op ++ (text "\",\"vm_id\":" ++ (number 10 i ++ text "}"))))
        (id_fields op i)
id_Decodes op i plain small =
    Decodes-entry no_fields (op_fields op) (id_fields op i) _ _ (read-op no_fields op _ plain) (
      comma _ _ _ (
        Decodes-entry (op_fields op) (id_fields op i) (id_fields op i) _ _
          (read-vm_id (op_fields op) i (text "}") small refl) (brace _)))

abbrev image_fields : ℕ → ℕ → Bytes → Fields
image_fields len crc hex = record no_fields {
  op = some (text "image_load");
  len = some len;
  crc32c = some crc;
  bytes_hex = some hex;
}

within : (largest n : ℕ) → n ≤ largest → ltb largest n ≡ false
within largest n h = ground (arith, h)

finish-create :
    (label : Bytes) (path : Option Bytes) (cpus memory crc : Option ℕ)
    → length label ≤ label_max
    → IsOptional (IsText image_path_max) path
    → finish (create_fields label path cpus memory crc) [] ≡ ok (create label path cpus memory crc)
unfolding finish request_of skip_ws bytes_eq
finish-create label none cpus memory crc short h = rw (within label_max (length label) short) refl
finish-create label (some p) cpus memory crc short h =
    rw (within label_max (length label) short, within image_path_max (length p) h.1) refl

same_length : (m n : ℕ) → m ≡ n → eqb m n ≡ true
same_length m n h = ground (arith, h)

-- A request in the documented shape, with its optional fields left out where they have no value,
-- its numbers within their types and its texts without quotes and backslashes and within their
-- limits, is decoded as that request.
pub decode_request-frame : (r : Request) → IsRequest r → decode_request (frame r) ≡ some (ok r)
unfolding finish request_of skip_ws bytes_eq
decode_request-frame (create label path cpus memory crc) (t, p, c, m, k) =
    decode_request-Decodes _ (create_fields label path cpus memory crc) (
      Decodes-entry _ _ _ _ _ (read-op no_fields (text "create") _ refl) (
        comma _ _ _ (
          Decodes-entry _ _ _ _ _ (read-label _ label _ t.0)
            (Ends-path label path cpus memory crc p c m k))))
    ∙ ap some (finish-create label path cpus memory crc t.1 p)
decode_request-frame (start i) h =
    decode_request-Decodes _ (id_fields (text "start") i) (id_Decodes (text "start") i refl h)
decode_request-frame (stop i) h =
    decode_request-Decodes _ (id_fields (text "stop") i) (id_Decodes (text "stop") i refl h)
decode_request-frame (delete i) h =
    decode_request-Decodes _ (id_fields (text "delete") i) (id_Decodes (text "delete") i refl h)
decode_request-frame list h =
    decode_request-Decodes _ (op_fields (text "list"))
      (Decodes-entry _ _ _ _ _ (read-op no_fields (text "list") _ refl) (brace _))
decode_request-frame (image_load len crc hex) (l, c, p, same) =
    decode_request-Decodes _ (image_fields len crc hex) (
      Decodes-entry _ _ _ _ _ (read-op no_fields (text "image_load") _ refl) (
        comma _ _ _ (
          Decodes-entry _ _ _ _ _ (read-len _ len _ l refl) (
            comma _ _ _ (
              Decodes-entry _ _ _ _ _ (read-crc32c _ crc _ c refl) (
                comma _ _ _
                  (Decodes-entry _ _ _ _ _ (read-bytes_hex _ hex (text "}") p) (brace _))))))))
    ∙ rw (same_length (length hex) (2 * len) same) refl
