-- ===== src/Hyper/Request.antt =====
-- `Request`, and the fields that `decode_request` of crates/celhyper/src/wire.rs collects.
pub mod Decode
pub mod Total
pub mod Limits
pub mod Frames
use celium.Prelude.{
  ℕ, zero, suc, ◌+◌, ◌*◌, ◌≡◌, refl, Bool, true, false, Option, none, some, List, [], ◌∷◌, ltb, leb,
  eqb, length, if◌then◌else◌, String,
}
use celium.Prelude.Key.{Bytes, bytes_eq}
use celium.Prelude.Text.{text}
use celium.Hyper.Error.{HyperResult, ok, err, invalid, ◌>>=◌, ◌>>◌, refuse_if}
use celium.Hyper.Wire.{label_max, image_path_max}
use celium.Hyper.Scanner.{Read, expect, skip_ws, string, u32_value, u64_value, nullable, skip_value}

pub data Request : Type 0 where
  create : Bytes → Option Bytes → Option ℕ → Option ℕ → Option ℕ → Request
  start stop delete : ℕ → Request
  list : Request
  image_load : ℕ → ℕ → Bytes → Request

-- The local variables of `decode_request`.
pub record Fields : Type 0 where
  pub op : Option Bytes
  pub label : Option Bytes
  pub vm_id : Option ℕ
  pub image_path : Option Bytes
  pub cpu_count : Option ℕ
  pub memory_mib : Option ℕ
  pub boot_blob_crc32c : Option ℕ
  pub len : Option ℕ
  pub crc32c : Option ℕ
  pub bytes_hex : Option Bytes

abbrev pub no_fields : Fields
no_fields = record {
  op = none;
  label = none;
  vm_id = none;
  image_path = none;
  cpu_count = none;
  memory_mib = none;
  boot_blob_crc32c = none;
  len = none;
  crc32c = none;
  bytes_hex = none;
}

-- A read after `skip_ws`, and what it does with the value.
abbrev pub assign : {A : Type 0} → Read A → (A → Fields) → Read Fields
assign read set s = read (skip_ws s) >>= λ p. ok (set p.0, p.1)

-- The match on the key.
unfoldable pub read_field : Bytes → Fields → Read Fields
read_field key f s =
    if bytes_eq key (text "op")
    then assign string (λ v. record f { op = some v }) s
    else if bytes_eq key (text "label")
    then assign string (λ v. record f { label = some v }) s
    else if bytes_eq key (text "vm_id")
    then assign u32_value (λ v. record f { vm_id = some v }) s
    else if bytes_eq key (text "image_path")
    then assign (nullable string) (λ v. record f { image_path = v }) s
    else if bytes_eq key (text "cpu_count")
    then assign (nullable u32_value) (λ v. record f { cpu_count = v }) s
    else if bytes_eq key (text "memory_mib")
    then assign (nullable u64_value) (λ v. record f { memory_mib = v }) s
    else if bytes_eq key (text "boot_blob_crc32c")
    then assign (nullable u32_value) (λ v. record f { boot_blob_crc32c = v }) s
    else if bytes_eq key (text "len")
    then assign u32_value (λ v. record f { len = some v }) s
    else if bytes_eq key (text "crc32c")
    then assign u32_value (λ v. record f { crc32c = some v }) s
    else if bytes_eq key (text "bytes_hex")
    then assign string (λ v. record f { bytes_hex = some v }) s
    else (skip_value s >>= λ rest. ok (f, rest))

-- A key, its colon and its value.
abbrev pub read_entry : Fields → Read Fields
read_entry f s = string s >>= λ p. expect 58 (skip_ws p.1) >>= λ rest. read_field p.0 f rest
