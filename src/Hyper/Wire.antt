-- ===== src/Hyper/Wire.antt =====
-- crates/celhyper/src/wire.rs: the requests and the replies of the kernel, and the encoder. A fixed
-- buffer with its length is its valid prefix.
pub mod Fits
use celium.Prelude.{
  ℕ, Bool, true, false, Option, none, some, List, [], ◌∷◌, ltb, leb, eqb, length, take,
  if◌then◌else◌,
}
use celium.Prelude.Key.{Bytes}
use celium.Prelude.Text.{text}
use celium.Hyper.Error.{HyperResult}
use celium.Hyper.Writer.{Put, ◌▸◌, nothing, put_u8, put_str, put_u32, put_u64}

abbrev pub label_max : ℕ
label_max = 32

abbrev pub image_path_max : ℕ
image_path_max = 128

abbrev pub error_msg_max : ℕ
error_msg_max = 96

abbrev pub rows_max : ℕ
rows_max = 4

-- `LabelBuf`, `ImagePathBuf` and `ErrorBuf`.
abbrev pub LabelBuf : Type 0
LabelBuf = Bytes

abbrev pub ImagePathBuf : Type 0
ImagePathBuf = Bytes

abbrev pub ErrorBuf : Type 0
ErrorBuf = Bytes

unfoldable pub label_from_slice : Bytes → Option LabelBuf
label_from_slice src = if ltb label_max (length src) then none else some src

unfoldable pub path_from_slice : Bytes → Option ImagePathBuf
path_from_slice src = if ltb image_path_max (length src) then none else some src

unfoldable pub from_slice_truncating : Bytes → ErrorBuf
from_slice_truncating src =
    if ltb error_msg_max (length src) then take error_msg_max src else take (length src) src

pub data StateTag : Type 0 where
  created running halted stopped faulted : StateTag

abbrev pub as_str : StateTag → Bytes
as_str created = text "created"
as_str running = text "running"
as_str halted = text "halted"
as_str stopped = text "stopped"
as_str faulted = text "faulted"

pub record Row : Type 0 where
  pub vm_id : ℕ
  pub label : LabelBuf
  pub state : StateTag
  pub last_exit : Option ℕ
  pub image_path : ImagePathBuf
  pub cpu_count : Option ℕ
  pub memory_mib : Option ℕ
  pub boot_blob_crc32c : Option ℕ

pub data Reply : Type 0 where
  created_vm : ℕ → Reply
  state_of : ℕ → StateTag → Option ℕ → Reply
  deleted : ℕ → Reply
  listed : List (Option Row) → Reply
  image_loaded : ℕ → ℕ → Reply
  error : ErrorBuf → Reply

module _ (cap : ℕ) where
  -- `if let Some(n) = o { w.put_str(key)?; w.put_u32(n)?; }`, and with `put_u64`.
  abbrev pub put_field32 : Bytes → Option ℕ → Put
  put_field32 key none = nothing
  put_field32 key (some n) = put_str cap key ▸ put_u32 cap n

  abbrev pub put_field64 : Bytes → Option ℕ → Put
  put_field64 key none = nothing
  put_field64 key (some n) = put_str cap key ▸ put_u64 cap n

  abbrev pub put_image_path : ImagePathBuf → Put
  put_image_path [] = nothing
  put_image_path (b ∷ bs) =
      put_str cap (text ",\"image_path\":\"") ▸ put_str cap (b ∷ bs) ▸ put_u8 cap 34

  abbrev pub put_row : Row → Put
  put_row row =
      put_str cap (text "{\"vm_id\":")
      ▸ put_u32 cap row.vm_id
      ▸ put_str cap (text ",\"label\":\"")
      ▸ put_str cap row.label
      ▸ put_str cap (text "\",\"state\":\"")
      ▸ put_str cap (as_str row.state)
      ▸ put_u8 cap 34
      ▸ put_field32 (text ",\"last_exit\":") row.last_exit
      ▸ put_image_path row.image_path
      ▸ put_field32 (text ",\"cpu_count\":") row.cpu_count
      ▸ put_field64 (text ",\"memory_mib\":") row.memory_mib
      ▸ put_field32 (text ",\"boot_blob_crc32c\":") row.boot_blob_crc32c
      ▸ put_u8 cap 125

  -- The rows that are there, with a comma before each but the first.
  unfoldable pub put_rows : Bool → List (Option Row) → Put
  put_rows first [] = nothing
  put_rows first (none ∷ rows) = put_rows first rows
  put_rows first (some row ∷ rows) =
      (if first then nothing else put_u8 cap 44) ▸ put_row row ▸ put_rows false rows

  -- A byte of an error's message: quotes and backslashes escaped, control bytes dropped.
  abbrev pub put_escaped : ℕ → Put
  put_escaped b =
      if eqb b 34
      then put_str cap (92 ∷ 34 ∷ [])
      else if eqb b 92
      then put_str cap (92 ∷ 92 ∷ [])
      else if leb b 31
      then nothing
      else put_u8 cap b

  unfoldable pub put_message : Bytes → Put
  put_message [] = nothing
  put_message (b ∷ bs) = put_escaped b ▸ put_message bs

  unfoldable pub put_reply : Reply → Put
  put_reply (created_vm vm_id) =
      put_str cap (text "{\"reply\":\"created\",\"vm_id\":") ▸ put_u32 cap vm_id ▸ put_u8 cap 125
  put_reply (state_of vm_id state last_exit) =
      put_str cap (text "{\"reply\":\"state\",\"vm_id\":")
      ▸ put_u32 cap vm_id
      ▸ put_str cap (text ",\"state\":\"")
      ▸ put_str cap (as_str state)
      ▸ put_u8 cap 34
      ▸ put_field32 (text ",\"last_exit\":") last_exit
      ▸ put_u8 cap 125
  put_reply (deleted vm_id) =
      put_str cap (text "{\"reply\":\"deleted\",\"vm_id\":") ▸ put_u32 cap vm_id ▸ put_u8 cap 125
  put_reply (listed rows) =
      put_str cap (text "{\"reply\":\"listed\",\"rows\":[")
      ▸ put_rows true rows
      ▸ put_str cap (text "]}")
  put_reply (image_loaded len crc32c) =
      put_str cap (text "{\"reply\":\"image_loaded\",\"len\":")
      ▸ put_u32 cap len
      ▸ put_str cap (text ",\"crc32c\":")
      ▸ put_u32 cap crc32c
      ▸ put_u8 cap 125
  put_reply (error message) =
      put_str cap (text "{\"reply\":\"error\",\"message\":\"")
      ▸ put_message message
      ▸ put_str cap (text "\"}")

-- The bytes that are written into a buffer of `cap` bytes; the code returns their number.
unfoldable pub encode_reply : ℕ → Reply → HyperResult Bytes
encode_reply cap reply = (put_reply cap reply ▸ put_u8 cap 10) []
