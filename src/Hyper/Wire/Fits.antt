-- ===== src/Hyper/Wire/Fits.antt =====
-- Every reply of crates/celhyper/src/wire.rs fits into the buffer of the bridge,
-- crates/celhyper/src/bridge.rs.
use celium.Prelude.{
  ℕ, suc, ◌+◌, ◌*◌, ◌≤◌, ◌≡◌, Bool, true, false, Option, none, some, List, [], ◌∷◌, arith, inl, inr,
  Bool-cases, All, length, eqb, leb, if◌then◌else◌,
}
use celium.Prelude.Key.{Bytes}
use celium.Prelude.Text.{text}
use celium.Hyper.Error.{ok}
use celium.Hyper.Writer.{
  Put, ◌▸◌, nothing, put_u8, put_str, put_u32, put_u64, number, length-number, Adds, Adds-nothing,
  Adds-put_u8, Adds-put_str, Adds-then, Adds-more,
}
use celium.Hyper.Wire.{
  StateTag, created, running, halted, stopped, faulted, as_str, Row, Reply, created_vm, state_of,
  deleted, listed, image_loaded, error, label_max, image_path_max, error_msg_max, rows_max,
  put_field32, put_field64, put_image_path, put_row, put_rows, put_escaped, put_message, put_reply,
  encode_reply,
}

-- `TX_CAP`
abbrev pub tx_cap : ℕ
tx_cap = 2048

-- The sizes of the buffers of a row and of a reply.
abbrev pub IsRow : Option Row → Type 0
IsRow none = Unit
IsRow (some row) = (length row.label ≤ label_max) × (length row.image_path ≤ image_path_max)

abbrev pub IsReply : Reply → Type 0
IsReply (listed rows) = (length rows ≤ rows_max) × All IsRow rows
IsReply (error message) = length message ≤ error_msg_max
IsReply _ = Unit

length-as_str : (s : StateTag) → length (as_str s) ≤ 7
length-as_str created = omega arith
length-as_str running = omega arith
length-as_str halted = omega arith
length-as_str stopped = omega arith
length-as_str faulted = omega arith

module _ (cap : ℕ) where
  Adds-put_u32 : (n : ℕ) → Adds cap 10 (put_u32 cap n)
  Adds-put_u32 n = Adds-put_str cap (number 10 n) 10 (length-number 10 n (omega arith))

  Adds-put_u64 : (n : ℕ) → Adds cap 20 (put_u64 cap n)
  Adds-put_u64 n = Adds-put_str cap (number 20 n) 20 (length-number 20 n (omega arith))

  Adds-put_field32 :
      (key : Bytes) (k : ℕ) (o : Option ℕ)
      → length key ≤ k
      → Adds cap (k + 10) (put_field32 cap key o)
  Adds-put_field32 key k none short =
      Adds-more cap nothing 0 (k + 10) (omega arith) (Adds-nothing cap)
  Adds-put_field32 key k (some n) short =
      Adds-then cap (put_str cap key) (put_u32 cap n) k 10 (Adds-put_str cap key k short)
        (Adds-put_u32 n)

  Adds-put_field64 :
      (key : Bytes) (k : ℕ) (o : Option ℕ)
      → length key ≤ k
      → Adds cap (k + 20) (put_field64 cap key o)
  Adds-put_field64 key k none short =
      Adds-more cap nothing 0 (k + 20) (omega arith) (Adds-nothing cap)
  Adds-put_field64 key k (some n) short =
      Adds-then cap (put_str cap key) (put_u64 cap n) k 20 (Adds-put_str cap key k short)
        (Adds-put_u64 n)

  -- A text of at most `k` bytes, and what follows.
  Adds-text :
      (s : Bytes) (g : Put) (k m : ℕ)
      → length s ≤ k
      → Adds cap m g
      → Adds cap (k + m) (put_str cap s ▸ g)
  Adds-text s g k m short rest =
      Adds-then cap (put_str cap s) g k m (Adds-put_str cap s k short) rest

  Adds-number : (n : ℕ) (g : Put) (m : ℕ) → Adds cap m g → Adds cap (10 + m) (put_u32 cap n ▸ g)
  Adds-number n g m rest = Adds-then cap (put_u32 cap n) g 10 m (Adds-put_u32 n) rest

  Adds-byte : (b : ℕ) (g : Put) (m : ℕ) → Adds cap m g → Adds cap (1 + m) (put_u8 cap b ▸ g)
  Adds-byte b g m rest = Adds-then cap (put_u8 cap b) g 1 m (Adds-put_u8 cap b) rest

  Adds-put_escaped : (b : ℕ) → Adds cap 2 (put_escaped cap b)
  Adds-put_escaped b = elim (Bool-cases (eqb b 34)) [
    | inl quote ↦ rw quote (Adds-put_str cap (92 ∷ 34 ∷ []) 2 (omega arith))
    | inr other ↦ elim (Bool-cases (eqb b 92)) [
      | inl slash ↦ rw (other, slash) (Adds-put_str cap (92 ∷ 92 ∷ []) 2 (omega arith))
      | inr plain ↦ elim (Bool-cases (leb b 31)) [
        | inl control ↦
            rw (other, plain, control) (Adds-more cap nothing 0 2 (omega arith) (Adds-nothing cap))
        | inr visible ↦
            rw (other, plain, visible)
              (Adds-more cap (put_u8 cap b) 1 2 (omega arith) (Adds-put_u8 cap b))
      ]
    ]
  ]

  Adds-put_message : (bs : Bytes) → Adds cap (2 * length bs) (put_message cap bs)
  unfolding put_message
  Adds-put_message [] = Adds-more cap nothing 0 0 (omega arith) (Adds-nothing cap)
  Adds-put_message (b ∷ bs) =
      Adds-more cap (put_escaped cap b ▸ put_message cap bs) (2 + 2 * length bs)
        (2 * length (b ∷ bs)) (omega arith)
        (Adds-then cap (put_escaped cap b) (put_message cap bs) 2 (2 * length bs)
          (Adds-put_escaped b) (Adds-put_message bs))

  Adds-put_image_path :
      (p : Bytes) → length p ≤ image_path_max → Adds cap 144 (put_image_path cap p)
  Adds-put_image_path [] short = Adds-more cap nothing 0 144 (omega arith) (Adds-nothing cap)
  Adds-put_image_path (b ∷ bs) short =
      Adds-text (text ",\"image_path\":\"") _ 15 129 (omega arith)
        (Adds-text (b ∷ bs) _ 128 1 short (Adds-put_u8 cap 34))

  Adds-fields :
      (row : Row)
      → length row.image_path ≤ image_path_max
      → Adds cap 255 (
          put_field32 cap (text ",\"last_exit\":") row.last_exit
          ▸ put_image_path cap row.image_path
          ▸ put_field32 cap (text ",\"cpu_count\":") row.cpu_count
          ▸ put_field64 cap (text ",\"memory_mib\":") row.memory_mib
          ▸ put_field32 cap (text ",\"boot_blob_crc32c\":") row.boot_blob_crc32c
          ▸ put_u8 cap 125)
  Adds-fields row path =
      Adds-then cap _ _ 23 232
        (Adds-put_field32 (text ",\"last_exit\":") 13 row.last_exit (omega arith))
        (Adds-then cap _ _ 144 88 (Adds-put_image_path row.image_path path) (
          Adds-then cap _ _ 23 65
            (Adds-put_field32 (text ",\"cpu_count\":") 13 row.cpu_count (omega arith))
            (Adds-then cap _ _ 34 31
              (Adds-put_field64 (text ",\"memory_mib\":") 14 row.memory_mib (omega arith))
              (Adds-then cap _ _ 30 1
                (Adds-put_field32 (text ",\"boot_blob_crc32c\":") 20 row.boot_blob_crc32c
                  (omega arith))
                (Adds-put_u8 cap 125)))))

  Adds-put_row :
      (row : Row)
      → length row.label ≤ label_max
      → length row.image_path ≤ image_path_max
      → Adds cap 335 (put_row cap row)
  Adds-put_row row label path = Adds-text (text "{\"vm_id\":") _ 9 326 (omega arith) (
      Adds-number row.vm_id _ 316 (
        Adds-text (text ",\"label\":\"") _ 10 306 (omega arith) (
          Adds-text row.label _ 32 274 label (
            Adds-text (text "\",\"state\":\"") _ 11 263 (omega arith) (
              Adds-text (as_str row.state) _ 7 256 (length-as_str row.state)
                (Adds-byte 34 _ 255 (Adds-fields row path)))))))

  Adds-comma : (first : Bool) → Adds cap 1 (if first then nothing else put_u8 cap 44)
  Adds-comma true = Adds-more cap nothing 0 1 (omega arith) (Adds-nothing cap)
  Adds-comma false = Adds-put_u8 cap 44

  Adds-put_rows :
      (first : Bool) (rows : List (Option Row))
      → All IsRow rows
      → Adds cap (336 * length rows) (put_rows cap first rows)
  unfolding put_rows
  Adds-put_rows first [] h = Adds-more cap nothing 0 0 (omega arith) (Adds-nothing cap)
  Adds-put_rows first (none ∷ rows) h =
      Adds-more cap (put_rows cap first rows) (336 * length rows) (336 * suc (length rows))
        (omega arith) (Adds-put_rows first rows h.1)
  Adds-put_rows first (some row ∷ rows) h =
      Adds-more cap _ (1 + (335 + 336 * length rows)) (336 * suc (length rows)) (omega arith) (
        Adds-then cap (if first then nothing else put_u8 cap 44) _ 1 (335 + 336 * length rows)
          (Adds-comma first)
          (Adds-then cap (put_row cap row) (put_rows cap false rows) 335 (336 * length rows)
            (Adds-put_row row h.0.0 h.0.1) (Adds-put_rows false rows h.1)))

  Adds-put_reply : (r : Reply) → IsReply r → Adds cap 1400 (put_reply cap r)
  unfolding put_reply
  Adds-put_reply (created_vm vm_id) h =
      Adds-more cap _ (27 + (10 + 1)) 1400 (omega arith)
        (Adds-text _ _ 27 11 (omega arith) (Adds-number vm_id _ 1 (Adds-put_u8 cap 125)))
  Adds-put_reply (state_of vm_id state last_exit) h =
      Adds-more cap _ (25 + (10 + (10 + (7 + (1 + (23 + 1)))))) 1400 (omega arith) (
        Adds-text _ _ 25 52 (omega arith) (
          Adds-number vm_id _ 42 (
            Adds-text _ _ 10 32 (omega arith) (
              Adds-text _ _ 7 25 (length-as_str state) (
                Adds-byte 34 _ 24 (
                  Adds-then cap _ _ 23 1
                    (Adds-put_field32 (text ",\"last_exit\":") 13 last_exit (omega arith))
                    (Adds-put_u8 cap 125)))))))
  Adds-put_reply (deleted vm_id) h =
      Adds-more cap _ (27 + (10 + 1)) 1400 (omega arith)
        (Adds-text _ _ 27 11 (omega arith) (Adds-number vm_id _ 1 (Adds-put_u8 cap 125)))
  Adds-put_reply (listed rows) h =
      Adds-more cap _ (26 + (336 * length rows + 2)) 1400 (omega (arith, h.0)) (
        Adds-text _ _ 26 (336 * length rows + 2) (omega arith) (
          Adds-then cap _ _ (336 * length rows) 2 (Adds-put_rows true rows h.1)
            (Adds-put_str cap (text "]}") 2 (omega arith))))
  Adds-put_reply (image_loaded len crc32c) h =
      Adds-more cap _ (31 + (10 + (10 + (10 + 1)))) 1400 (omega arith) (
        Adds-text _ _ 31 31 (omega arith) (
          Adds-number len _ 21
            (Adds-text _ _ 10 11 (omega arith) (Adds-number crc32c _ 1 (Adds-put_u8 cap 125)))))
  Adds-put_reply (error message) h =
      Adds-more cap _ (28 + (2 * length message + 2)) 1400 (omega (arith, h)) (
        Adds-text _ _ 28 (2 * length message + 2) (omega arith) (
          Adds-then cap _ _ (2 * length message) 2 (Adds-put_message message)
            (Adds-put_str cap (text "\"}") 2 (omega arith))))

-- Every reply, with at most four rows and buffers of their sizes, is encoded without an error
-- into the 2048 bytes of the bridge's buffer.
pub encode_reply-fits :
    (r : Reply)
    → IsReply r
    → (bytes : Bytes) × (encode_reply tx_cap r ≡ ok bytes) × (length bytes ≤ tx_cap)
unfolding encode_reply
encode_reply-fits r h =
    let (bytes, done, small) =
      Adds-then tx_cap (put_reply tx_cap r) (put_u8 tx_cap 10) 1400 1 (Adds-put_reply tx_cap r h)
        (Adds-put_u8 tx_cap 10) [] (omega arith) in
    (bytes, done, omega (arith, small))
