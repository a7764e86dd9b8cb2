-- ===== src/Hyper/Request/Total.antt =====
-- The loop of `decode_request`, crates/celhyper/src/wire.rs, ends on every frame.
use celium.Prelude.{
  ℕ, zero, suc, ◌≤◌, ◌<◌, ◌≡◌, refl, sym, ap, Bool, true, false, some, [], ◌∷◌, arith, inl, inr,
  ◌⊎◌, Bool-cases, length, eqb, if◌then◌else◌,
}
use celium.Prelude.Key.{Bytes, bytes_eq}
use celium.Prelude.Text.{text}
use celium.Hyper.Error.{HyperResult, ok, err, ◌>>=◌, HyperResult-cases, ok_inj}
use celium.Hyper.Scanner.{Read, expect, skip_ws, string, u32_value, u64_value, nullable, skip_value}
use celium.Hyper.Scanner.Laws.Remains.{
  Shrinks, Shrinks-string, Shrinks-u32_value, Shrinks-u64_value, Shrinks-nullable, length-skip_ws,
  length-expect, length-string, length-skip_value,
}
use celium.Hyper.Request.{Request, Fields, no_fields, assign, read_field, read_entry}
use celium.Hyper.Request.Decode.{
  Turn, more, finished, starts, after_entry, turn, decode_loop, finish, decode_request,
}

Shrinks-assign :
    {A : Type 0} (read : Read A) (set : A → Fields) → Shrinks read → Shrinks (assign read set)
Shrinks-assign read set h s a rest e = elim (HyperResult-cases (read (skip_ws s))) [
  | inl (p, f) ↦
      let inside = h (skip_ws s) p.0 p.1 f in
      let blank = length-skip_ws s in
      rw (sym (ap (λ q. q.1) (ok_inj (rw f at e)))) (omega (arith, inside, blank))
  | inr (x, f) ↦ absurd (cc (rw f at e))
]

Shrinks-if :
    {A : Type 0} (b : Bool) (f g : Read A)
    → Shrinks f
    → Shrinks g
    → Shrinks (λ s. if b then f s else g s)
Shrinks-if true f g h k = h
Shrinks-if false f g h k = k

Shrinks-skip_value : (f : Fields) → Shrinks (λ s. skip_value s >>= λ rest. ok (f, rest))
Shrinks-skip_value f s a rest e = elim (HyperResult-cases (skip_value s)) [
  | inl (t, h) ↦ rw (sym (ap (λ q. q.1) (ok_inj (rw h at e)))) (length-skip_value s t h)
  | inr (x, h) ↦ absurd (cc (rw h at e))
]

Shrinks-read_field : (key : Bytes) (f : Fields) → Shrinks (read_field key f)
unfolding read_field
Shrinks-read_field key f =
    Shrinks-if (bytes_eq key (text "op")) _ _ (Shrinks-assign string _ Shrinks-string) (
      Shrinks-if (bytes_eq key (text "label")) _ _ (Shrinks-assign string _ Shrinks-string) (
        Shrinks-if (bytes_eq key (text "vm_id")) _ _ (Shrinks-assign u32_value _ Shrinks-u32_value)
          (Shrinks-if (bytes_eq key (text "image_path")) _ _
            (Shrinks-assign (nullable string) _ (Shrinks-nullable string Shrinks-string))
            (Shrinks-if (bytes_eq key (text "cpu_count")) _ _
              (Shrinks-assign (nullable u32_value) _ (Shrinks-nullable u32_value Shrinks-u32_value))
              (Shrinks-if (bytes_eq key (text "memory_mib")) _ _
                (Shrinks-assign (nullable u64_value) _
                  (Shrinks-nullable u64_value Shrinks-u64_value))
                (Shrinks-if (bytes_eq key (text "boot_blob_crc32c")) _ _
                  (Shrinks-assign (nullable u32_value) _
                    (Shrinks-nullable u32_value Shrinks-u32_value))
                  (Shrinks-if (bytes_eq key (text "len")) _ _
                    (Shrinks-assign u32_value _ Shrinks-u32_value)
                    (Shrinks-if (bytes_eq key (text "crc32c")) _ _
                      (Shrinks-assign u32_value _ Shrinks-u32_value)
                      (Shrinks-if (bytes_eq key (text "bytes_hex")) _ _
                        (Shrinks-assign string _ Shrinks-string) (Shrinks-skip_value f))))))))))

length-read_entry :
    (f g : Fields) (s rest : Bytes) → read_entry f s ≡ ok (g, rest) → length rest < length s
length-read_entry f g s rest e = elim (HyperResult-cases (string s)) [
  | inl (p, h) ↦ elim (HyperResult-cases (expect 58 (skip_ws p.1))) [
    | inl (t, k) ↦
        let key = length-string s p.0 p.1 h in
        let blank = length-skip_ws p.1 in
        let colon = length-expect 58 (skip_ws p.1) t k in
        let field = Shrinks-read_field p.0 f t g rest (rw (h, k) at e) in
        omega (arith, key, blank, colon, field)
    | inr (x, k) ↦ absurd (cc (rw (h, k) at e))
  ]
  | inr (x, h) ↦ absurd (cc (rw h at e))
]

length-after_entry :
    (f g : Fields) (s rest : Bytes) → after_entry f s ≡ more g rest → length rest ≤ length s
length-after_entry f g [] rest e = absurd (cc e)
length-after_entry f g (b ∷ s) rest e = elim (Bool-cases (eqb b 44)) [
  | inl comma ↦ rw (sym (more_inj (rw comma at e))) (omega arith)
  | inr other ↦ absurd (cc (rw other at e))
]
  where
    more_inj : {f g : Fields} {s t : Bytes} → more f s ≡ more g t → s ≡ t
    more_inj e = cc

-- A turn that goes on has read a byte.
pub length-turn : (f g : Fields) (s rest : Bytes) → turn f s ≡ more g rest → length rest < length s
unfolding turn
length-turn f g s rest e = elim (Bool-cases (starts 125 (skip_ws s))) [
  | inl brace ↦ absurd (cc (rw brace at e))
  | inr entry ↦ elim (HyperResult-cases (read_entry f (skip_ws s))) [
    | inl (p, h) ↦
        let blank = length-skip_ws s in
        let inside = length-read_entry f p.0 (skip_ws s) p.1 h in
        let later = length-skip_ws p.1 in
        let left = length-after_entry p.0 g (skip_ws p.1) rest (rw (entry, h) at e) in
        omega (arith, blank, inside, later, left)
    | inr (x, h) ↦ absurd (cc (rw (entry, h) at e))
  ]
]

turn-cases :
    (t : Turn)
    → ((f : Fields) × (s : Bytes) × (t ≡ more f s))
      ⊎ ((r : HyperResult (Fields × Bytes)) × (t ≡ finished r))
turn-cases (more f s) = inl (f, s, refl)
turn-cases (finished r) = inr (r, refl)

decode_loop-total :
    (fuel : ℕ) (f : Fields) (s : Bytes)
    → length s < fuel
    → (r : HyperResult (Fields × Bytes)) × (decode_loop fuel f s ≡ some r)
unfolding decode_loop
decode_loop-total zero f s h = absurd (omega (arith, h))
decode_loop-total (suc fuel) f s h = elim (turn-cases (turn f s)) [
  | inl (g, rest, e) ↦
      let shorter = length-turn f g s rest e in
      let (r, done) = decode_loop-total fuel g rest (omega (arith, h, shorter)) in
      (r, rw (decode_loop, e) done)
  | inr (r, e) ↦ (r, rw (decode_loop, e) refl)
]

-- Every frame is decoded or refused: the loop never uses up its fuel of one turn for each byte
-- and one more.
pub decode_request-total :
    (frame : Bytes) → (r : HyperResult Request) × (decode_request frame ≡ some r)
unfolding decode_request
decode_request-total frame = elim (HyperResult-cases (expect 123 frame)) [
  | inl (s, e) ↦
      let (r, done) = decode_loop-total (suc (length s)) no_fields s (omega arith) in
      ((r >>= λ p. finish p.0 p.1), rw (e, done) refl)
  | inr (x, e) ↦ (err x, rw e refl)
]
