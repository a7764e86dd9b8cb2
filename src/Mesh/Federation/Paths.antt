-- ===== src/Mesh/Federation/Paths.antt =====
-- `path` and `resolve` of crates/celmesh/src/federation.rs.
use celium.Prelude.{
  ℕ, ◌≤◌, ◌≡◌, refl, sym, ap, ◌∙◌, true, false, some, [], ◌∷◌, ◌++◌, ◌||◌, any, eqb, leb, eqb_iff,
  arith, inl, inr, Bool-cases,
}
use celium.Prelude.Key.{Bytes, bytes_eq, bytes_eq_iff}
use celium.Prelude.Map.{get}
use celium.Prelude.Words.{u32_max}
use celium.Prelude.Decimal.{
  at_most, decimal, parse_u64, parse_u64-decimal, split_once-append, any-digits,
}
use celium.Mesh.Federation.{
  RemoteVm, NamespaceFederation, row_key, key, path, resolve, parse_path, in_cluster, node_and_vm,
  number, numbered, parse_u32, strip_prefix, cluster, vms,
}

strip_prefix-append : (xs ys : Bytes) → strip_prefix xs (xs ++ ys) ≡ some ys
unfolding strip_prefix
strip_prefix-append [] ys = refl
strip_prefix-append (x ∷ xs) ys = ground (arith, strip_prefix-append xs ys, eqb_iff x x)

parse_u32-decimal : (n : ℕ) → n ≤ u32_max → parse_u32 (decimal n) ≡ some n
parse_u32-decimal n fits =
    let small : leb n u32_max ≡ true = ground (arith, fits) in
    ap (at_most u32_max) (parse_u64-decimal n (omega (arith, fits))) ∙ rw small refl

-- The digits of a number are not empty.
decimal-full : (n : ℕ) → n ≤ u32_max → bytes_eq (decimal n) [] ≡ false
unfolding parse_u64
decimal-full n fits = elim (Bool-cases (bytes_eq (decimal n) [])) [
  | inr full ↦ full
  | inl blank ↦
      let nothing : decimal n ≡ [] = (bytes_eq_iff (decimal n) []).0 blank in
      let read : parse_u64 [] ≡ some n =
        ap parse_u64 (sym nothing) ∙ parse_u64-decimal n (omega (arith, fits)) in
      absurd (cc read)
]

parse_path-path :
    (r : RemoteVm)
    → any (eqb 47) r.owner ≡ false
    → r.vm_id ≤ u32_max
    → parse_path (path r) ≡ some (key r)
unfolding path
parse_path-path r plain fits =
    let tail = vms ++ decimal r.vm_id in
    let digits : (bytes_eq (decimal r.vm_id) [] || any (eqb 47) (decimal r.vm_id)) ≡ false =
      rw (decimal-full r.vm_id fits) (any-digits 47 20 r.vm_id refl) in
    ap in_cluster (strip_prefix-append cluster (r.owner ++ 47 ∷ tail))
    ∙ ap node_and_vm (split_once-append 47 r.owner tail plain)
    ∙ ap (number r.owner) (strip_prefix-append vms (decimal r.vm_id))
    ∙ rw digits (ap (numbered r.owner) (parse_u32-decimal r.vm_id fits))

-- The path of a row whose owner's name has no slash resolves to what the table holds under the
-- row's key.
pub resolve-path :
    (f : NamespaceFederation) (r : RemoteVm)
    → any (eqb 47) r.owner ≡ false
    → r.vm_id ≤ u32_max
    → resolve f (path r) ≡ some (get f.rows (key r))
unfolding resolve
resolve-path f r plain fits = rw (resolve, parse_path-path r plain fits) refl
