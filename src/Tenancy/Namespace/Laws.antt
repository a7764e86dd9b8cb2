-- ===== src/Tenancy/Namespace/Laws.antt =====
-- What validation gives to the paths of crates/celtenancy/src/namespace.rs.
use celium.Prelude.{◌≡◌, ◌≤◌, ◌<◌, ◌↔◌, true, ◌++◌, ◌∷◌, [], arith, length, all}
use celium.Prelude.Text.{Bytes, text}
use celium.Prelude.Error.{ok}
use celium.Tenancy.Namespace.{
  is_segment_byte, validate_segment, namespace_root, user_path, max_segment,
}

-- The names that validation accepts.
pub record IsSegment (s : Bytes) : Type 0 where
  pub nonempty : 0 < length s
  pub short : length s ≤ max_segment
  pub alphabet : all is_segment_byte s ≡ true

-- Validation accepts exactly the segments.
pub validate_segment_iff : (s : Bytes) → (validate_segment s ≡ ok tt) ↔ IsSegment s
unfolding validate_segment
validate_segment_iff s = (λ h. ground arith, λ h. ground arith)

-- A text splits in one way at the first slash behind a segment.
split_at_slash :
    (xs ys r s : Bytes)
    → all is_segment_byte xs ≡ true
    → all is_segment_byte ys ≡ true
    → xs ++ b'/' ∷ r ≡ ys ++ b'/' ∷ s
    → (xs ≡ ys) × (r ≡ s)
split_at_slash [] [] r s hx hy e = ground arith
split_at_slash [] (y ∷ ys) r s hx hy e = ground arith
split_at_slash (x ∷ xs) [] r s hx hy e = ground arith
split_at_slash (x ∷ xs) (y ∷ ys) r s hx hy e = ground (arith, split_at_slash xs ys r s)

root-namespace_root :
    (t : Bytes) {root : Bytes}
    → namespace_root t ≡ ok root
    → (all is_segment_byte t ≡ true) × (root ≡ text "/tenants/" ++ t)
unfolding namespace_root
root-namespace_root t h = ground arith

path-user_path :
    (root u : Bytes) {path : Bytes}
    → user_path root u ≡ ok path
    → path ≡ root ++ (text "/users/" ++ u)
unfolding user_path
path-user_path root u h = ground arith

-- A user path determines the tenant and the user that it belongs to, when both tenant names and
-- the path were accepted.
pub user_path_unique :
    (t t' u u' : Bytes) {root root' path : Bytes}
    → namespace_root t ≡ ok root
    → namespace_root t' ≡ ok root'
    → user_path root u ≡ ok path
    → user_path root' u' ≡ ok path
    → (t ≡ t') × (u ≡ u')
user_path_unique t t' u u' {root} {root'} hr hr' hp hp' =
    let (seg, e) = root-namespace_root t hr in
    let (seg', e') = root-namespace_root t' hr' in
    let p = path-user_path root u hp in
    let p' = path-user_path root' u' hp' in
    ground
      (arith, e, e', p, p', split_at_slash t t' (text "users/" ++ u) (text "users/" ++ u') seg seg')
