-- ===== src/Vault/Volumes/Bodies.antt =====
-- The bytes of a volume: slices of a body of crates/celvault/src/lib.rs before and after a write.
use celium.Prelude.{
  ℕ, zero, suc, ◌+◌, ◌-◌, ◌≤◌, ◌≡◌, ◌⊎◌, refl, sym, ap, ◌∙◌, [], ◌∷◌, ◌++◌, arith, inl, inr, length,
  take, drop, subst, length-append,
}
use celium.Prelude.Key.{Bytes}
use celium.Vault.Volumes.{slice, overwrite}

zero_plus : (a : ℕ) → 0 + a ≡ a
zero_plus a = omega arith

suc_plus : (a b : ℕ) → suc a + b ≡ suc (a + b)
suc_plus a b = omega arith

drop-nil : (n : ℕ) → drop {A = ℕ} n [] ≡ []
drop-nil zero = refl
drop-nil (suc n) = refl

length-drop : (n : ℕ) (xs : Bytes) → length (drop n xs) ≡ length xs - n
length-drop zero xs = omega arith
length-drop (suc n) [] = omega arith
length-drop (suc n) (x ∷ xs) = omega (arith, length-drop n xs)

length-take : (n : ℕ) (xs : Bytes) → n ≤ length xs → length (take n xs) ≡ n
length-take zero xs h = refl
length-take (suc n) [] h = omega arith
length-take (suc n) (x ∷ xs) h = omega (arith, length-take n xs (omega arith))

pub length-overwrite :
    (off : ℕ) (bytes body : Bytes)
    → off + length bytes ≤ length body
    → length (overwrite off bytes body) ≡ length body
length-overwrite off bytes body h = omega (
  arith,
  length-append (take off body) (bytes ++ drop (off + length bytes) body),
  length-append bytes (drop (off + length bytes) body),
  length-take off body (omega arith),
  length-drop (off + length bytes) body,
)

take-prefix : (xs ys : Bytes) → take (length xs) (xs ++ ys) ≡ xs
take-prefix [] ys = refl
take-prefix (x ∷ xs) ys = ap (λ zs. x ∷ zs) (take-prefix xs ys)

-- The written range holds the bytes.
pub slice-overwrite :
    (off : ℕ) (bytes body : Bytes)
    → off + length bytes ≤ length body
    → slice off (length bytes) (overwrite off bytes body) ≡ bytes
slice-overwrite zero bytes body h =
    rw (zero_plus (length bytes)) (take-prefix bytes (drop (length bytes) body))
slice-overwrite (suc off) bytes [] h = absurd (omega arith)
slice-overwrite (suc off) bytes (x ∷ body) h =
    rw (suc_plus off (length bytes)) (slice-overwrite off bytes body (omega arith))

drop-drop : (a b : ℕ) (xs : Bytes) → drop a (drop b xs) ≡ drop (b + a) xs
drop-drop a zero xs = rw (zero_plus a) refl
drop-drop a (suc b) [] = drop-nil a ∙ sym (drop-nil (suc b + a))
drop-drop a (suc b) (x ∷ xs) = rw (suc_plus b a) (drop-drop a b xs)

drop-prefix : (n : ℕ) (xs ys : Bytes) → drop (length xs + n) (xs ++ ys) ≡ drop n ys
drop-prefix n [] ys = rw (zero_plus n) refl
drop-prefix n (x ∷ xs) ys = rw (suc_plus (length xs) n) (drop-prefix n xs ys)

take-inside : (n : ℕ) (xs ys : Bytes) → n ≤ length xs → take n (xs ++ ys) ≡ take n xs
take-inside zero xs ys h = refl
take-inside (suc n) [] ys h = absurd (omega arith)
take-inside (suc n) (x ∷ xs) ys h = ap (λ zs. x ∷ zs) (take-inside n xs ys (omega arith))

take-take : (n m : ℕ) (xs : Bytes) → n ≤ m → take n (take m xs) ≡ take n xs
take-take zero m xs h = refl
take-take (suc n) zero xs h = absurd (omega arith)
take-take (suc n) (suc m) [] h = refl
take-take (suc n) (suc m) (x ∷ xs) h = ap (λ zs. x ∷ zs) (take-take n m xs (omega arith))

slice-before :
    (o n off : ℕ) (bytes body : Bytes)
    → o + n ≤ off
    → off ≤ length body
    → slice o n (overwrite off bytes body) ≡ slice o n body
slice-before zero n off bytes body h fits =
    take-inside n (take off body) (bytes ++ drop (off + length bytes) body)
      (omega (arith, length-take off body fits))
    ∙ take-take n off body (omega arith)
slice-before (suc o) n zero bytes body h fits = absurd (omega arith)
slice-before (suc o) n (suc off) bytes [] h fits = absurd (omega arith)
slice-before (suc o) n (suc off) bytes (x ∷ body) h fits =
    rw (suc_plus off (length bytes)) (slice-before o n off bytes body (omega arith) (omega arith))

slice-after :
    (n k off : ℕ) (bytes body : Bytes)
    → off ≤ length body
    → slice (off + length bytes + k) n (overwrite off bytes body)
      ≡ slice (off + length bytes + k) n body
slice-after n k zero bytes body fits =
    rw (zero_plus (length bytes)) (
      ap (take n)
        (drop-prefix k bytes (drop (length bytes) body) ∙ drop-drop k (length bytes) body))
slice-after n k (suc off) bytes [] fits = absurd (omega arith)
slice-after n k (suc off) bytes (x ∷ body) fits =
    rw (suc_plus off (length bytes), suc_plus (off + length bytes) k)
      (slice-after n k off bytes body (omega arith))

-- A range that the write does not touch reads as before.
pub slice-apart :
    (o n off : ℕ) (bytes body : Bytes)
    → off + length bytes ≤ length body
    → (o + n ≤ off) ⊎ (off + length bytes ≤ o)
    → slice o n (overwrite off bytes body) ≡ slice o n body
slice-apart o n off bytes body fits (inl h) = slice-before o n off bytes body h (omega arith)
slice-apart o n off bytes body fits (inr h) =
    let k = o - (off + length bytes) in
    let same : off + length bytes + k ≡ o = omega arith in
    subst (λ p. slice p n (overwrite off bytes body) ≡ slice p n body) same
      (slice-after n k off bytes body (omega arith))
