-- ===== src/Vault/Volumes/Ids.antt =====
-- The identifiers of crates/celvault/src/lib.rs: the counter can be read back from each of them.
use celium.Prelude.{ℕ, ◌≤◌, ◌≡◌, refl, ap, ◌∙◌, false, Option, some, [], ◌∷◌, ◌++◌, any, eqb}
use celium.Prelude.Key.{Bytes}
use celium.Prelude.Words.{u64_max}
use celium.Prelude.Decimal.{
  decimal, parse_u64, after_last, after_last-append, any-digits, parse_u64-decimal,
  split_once-append,
}
use celium.Vault.Volumes.{VolumeId, volume_id, snapshot_id, split}

-- The number behind the last `v` of a volume's id.
abbrev pub rank : VolumeId → Option ℕ
rank id = parse_u64 (after_last 118 id)

append-two : (c : ℕ) (xs ys : Bytes) → xs ++ c ∷ ys ≡ (xs ++ c ∷ []) ++ ys
append-two c [] ys = refl
append-two c (x ∷ xs) ys = ap (λ zs. x ∷ zs) (append-two c xs ys)

pub rank-volume_id : (owner : Bytes) (n : ℕ) → n ≤ u64_max → rank (volume_id owner n) ≡ some n
rank-volume_id owner n fits =
    ap rank (append-two 47 owner (118 ∷ decimal n))
    ∙ ap parse_u64 (after_last-append 118 (owner ++ 47 ∷ []) (decimal n) (any-digits 118 20 n refl))
    ∙ parse_u64-decimal n fits

-- The id of a snapshot gives back the id of its volume and its counter, when the volume's id has
-- no `@`.
pub split-snapshot_id :
    (id : VolumeId) (n : ℕ)
    → any (eqb 64) id ≡ false
    → n ≤ u64_max
    → split (snapshot_id id n) ≡ some (id, n)
unfolding split
split-snapshot_id id n plain fits =
    rw (split_once-append 64 id (115 ∷ decimal n) plain, parse_u64-decimal n fits, split) refl
