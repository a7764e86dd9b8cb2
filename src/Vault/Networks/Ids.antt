-- ===== src/Vault/Networks/Ids.antt =====
-- The identifiers of crates/celvault/src/network.rs: the counter, and the network of a NIC, can be
-- read back from them.
use celium.Prelude.{ℕ, ◌≤◌, ◌≡◌, refl, ap, ◌∙◌, Option, some, [], ◌∷◌, ◌++◌}
use celium.Prelude.Key.{Bytes}
use celium.Prelude.Words.{u64_max}
use celium.Prelude.Decimal.{
  decimal, parse_u64, after_last, after_last-append, any-digits, parse_u64-decimal,
}
use celium.Vault.Network.{NetworkId, NicId}
use celium.Vault.Networks.{network_id, nic_id}
use mathlib.Core.List.{append_cancel_right}

-- The number behind the last `n` of a network's id.
abbrev pub rank : NetworkId → Option ℕ
rank id = parse_u64 (after_last 110 id)

append-two : (c : ℕ) (xs ys : Bytes) → xs ++ c ∷ ys ≡ (xs ++ c ∷ []) ++ ys
append-two c [] ys = refl
append-two c (x ∷ xs) ys = ap (λ zs. x ∷ zs) (append-two c xs ys)

pub rank-network_id : (owner : Bytes) (n : ℕ) → n ≤ u64_max → rank (network_id owner n) ≡ some n
rank-network_id owner n fits =
    ap rank (append-two 47 owner (110 ∷ decimal n))
    ∙ ap parse_u64 (after_last-append 110 (owner ++ 47 ∷ []) (decimal n) (any-digits 110 20 n refl))
    ∙ parse_u64-decimal n fits

-- The number behind the last `c` of a NIC's id.
abbrev pub nic_rank : NicId → Option ℕ
nic_rank id = parse_u64 (after_last 99 id)

nic_id-split :
    (network : NetworkId) (n : ℕ)
    → nic_id network n ≡ (network ++ 47 ∷ 110 ∷ 105 ∷ []) ++ 99 ∷ decimal n
nic_id-split network n = move network
  where
    move : (xs : Bytes) → nic_id xs n ≡ (xs ++ 47 ∷ 110 ∷ 105 ∷ []) ++ 99 ∷ decimal n
    move [] = refl
    move (x ∷ xs) = ap (λ zs. x ∷ zs) (move xs)

pub nic_rank-nic_id :
    (network : NetworkId) (n : ℕ) → n ≤ u64_max → nic_rank (nic_id network n) ≡ some n
nic_rank-nic_id network n fits =
    ap nic_rank (nic_id-split network n)
    ∙ ap parse_u64 (
        after_last-append 99 (network ++ 47 ∷ 110 ∷ 105 ∷ []) (decimal n) (any-digits 99 20 n refl))
    ∙ parse_u64-decimal n fits

-- Two NICs with one id are on one network.
pub nic_id-network : (a b : NetworkId) (n : ℕ) → nic_id a n ≡ nic_id b n → a ≡ b
nic_id-network a b n e = append_cancel_right a b (47 ∷ 110 ∷ 105 ∷ 99 ∷ decimal n) e
