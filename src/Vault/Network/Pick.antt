-- ===== src/Vault/Network/Pick.antt =====
-- The load balancer of crates/celvault/src/network.rs chooses a backend that is there, and with
-- `LeastConn` one with the fewest connections.
use celium.Prelude.{
  ℕ, suc, ◌+◌, ◌≤◌, ◌<◌, ◌≡◌, ◌≢◌, refl, ap, sym, ◌∙◌, subst, Option, none, some, List, [], ◌∷◌,
  arith, inl, inr, ltb, ltb→lt, length, Bool-cases,
}
use celium.Prelude.Words.{u32_max}
use celium.Vault.Network.{LoadBalancer, LbBackend, least_conn, conn_at, best_loop, choose, pick}

-- The chosen index is in range, and no backend has fewer connections.
pub record IsLeast (conns : List ℕ) (size r : ℕ) : Type 0 where
  pub inside : r < size
  pub least : (j : ℕ) → j < size → conn_at conns r ≤ conn_at conns j

best_loop-IsLeast :
    (conns : List ℕ) (i best best_n : ℕ) (bs : List LbBackend)
    → best < i + length bs
    → conn_at conns best ≤ best_n
    → ((j : ℕ) → j < i → best_n ≤ conn_at conns j)
    → IsLeast conns (i + length bs) (best_loop conns i best best_n bs)
unfolding best_loop
best_loop-IsLeast conns i best best_n [] inside low all_high = record {
  inside = inside;
  least = λ j below. omega (arith, low, all_high j (omega arith));
}
best_loop-IsLeast conns i best best_n (b ∷ bs) inside low all_high =
    let n = conn_at conns i in
    let size : suc i + length bs ≡ i + suc (length bs) = omega arith in
    subst (λ k. IsLeast conns k (best_loop conns i best best_n (b ∷ bs))) size
      (elim (Bool-cases (ltb n best_n)) [
        | inl e ↦ rw e (
            best_loop-IsLeast conns (suc i) i n bs (omega arith) (omega arith) (λ j below.
              elim (Bool-cases (ltb j i)) [
                | inl f ↦ omega (arith, ltb→lt n best_n e, all_high j (ltb→lt j i f))
                | inr f ↦
                    let same : j ≡ i = ground (arith, f, below) in
                    subst (λ k. n ≤ conn_at conns k) (sym same) (omega arith)
              ]))
        | inr e ↦ rw e (
            best_loop-IsLeast conns (suc i) best best_n bs (omega (arith, inside)) low (λ j below.
              elim (Bool-cases (ltb j i)) [
                | inl f ↦ all_high j (ltb→lt j i f)
                | inr f ↦
                    let same : j ≡ i = ground (arith, f, below) in
                    let high : best_n ≤ n = ground (arith, e) in
                    subst (λ k. best_n ≤ conn_at conns k) (sym same) high
              ]))
      ])

first_of :
    (bs : List LbBackend) (r : ℕ)
    → bs ≢ []
    → (elim bs as (λ _. Option ℕ) [ [] ↦ none | b ∷ rest ↦ some r ]) ≡ some r
first_of [] r full = absurd (full refl)
first_of (b ∷ bs) r full = refl

length-full : (bs : List LbBackend) → bs ≢ [] → 0 < length bs
length-full [] full = absurd (full refl)
length-full (b ∷ bs) full = omega arith

pick-full :
    (lb : LoadBalancer) (tick : ℕ) (conns : List ℕ)
    → lb.backends ≢ []
    → pick lb tick conns ≡ some (choose lb.algo lb.backends tick conns)
unfolding pick
pick-full lb tick conns full = first_of lb.backends (choose lb.algo lb.backends tick conns) full

-- With `LeastConn` a load balancer that has backends chooses one of them, and none of the
-- backends has fewer connections, when the count of the first is a `u32`.
pub pick-IsLeast :
    (lb : LoadBalancer) (tick : ℕ) (conns : List ℕ)
    → lb.algo ≡ least_conn
    → lb.backends ≢ []
    → conn_at conns 0 ≤ u32_max
    → (r : ℕ) × (pick lb tick conns ≡ some r) × IsLeast conns (length lb.backends) r
unfolding choose
pick-IsLeast lb tick conns algo full fits =
    let bs = lb.backends in
    let r = best_loop conns 0 0 u32_max bs in
    let size : 0 + length bs ≡ length bs = omega arith in
    (
      r,
      pick-full lb tick conns full ∙ ap (λ a. some (choose a bs tick conns)) algo,
      subst (λ k. IsLeast conns k r) size
          (best_loop-IsLeast conns 0 0 u32_max bs (omega (arith, length-full bs full)) fits
            (λ j below. absurd (omega (arith, below)))),
    )
