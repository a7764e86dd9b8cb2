-- ===== src/Vault/Networks/Scan.antt =====
-- The linear scan for an address in crates/celvault/src/network.rs: `attach_nic` without a requested
-- address.
use celium.Prelude.{
  ℕ, zero, suc, ◌+◌, ◌≤◌, ◌<◌, ◌≡◌, refl, ◌∙◌, false, none, some, arith, inl, inr, Bool-cases,
  Option-cases, ltb→lt, subst, leb, ltb,
}
use celium.Prelude.Map.{get, len}
use celium.Prelude.Map.Sizes.{row-le-len}
use celium.Prelude.Key.{bytes_key, nat_key}
use celium.Prelude.Error.{ok}
use celium.Vault.Network.{Cidr4, NetworkId, NicId, VirtualNetwork}
use celium.Vault.Network.Blocks.{capacity, nth_host, nth_host-inside}
use celium.Vault.Networks.{MemInner, UsedIps, max_nics_per_network}
use celium.Vault.Networks.Nics.{
  scan, free_host, is_used, used_of, attach_nic, attach_checks, attach_commit, choose_ip,
}

-- The host `n` is free, has the address `a`, and every host before it is in use.
pub record IsFirstFree (c : Cidr4) (used : UsedIps) (a n : ℕ) : Type 0 where
  pub host : nth_host c n ≡ some a
  pub free : get used a ≡ none
  pub before : (i : ℕ) → 0 < i → i < n → (id : NicId) × (get used (c.base + i) ≡ some id)

-- A host of the block that is not free is in use.
taken :
    (c : Cidr4) (used : UsedIps) (i : ℕ)
    → 0 < i
    → i ≤ capacity c
    → free_host c used i ≡ none
    → (id : NicId) × (get used (c.base + i) ≡ some id)
taken c used i positive low e = elim (Option-cases (get used (c.base + i))) [
  | inr found ↦ found
  | inl missing ↦
      absurd (cc (rw (free_host, nth_host-inside c i positive low, is_used, missing) at e))
]

free_host-some :
    (c : Cidr4) (used : UsedIps) (i a : ℕ)
    → free_host c used i ≡ some a
    → (nth_host c i ≡ some a) × (get used a ≡ none)
free_host-some c used i a e = elim (Option-cases (nth_host c i)) [
  | inl outside ↦ absurd (cc (rw (free_host, outside) at e))
  | inr (b, host) ↦ elim (Option-cases (get used b)) [
    | inl missing ↦
        let same : some b ≡ some a = rw (free_host, host, is_used, missing) at e in
        let name : b ≡ a = cc same in (host ∙ same, subst (λ x. get used x ≡ none) name missing)
    | inr (id, there) ↦ absurd (cc (rw (free_host, host, is_used, there) at e))
  ]
]

-- The hosts before `suc n`, from those before `n` and the host `n`.
one_more :
    (c : Cidr4) (used : UsedIps) (n : ℕ)
    → ((i : ℕ) → 0 < i → i < n → (id : NicId) × (get used (c.base + i) ≡ some id))
    → ((id : NicId) × (get used (c.base + n) ≡ some id))
    → (i : ℕ) → 0 < i
    → i < suc n
    → (id : NicId) × (get used (c.base + i) ≡ some id)
one_more c used n before here i positive below = elim (Bool-cases (ltb i n)) [
  | inl early ↦ before i positive (ltb→lt i n early)
  | inr late ↦
      let same : n ≡ i = ground (arith, late, below) in
      subst (λ j. (id : NicId) × (get used (c.base + j) ≡ some id)) same here
]

pub scan-some :
    (c : Cidr4) (used : UsedIps) (k n a : ℕ)
    → 0 < n
    → n + k ≡ suc (capacity c)
    → ((i : ℕ) → 0 < i → i < n → (id : NicId) × (get used (c.base + i) ≡ some id))
    → scan c used k n ≡ some a
    → (m : ℕ) × IsFirstFree c used a m
unfolding scan
scan-some c used zero n a positive size before e = absurd (cc e)
scan-some c used (suc k) n a positive size before e = elim (Option-cases (free_host c used n)) [
  | inr (b, free) ↦
      let same : some b ≡ some a = rw (scan, free) at e in
      let (host, missing) = free_host-some c used n a (free ∙ same) in
      (n, record { host = host; free = missing; before = before })
  | inl full ↦
      scan-some c used k (suc n) a (omega arith) (omega (arith, size))
        (one_more c used n before (taken c used n positive (omega (arith, size)) full))
        (rw (scan, full) at e)
]

scan-none :
    (c : Cidr4) (used : UsedIps) (k n : ℕ)
    → 0 < n
    → n + k ≡ suc (capacity c)
    → ((i : ℕ) → 0 < i → i < n → (id : NicId) × (get used (c.base + i) ≡ some id))
    → scan c used k n ≡ none
    → capacity c ≤ len used
unfolding scan
scan-none c used zero n positive size before e =
    row-le-len c.base (capacity c) used (λ i p low. before i p (omega (arith, low, size)))
scan-none c used (suc k) n positive size before e = elim (Option-cases (free_host c used n)) [
  | inr (b, free) ↦ absurd (cc (rw (scan, free) at e))
  | inl full ↦
      scan-none c used k (suc n) (omega arith) (omega (arith, size))
        (one_more c used n before (taken c used n positive (omega (arith, size)) full))
        (rw (scan, full) at e)
]

-- The scan stops after one host more than are in use.
first-bound : (c : Cidr4) (used : UsedIps) (a n : ℕ) → IsFirstFree c used a n → n ≤ suc (len used)
first-bound c used a zero first = omega arith
first-bound c used a (suc n) first =
    omega (arith, row-le-len c.base n used (λ i p low. first.before i p (omega (arith, low))))

scan-first :
    (c : Cidr4) (used : UsedIps)
    → len used < capacity c
    → (a : ℕ) × (n : ℕ) × (scan c used (capacity c) 1 ≡ some a) × IsFirstFree c used a n
scan-first c used room =
    let none_before : (i : ℕ) → 0 < i → i < 1 → (id : NicId) × (get used (c.base + i) ≡ some id) =
      λ i p low. absurd (omega (arith, p, low)) in
    elim (Option-cases (scan c used (capacity c) 1)) [
      | inl full ↦ absurd (
          omega (
            arith,
            room,
            scan-none c used (capacity c) 1 (omega arith) (omega arith) none_before full,
          ))
      | inr (a, found) ↦
          let (n, first) =
            scan-some c used (capacity c) 1 a (omega arith) (omega arith) none_before found in
          (a, n, found, first)
    ]

-- On a network with fewer NICs than hosts and than 256, `attach_nic` without a requested address
-- succeeds: the NIC has the address of the first host that is free, every host before it is in
-- use, and its number is at most one more than the count of the addresses in use.
pub attach_nic-first :
    (g : MemInner) (id : NetworkId) (vm_id : ℕ) (net : VirtualNetwork)
    → get g.networks id ≡ some net
    → len (used_of g id) < max_nics_per_network
    → len (used_of g id) < capacity net.cidr
    → (a : ℕ) × (n : ℕ) × (attach_nic g id vm_id none
        ≡ ((attach_commit g id vm_id a).0, ok (attach_commit g id vm_id a).1))
      × ((attach_commit g id vm_id a).1.ip ≡ a)
      × IsFirstFree net.cidr (used_of g id) a n
      × (n ≤ suc (len (used_of g id)))
unfolding attach_nic choose_ip attach_commit
attach_nic-first g id vm_id net there few room =
    let used = used_of g id in
    let (a, n, found, first) = scan-first net.cidr used room in
    let below : leb max_nics_per_network (len used) ≡ false = ground (arith, few) in
    let fine : attach_checks g id none ≡ ok a = rw (there, below, choose_ip, found) refl in
    (a, n, rw (attach_nic, fine) refl, refl, first, first-bound net.cidr used a n first)
