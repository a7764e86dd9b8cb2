-- ===== src/Tenancy/Caps/Laws.antt =====
-- The subset order on capability sets, and that narrowing, granting and attenuating respect it.
use celium.Prelude.{
  inl, inr, ◌&&◌, Bool-cases, ◌≡◌, ◌↔◌, true, bit_and, bit_or, arith, eqb_iff, ◌∙◌, ap, ◌≤◌, ◌-◌,
}
use celium.Prelude.Bits.{
  bit_and_idem, bit_and_comm, bit_and_assoc, bit_and-bit_or, bit_or_comm, bit_and-disjoint,
  bit_and-zero, complement-bit_and,
}
use celium.Prelude.Error.{ok}
use celium.Prelude.Words.{u32_max}
use celium.Tenancy.Caps.{TenantCaps, all_caps, contains, grant, revoke, attenuate, narrow}

pub contains_iff : (a b : TenantCaps) → (contains a b ≡ true) ↔ (bit_and a b ≡ b)
unfolding contains
contains_iff a b = eqb_iff (bit_and a b) b

pub contains_of_eq : (a b : TenantCaps) → bit_and a b ≡ b → contains a b ≡ true
contains_of_eq a b = (contains_iff a b).1

pub contains_refl : (a : TenantCaps) → contains a a ≡ true
contains_refl a = contains_of_eq a a (bit_and_idem a)

pub contains_trans :
    (a b c : TenantCaps) → contains a b ≡ true → contains b c ≡ true → contains a c ≡ true
contains_trans a b c h k =
    contains_of_eq a c (cc ((contains_iff a b).0 h, (contains_iff b c).0 k, bit_and_assoc a b c))

pub contains_antisymm : (a b : TenantCaps) → contains a b ≡ true → contains b a ≡ true → a ≡ b
contains_antisymm a b h k = cc ((contains_iff a b).0 h, (contains_iff b a).0 k, bit_and_comm a b)

-- Narrowed capabilities lie within what was held, and within what was asked for.
pub contains-narrow_left : (a b : TenantCaps) → contains a (narrow a b) ≡ true
unfolding narrow
contains-narrow_left a b =
    contains_of_eq a _
      (cc (bit_and_assoc a (bit_and a b) all_caps, bit_and_assoc a a b, bit_and_idem a))

narrow_comm : (a b : TenantCaps) → narrow a b ≡ narrow b a
unfolding narrow
narrow_comm a b = cc (bit_and_comm a b)

pub contains-narrow_right : (a b : TenantCaps) → contains b (narrow a b) ≡ true
contains-narrow_right a b = rw (narrow_comm a b) (contains-narrow_left b a)

meets :
    (a b x : TenantCaps)
    → contains all_caps x ≡ true
    → contains a x ≡ true
    → contains b x ≡ true
    → contains (narrow a b) x ≡ true
unfolding narrow
meets a b x known h k = contains_of_eq _ x (
    cc (
      bit_and_assoc (bit_and a b) all_caps x,
      bit_and_assoc a b x,
      (contains_iff a x).0 h,
      (contains_iff b x).0 k,
      (contains_iff all_caps x).0 known,
    ))

-- A known capability is kept exactly if it was held and is in the other set.
pub contains-narrow :
    (a b x : TenantCaps)
    → contains all_caps x ≡ true
    → contains (narrow a b) x ≡ (contains a x && contains b x)
contains-narrow a b x known = elim (Bool-cases (contains (narrow a b) x)) [
  | inl e ↦
      let l = contains_trans a (narrow a b) x (contains-narrow_left a b) e in
      let r = contains_trans b (narrow a b) x (contains-narrow_right a b) e in
      ground (arith, e, l, r)
  | inr e ↦ let both = meets a b x known in ground (arith, e, both)
]

-- What is granted is contained, and nothing is lost.
pub contains-grant : (a b : TenantCaps) → contains (grant a b) b ≡ true
unfolding grant
contains-grant a b = contains_of_eq _ b (cc (bit_and-bit_or a b, bit_and_comm b (bit_or a b)))

pub contains-grant_keeps :
    (a b c : TenantCaps) → contains a c ≡ true → contains (grant a b) c ≡ true
unfolding grant
contains-grant_keeps a b c h =
    contains_trans (bit_or a b) a c
      (contains_of_eq _ a (cc (bit_and-bit_or b a, bit_and_comm a (bit_or b a), bit_or_comm a b))) h

-- An attenuated set is the request, and lies within the root set.
pub contains-attenuate :
    (root requested : TenantCaps) {caps : TenantCaps}
    → attenuate root requested ≡ ok caps
    → (caps ≡ requested) × (contains root caps ≡ true)
unfolding attenuate
contains-attenuate root requested h = ground arith

-- No revoked bit is left.
pub revoke_removes : (a b : TenantCaps) → b ≤ u32_max → bit_and b (revoke a b) ≡ 0
unfolding revoke
revoke_removes a b h =
    bit_and_comm b _
    ∙ bit_and_assoc a (u32_max - b) b
    ∙ ap (bit_and a) (bit_and_comm (u32_max - b) b ∙ bit_and-disjoint 32 b (omega arith))
    ∙ bit_and-zero a

-- What has no bit in common with the revoked set stays.
pub contains-revoke :
    (a b c : TenantCaps)
    → b ≤ u32_max
    → c ≤ u32_max
    → bit_and b c ≡ 0
    → contains a c ≡ true
    → contains (revoke a b) c ≡ true
unfolding revoke
contains-revoke a b c hb hc e h = contains_of_eq _ c (
    bit_and_assoc a (u32_max - b) c
    ∙ ap (bit_and a) (complement-bit_and 32 b c (omega arith) (omega arith) e)
    ∙ (contains_iff a c).0 h)
