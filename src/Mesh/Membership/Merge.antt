-- ===== src/Mesh/Membership/Merge.antt =====
-- Last writer wins: the laws of `merge` in crates/celmesh/src/membership.rs.
use celium.Prelude.{
  ℕ, ◌≤◌, ◌<◌, ◌≡◌, ◌⊎◌, false, ◌&&◌, Option, none, some, arith, if◌then◌else◌, inl, inr,
  Option-cases, Bool-cases,
}
use celium.Prelude.Key.{bytes_eq, bytes_eq_iff, bytes_key}
use celium.Prelude.Map.{get, get-insert}
use celium.Mesh.Membership.{NodeId, NodeInfo, Membership, supersedes, touches, merge}

-- `a` is at least as new as `b`.
abbrev pub AtLeast : NodeInfo → NodeInfo → Type 0
AtLeast a b = (b.epoch < a.epoch) ⊎ ((a.epoch ≡ b.epoch) × (b.hlc ≤ a.hlc))

-- The row that a table holds after a row was offered: the newer one, the old one on a tie.
abbrev pub newer : Option NodeInfo → NodeInfo → NodeInfo
newer none incoming = incoming
newer (some existing) incoming = if supersedes incoming existing then incoming else existing

-- What `merge` does to every row.
pub rows-merge :
    (m : Membership) (r : NodeInfo) (now : ℕ) (k : NodeId)
    → get (merge m r now).0.rows k ≡ (
        if bytes_eq r.id m.self_id
        then get m.rows k
        else if bytes_eq r.id k
        then some (newer (get m.rows k) r)
        else get m.rows k)
unfolding merge
rows-merge m r now k = elim (Option-cases (get m.rows r.id)) [
  | inl e ↦ ground (arith, get-insert r.id k r m.rows, bytes_eq_iff r.id k)
  | inr (x, e) ↦ ground (arith, get-insert r.id k r m.rows, bytes_eq_iff r.id k)
]

self-merge : (m : Membership) (r : NodeInfo) (now : ℕ) → (merge m r now).0.self_id ≡ m.self_id
unfolding merge
self-merge m r now = ground arith

-- No gossip changes a node's own row.
pub own_row-merge :
    (m : Membership) (r : NodeInfo) (now : ℕ)
    → get (merge m r now).0.rows m.self_id ≡ get m.rows m.self_id
own_row-merge m r now = ground (arith, rows-merge m r now m.self_id)

-- A row is only ever replaced by one that is at least as new, and never lost.
merge_monotone :
    (m : Membership) (r : NodeInfo) (now : ℕ) (k : NodeId) (x : NodeInfo)
    → get m.rows k ≡ some x
    → (y : NodeInfo) × (get (merge m r now).0.rows k ≡ some y) × AtLeast y x
merge_monotone m r now k x h = elim (Bool-cases (bytes_eq r.id m.self_id)) [
  | inl e ↦ (x, ground (arith, rows-merge m r now k), ground arith)
  | inr e ↦ elim (Bool-cases (bytes_eq r.id k)) [
    | inl hit ↦ (newer (some x) r, ground (arith, rows-merge m r now k), ground arith)
    | inr miss ↦ (x, ground (arith, rows-merge m r now k), ground arith)
  ]
]

-- Two rows of one node and one version are one row.
abbrev pub Agree : NodeInfo → NodeInfo → Type 0
Agree a b = a.id ≡ b.id → a.epoch ≡ b.epoch → a.hlc ≡ b.hlc → a ≡ b

newer_comm :
    (o : Option NodeInfo) (a b : NodeInfo)
    → (a.epoch ≡ b.epoch → a.hlc ≡ b.hlc → a ≡ b)
    → newer (some (newer o a)) b ≡ newer (some (newer o b)) a
newer_comm none a b h = ground arith
newer_comm (some x) a b h = ground arith

-- Two rows that are equal whenever their id, epoch and clock are can arrive in either order: the
-- table has the same rows afterwards.
pub merge_comm :
    (m : Membership) (a b : NodeInfo) (now later : ℕ) (k : NodeId)
    → Agree a b
    → get (merge (merge m a now).0 b later).0.rows k
      ≡ get (merge (merge m b now).0 a later).0.rows k
merge_comm m a b now later k agree =
    let ab = rows-merge (merge m a now).0 b later k in
    let ba = rows-merge (merge m b now).0 a later k in
    let one = rows-merge m a now k in
    let two = rows-merge m b now k in
    elim (Bool-cases (bytes_eq a.id k && bytes_eq b.id k)) [
      | inl both ↦
          let same : a.id ≡ b.id = ground (arith, bytes_eq_iff a.id k, bytes_eq_iff b.id k) in
          ground (
            arith,
            ab,
            ba,
            one,
            two,
            self-merge m a now,
            self-merge m b now,
            newer_comm (get m.rows k) a b (agree same),
          )
      | inr apart ↦ ground (arith, ab, ba, one, two, self-merge m a now, self-merge m b now)
    ]

taken-merge :
    (m : Membership) (r : NodeInfo) (now : ℕ)
    → (merge m r now).1 ≡ (if bytes_eq r.id m.self_id then false else touches (get m.rows r.id) r)
unfolding merge
taken-merge m r now = ground arith

touches-newer : (o : Option NodeInfo) (a : NodeInfo) → touches (some (newer o a)) a ≡ false
touches-newer none a = ground arith
touches-newer (some x) a = ground arith

newer_idem : (o : Option NodeInfo) (a : NodeInfo) → newer (some (newer o a)) a ≡ newer o a
newer_idem none a = ground arith
newer_idem (some x) a = ground arith

-- A row that arrives again changes no row and is reported as no change.
pub merge_idem :
    (m : Membership) (a : NodeInfo) (now later : ℕ) (k : NodeId)
    → (get (merge (merge m a now).0 a later).0.rows k ≡ get (merge m a now).0.rows k)
      × ((merge (merge m a now).0 a later).1 ≡ false)
merge_idem m a now later k = (
  ground (
    arith,
    rows-merge (merge m a now).0 a later k,
    rows-merge m a now k,
    self-merge m a now,
    newer_idem (get m.rows k) a,
  ),
  ground (
    arith,
    taken-merge (merge m a now).0 a later,
    rows-merge m a now a.id,
    self-merge m a now,
    touches-newer (get m.rows a.id) a,
    bytes_eq_iff a.id a.id,
  ),
)
