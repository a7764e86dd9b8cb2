-- ===== src/Mesh/Membership/Tracked.antt =====
-- The local clocks of the rows of crates/celmesh/src/membership.rs, along any sequence of the
-- table's operations.
use celium.Prelude.{
  ℕ, ◌≡◌, ◌≢◌, some, List, [], ◌∷◌, arith, if◌then◌else◌, inl, inr, Option-cases, Bool-cases, max,
}
use mathlib.Core.Option
use celium.Prelude.Key.{Bytes, bytes_eq, bytes_eq_iff, bytes_key}
use celium.Prelude.Map.{Map, get, get-insert, get-map_values, get-empty, empty}
use celium.Mesh.Membership.{
  NodeId, NodeInfo, alive, left, Membership, new, bump_self, merge, mark_left, tick, alter,
  next_status, touches,
}

abbrev pub IsTracked : Membership → Type 0
IsTracked m =
    (k : NodeId) (row : NodeInfo)
    → get m.rows k ≡ some row
    → (last : ℕ) × (get m.locals k ≡ some last)

-- What `get_mut` and a write do to every key.
pub get-alter {ℓ} :
    {V : Type ℓ} (f : V → V) (id k : NodeId) (m : Map NodeId V)
    → get (alter f id m) k ≡ (if bytes_eq id k then Option.map f (get m k) else get m k)
get-alter f id k m = elim (Option-cases (get m id)) [
  | inl e ↦ rw (e, alter) (ground (arith, bytes_eq_iff id k))
  | inr (v, e) ↦ rw (e, alter) (ground (arith, get-insert id k (f v) m, bytes_eq_iff id k))
]

-- `merge` leaves the table's own settings alone.
pub frame-merge :
    (m : Membership) (r : NodeInfo) (now : ℕ)
    → ((merge m r now).0.self_id ≡ m.self_id)
      × ((merge m r now).0.timeout_suspect ≡ m.timeout_suspect)
      × ((merge m r now).0.timeout_dead ≡ m.timeout_dead)
unfolding merge
frame-merge m r now = ground arith

-- A row that arrives is a heartbeat, taken or not.
pub locals-merge :
    (m : Membership) (r : NodeInfo) (now : ℕ)
    → IsTracked m
    → r.id ≢ m.self_id
    → get (merge m r now).0.locals r.id ≡ some now
unfolding merge
locals-merge m r now tracked other = elim (Option-cases (get m.rows r.id)) [
  | inl e ↦ ground (
    arith,
    get-insert r.id r.id now m.locals,
    bytes_eq_iff r.id r.id,
    bytes_eq_iff r.id m.self_id,
  )
  | inr (x, e) ↦
      let (last, clock) = tracked r.id x e in
      ground (
        arith,
        clock,
        get-insert r.id r.id now m.locals,
        get-alter (λ (_ : ℕ). now) r.id r.id m.locals,
        bytes_eq_iff r.id r.id,
        bytes_eq_iff r.id m.self_id,
      )
]

pub new-IsTracked :
    (cluster : Bytes) (self_info : NodeInfo) (slow late now : ℕ)
    → IsTracked (new cluster self_info slow late now)
unfolding new
new-IsTracked cluster self_info slow late now k row at = (
  now,
  ground (
    arith,
    get-insert self_info.id k self_info empty,
    get-insert self_info.id k now empty,
    get-empty {V = NodeInfo} k,
    bytes_eq_iff self_info.id k,
  ),
)

-- A row or a clock that is there stays there under a write to one key.
alter-keeps {ℓ} :
    {V : Type ℓ} (f : V → V) (id k : NodeId) (m : Map NodeId V) (v : V)
    → get m k ≡ some v
    → (w : V) × (get (alter f id m) k ≡ some w)
alter-keeps f id k m v at = elim (Bool-cases (bytes_eq id k)) [
  | inl e ↦ (f v, ground (arith, get-alter f id k m, e, at))
  | inr e ↦ (v, ground (arith, get-alter f id k m, e, at))
]

alter-reflects {ℓ} :
    {V : Type ℓ} (f : V → V) (id k : NodeId) (m : Map NodeId V) (w : V)
    → get (alter f id m) k ≡ some w
    → (v : V) × (get m k ≡ some v)
alter-reflects f id k m w at = elim (Option-cases (get m k)) [
  | inl e ↦ ground (arith, get-alter f id k m, e, at)
  | inr (v, e) ↦ (v, e)
]

pub bump_self-IsTracked :
    (m : Membership) (hlc now : ℕ) → IsTracked m → IsTracked (bump_self m hlc now)
unfolding bump_self
bump_self-IsTracked m hlc now tracked k row at =
    let (old, was) =
      alter-reflects (λ (r : NodeInfo). record r { hlc = max r.hlc hlc; status = alive }) m.self_id
        k m.rows row at in
    let (last, clock) = tracked k old was in
    alter-keeps (λ (_ : ℕ). now) m.self_id k m.locals last clock

pub mark_left-IsTracked : (m : Membership) (id : NodeId) → IsTracked m → IsTracked (mark_left m id)
unfolding mark_left
mark_left-IsTracked m id tracked = elim (Bool-cases (bytes_eq id m.self_id)) [
  | inl e ↦ rw e tracked
  | inr e ↦ rw e (λ k row at.
      let (old, was) =
        alter-reflects (λ (r : NodeInfo). record r { status = left }) id k m.rows row at in
      tracked k old was)
]

pub merge-IsTracked :
    (m : Membership) (r : NodeInfo) (now : ℕ) → IsTracked m → IsTracked (merge m r now).0
unfolding merge
merge-IsTracked m r now tracked = elim (Bool-cases (bytes_eq r.id m.self_id)) [
  | inl e ↦ rw e tracked
  | inr e ↦ elim (Bool-cases (touches (get m.rows r.id) r)) [
    | inl t ↦
        rw (e, t)
          (λ k row at. elim (Bool-cases (bytes_eq r.id k)) [
            | inl same ↦
                (now, ground (arith, get-insert r.id k now m.locals, same, bytes_eq_iff r.id k))
            | inr other ↦
                let (last, clock) =
                  tracked k row
                    (ground (arith, at, get-insert r.id k r m.rows, bytes_eq_iff r.id k, other)) in
                (
                  last,
                  ground (arith, clock, get-insert r.id k now m.locals, bytes_eq_iff r.id k, other),
                )
          ])
    | inr t ↦
        rw (e, t)
          (λ k row at.
            let (last, clock) = tracked k row at in
            alter-keeps (λ (_ : ℕ). now) r.id k m.locals last clock)
  ]
]

pub tick-IsTracked : (m : Membership) (now : ℕ) → IsTracked m → IsTracked (tick m now).0
unfolding tick
tick-IsTracked m now tracked k row at = elim (Option-cases (get m.rows k)) [
  | inl e ↦ ground (
    arith,
    at,
    e,
    get-map_values (λ id (x : NodeInfo). record x { status = next_status m now id x }) k m.rows,
  )
  | inr (old, e) ↦ tracked k old e
]

-- The calls that change a table, each with the clock it reads.
pub data Event : Type 0 where
  bumped : ℕ → ℕ → Event
  merged : NodeInfo → ℕ → Event
  departed : NodeId → Event
  ticked_at : ℕ → Event

unfoldable pub step : Membership → Event → Membership
step m (bumped hlc now) = bump_self m hlc now
step m (merged r now) = (merge m r now).0
step m (departed id) = mark_left m id
step m (ticked_at now) = (tick m now).0

unfoldable pub run : Membership → List Event → Membership
run m [] = m
run m (e ∷ es) = run (step m e) es

step-IsTracked : (m : Membership) (e : Event) → IsTracked m → IsTracked (step m e)
unfolding step
step-IsTracked m (bumped hlc now) = bump_self-IsTracked m hlc now
step-IsTracked m (merged r now) = merge-IsTracked m r now
step-IsTracked m (departed id) = mark_left-IsTracked m id
step-IsTracked m (ticked_at now) = tick-IsTracked m now

-- From a tracked table every sequence of calls ends in one: each row has a local clock.
pub run-IsTracked : (es : List Event) (m : Membership) → IsTracked m → IsTracked (run m es)
unfolding run
run-IsTracked [] m tracked = tracked
run-IsTracked (e ∷ es) m tracked = run-IsTracked es (step m e) (step-IsTracked m e tracked)
