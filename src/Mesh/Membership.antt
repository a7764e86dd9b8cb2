-- ===== src/Mesh/Membership.antt =====
-- crates/celmesh/src/membership.rs: the gossiped membership table with its failure detector. An
-- instant and a duration are numbers of one unit; the clock's reading is an argument.
pub mod Merge
pub mod Tracked
pub mod Detector
use celium.Prelude.{
  ℕ, ◌+◌, ◌-◌, max, Bool, true, false, not, ◌&&◌, ◌||◌, Option, none, some, List, [], ◌∷◌, ltb, leb,
  eqb, length, retain, if◌then◌else◌,
}
use celium.Prelude.Key.{Bytes, bytes_eq, bytes_key}
use celium.Prelude.Map.{Map, empty, get, insert, values, items, map_values}

abbrev pub NodeId : Type 0
NodeId = Bytes

pub data NodeStatus : Type 0 where
  alive suspect dead left : NodeStatus

abbrev pub status_eq : NodeStatus → NodeStatus → Bool
status_eq alive alive = true
status_eq suspect suspect = true
status_eq dead dead = true
status_eq left left = true
status_eq _ _ = false

pub record NodeInfo : Type 0 where
  pub id : NodeId
  pub addr : Bytes
  pub epoch : ℕ
  pub hlc : ℕ
  pub status : NodeStatus

-- `(self.epoch, self.hlc) > (other.epoch, other.hlc)`
abbrev pub supersedes : NodeInfo → NodeInfo → Bool
supersedes self other =
    ltb other.epoch self.epoch || eqb self.epoch other.epoch && ltb other.hlc self.hlc

-- `locals` holds the `last_seen` of each `LocalState`.
pub record Membership : Type 0 where
  pub self_id : NodeId
  pub cluster : Bytes
  pub rows : Map NodeId NodeInfo
  pub locals : Map NodeId ℕ
  pub timeout_suspect : ℕ
  pub timeout_dead : ℕ

unfoldable pub new : Bytes → NodeInfo → ℕ → ℕ → ℕ → Membership
new cluster self_info timeout_suspect timeout_dead now = record {
  self_id = self_info.id;
  cluster = cluster;
  rows = insert self_info.id self_info empty;
  locals = insert self_info.id now empty;
  timeout_suspect = timeout_suspect;
  timeout_dead = timeout_dead;
}

unfoldable pub snapshot : Membership → List NodeInfo
snapshot m = values m.rows

unfoldable pub alive_count : Membership → ℕ
alive_count m = length (retain (λ r. status_eq r.status alive) (values m.rows))

-- `get_mut` of a key, and a write if it is there.
abbrev pub alter {ℓ} : {V : Type ℓ} → (V → V) → NodeId → Map NodeId V → Map NodeId V
alter f id m = elim (get m id) [ none ↦ m | some v ↦ insert id (f v) m ]

unfoldable pub bump_self : Membership → ℕ → ℕ → Membership
bump_self m hlc now = record m {
  rows = alter (λ row. record row { hlc = max row.hlc hlc; status = alive }) m.self_id m.rows;
  locals = alter (λ _. now) m.self_id m.locals;
}

-- Whether an incoming row is taken.
abbrev pub touches : Option NodeInfo → NodeInfo → Bool
touches none incoming = true
touches (some existing) incoming = supersedes incoming existing

unfoldable pub merge : Membership → NodeInfo → ℕ → Membership × Bool
merge m incoming now =
    if bytes_eq incoming.id m.self_id
    then (m, false)
    else if touches (get m.rows incoming.id) incoming
    then (
      record m {
        locals = insert incoming.id now m.locals;
        rows = insert incoming.id incoming m.rows;
      },
      true,
    )
    else (record m { locals = alter (λ _. now) incoming.id m.locals }, false)

unfoldable pub mark_left : Membership → NodeId → Membership
mark_left m id =
    if bytes_eq id m.self_id
    then m
    else record m { rows = alter (λ row. record row { status = left }) id m.rows }

pub record TickDelta : Type 0 where
  pub state_changes : ℕ
  pub suspect_promotions : ℕ
  pub dead_promotions : ℕ

abbrev pub no_delta : TickDelta
no_delta = record { state_changes = 0; suspect_promotions = 0; dead_promotions = 0 }

-- `locals.get(id).map(..).unwrap_or(now)`, and the saturating distance to it.
abbrev pub elapsed : Membership → ℕ → NodeId → ℕ
elapsed m now id = elim (get m.locals id) [ none ↦ now - now | some last ↦ now - last ]

abbrev pub classify : Membership → ℕ → NodeStatus
classify m gap =
    if leb m.timeout_dead gap then dead else if leb m.timeout_suspect gap then suspect else alive

-- The rows that `tick` passes over.
abbrev pub is_skipped : Membership → NodeId → NodeInfo → Bool
is_skipped m id row =
    bytes_eq id m.self_id || (status_eq row.status left || status_eq row.status dead)

abbrev pub next_status : Membership → ℕ → NodeId → NodeInfo → NodeStatus
next_status m now id row = if is_skipped m id row then row.status else classify m (elapsed m now id)

-- One round of the loop: what it adds to the counts.
abbrev pub add_delta : NodeStatus → NodeStatus → TickDelta → TickDelta
add_delta old next delta = if status_eq next old then delta else record {
  state_changes = delta.state_changes + 1;
  suspect_promotions =
      if status_eq old alive && status_eq next suspect
      then delta.suspect_promotions + 1
      else delta.suspect_promotions;
  dead_promotions =
      if status_eq next dead then delta.dead_promotions + 1 else delta.dead_promotions;
}

unfoldable pub count_changes :
    (NodeId → NodeInfo → NodeStatus) → List (NodeId × NodeInfo) → TickDelta → TickDelta
count_changes next [] delta = delta
count_changes next ((id, row) ∷ rest) delta =
    count_changes next rest (add_delta row.status (next id row) delta)

unfoldable pub tick : Membership → ℕ → Membership × TickDelta
tick m now = (
  record m {
    rows = map_values (λ id row. record row { status = next_status m now id row }) m.rows;
  },
  count_changes (next_status m now) (items m.rows) no_delta,
)
