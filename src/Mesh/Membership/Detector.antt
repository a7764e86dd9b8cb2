-- ===== src/Mesh/Membership/Detector.antt =====
-- The failure detector of crates/celmesh/src/membership.rs: what a tick does to each row.
use celium.Prelude.{
  ℕ, ◌-◌, ◌≤◌, ◌<◌, ◌≡◌, ◌≢◌, refl, false, Option, none, some, List, [], ◌∷◌, arith, leb, map, sym,
  ap, ◌∙◌,
}
use mathlib.Core.Option
use celium.Prelude.Key.{bytes_eq_iff, bytes_key}
use celium.Prelude.Map.{get, items, get-map_values, items-map_values}
use celium.Mesh.Membership.Tracked.{IsTracked, locals-merge, frame-merge}
use celium.Mesh.Membership.{
  NodeId, NodeInfo, NodeStatus, alive, dead, left, Membership, TickDelta, no_delta, elapsed,
  next_status, add_delta, count_changes, tick, merge,
}

abbrev pub ticked : Membership → ℕ → NodeId → NodeInfo → NodeInfo
ticked m now id row = record row { status = next_status m now id row }

-- Every row gets its next status, and nothing else of the table changes.
pub rows-tick :
    (m : Membership) (now : ℕ) (k : NodeId)
    → get (tick m now).0.rows k ≡ Option.map (ticked m now k) (get m.rows k)
unfolding tick
rows-tick m now k = get-map_values (ticked m now) k m.rows

-- A second round at the same instant finds the status in place.
next_status_idem :
    (m : Membership) (now : ℕ) (k : NodeId) (row : NodeInfo)
    → next_status m now k (ticked m now k row) ≡ next_status m now k row
next_status_idem m now k row = ground arith

locals-tick :
    (m : Membership) (now : ℕ)
    → ((tick m now).0.locals ≡ m.locals)
      × ((tick m now).0.self_id ≡ m.self_id)
      × ((tick m now).0.timeout_suspect ≡ m.timeout_suspect)
      × ((tick m now).0.timeout_dead ≡ m.timeout_dead)
unfolding tick
locals-tick m now = (refl, refl, refl, refl)

add_delta-same :
    (old next : NodeStatus) (delta : TickDelta) → next ≡ old → add_delta old next delta ≡ delta
add_delta-same old next delta e = ground arith

again :
    (m : Membership) (now : ℕ) (k : NodeId) (o : Option NodeInfo) {p q : Option NodeInfo}
    → p ≡ Option.map (ticked m now k) o
    → q ≡ Option.map (ticked m now k) p
    → q ≡ p
again m now k none e f = cc
again m now k (some row) e f =
    let twice : some (ticked m now k (ticked m now k row)) ≡ some (ticked m now k row) =
      ap (λ (a : NodeStatus). some (record row { status = a })) (next_status_idem m now k row) in
    f ∙ ap (Option.map (ticked m now k)) e ∙ twice ∙ sym e

-- A loop in which no row changes counts nothing.
count_changes-same :
    (next : NodeId → NodeInfo → NodeStatus) (f : NodeId → NodeInfo → NodeInfo)
    → ((k : NodeId) (row : NodeInfo) → next k (f k row) ≡ (f k row).status)
    → (xs : List (NodeId × NodeInfo)) (delta : TickDelta)
    → count_changes next (map (λ e. (e.0, f e.0 e.1)) xs) delta ≡ delta
unfolding count_changes
count_changes-same next f same [] delta = refl
count_changes-same next f same ((k, row) ∷ xs) delta =
    ap (count_changes next (map (λ e. (e.0, f e.0 e.1)) xs))
      (add_delta-same (f k row).status (next k (f k row)) delta (same k row))
    ∙ count_changes-same next f same xs delta

-- A second tick at the same instant changes no row and counts nothing.
tick_idem :
    (m : Membership) (now : ℕ)
    → ((tick (tick m now).0 now).1 ≡ no_delta)
      × ((k : NodeId) → get (tick (tick m now).0 now).0.rows k ≡ get (tick m now).0.rows k)
unfolding tick
tick_idem m now = (
  rw (items-map_values (ticked m now) m.rows) (
      count_changes-same (next_status m now) (ticked m now) (next_status_idem m now) (items m.rows)
        no_delta),
  λ k.
      again m now k (get m.rows k) (get-map_values (ticked m now) k m.rows)
        (get-map_values (ticked m now) k (tick m now).0.rows),
)

-- What a tick does to a peer that is neither left nor dead and not yet late.
heard_row :
    (n : Membership) (k : NodeId) (y : NodeInfo) (last now : ℕ)
    → k ≢ n.self_id
    → n.timeout_suspect ≤ n.timeout_dead
    → get n.rows k ≡ some y
    → get n.locals k ≡ some last
    → y.status ≢ left
    → y.status ≢ dead
    → now - last < n.timeout_suspect
    → get (tick n now).0.rows k ≡ some (record y { status = alive })
heard_row n k y last now other order at clock stays lives soon =
    let quiet : leb n.timeout_suspect (now - last) ≡ false = ground arith in
    let awake : leb n.timeout_dead (now - last) ≡ false = ground arith in
    let gap : elapsed n now k ≡ now - last = rw (clock, elapsed) refl in
    ground (arith, gap, quiet, awake, rows-tick n now k, bytes_eq_iff k n.self_id)

-- In a tracked table whose suspicion timeout is at most its death timeout, a peer, not the node
-- itself, that gossip has just reached is alive after a tick before the suspicion timeout, unless
-- its row says that it left or died.
pub heard_alive :
    (m : Membership) (r y : NodeInfo) (heard now : ℕ)
    → IsTracked m
    → r.id ≢ m.self_id
    → m.timeout_suspect ≤ m.timeout_dead
    → get (merge m r heard).0.rows r.id ≡ some y
    → y.status ≢ left
    → y.status ≢ dead
    → now - heard < m.timeout_suspect
    → get (tick (merge m r heard).0 now).0.rows r.id ≡ some (record y { status = alive })
heard_alive m r y heard now tracked other order at stays lives soon =
    let n = (merge m r heard).0 in
    let (same, quick, slow) = frame-merge m r heard in
    heard_row n r.id y heard now (λ e. other (e ∙ same)) (rw (quick, slow) order) at
      (locals-merge m r heard tracked other) stays lives (rw quick soon)
