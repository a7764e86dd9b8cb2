-- ===== src/Mesh/Witnesses.antt =====
-- Runs of the membership table of crates/celmesh/src/membership.rs on two nodes, and the theorems
-- applied to them.
use celium.Prelude.{◌≡◌, ◌≢◌, refl, false, some, [], ◌∷◌, arith}
use celium.Prelude.Key.{bytes_eq, bytes_lt, bytes_key}
use celium.Prelude.Map.{empty, get, insert}
use celium.Prelude.Map.Assoc.{lookup, place}
use celium.Prelude.Text.{text}
use celium.Mesh.Membership.{NodeInfo, alive, suspect, Membership, new, merge, tick}
use celium.Mesh.Membership.Merge.{merge_comm, merge_idem, own_row-merge}
use celium.Mesh.Membership.Tracked.{
  IsTracked, merged, ticked_at, departed, run, new-IsTracked, run-IsTracked,
}
use celium.Mesh.Membership.Detector.{heard_alive}

abbrev home : NodeInfo
home = record { id = text "a"; addr = text "a:1"; epoch = 1; hlc = 1; status = alive }

abbrev peer : NodeInfo
peer = record { id = text "b"; addr = text "b:1"; epoch = 1; hlc = 5; status = alive }

abbrev newer_peer : NodeInfo
newer_peer = record { id = text "b"; addr = text "b:1"; epoch = 2; hlc = 1; status = suspect }

abbrev table : Membership
table = new (text "c") home 10 30 100

table-IsTracked : IsTracked table
table-IsTracked = new-IsTracked (text "c") home 10 30 100

abbrev joined : Membership
joined = (merge table peer 105).0

peer_joined : get joined.rows (text "b") ≡ some peer
unfolding new merge get insert lookup place empty bytes_eq bytes_lt
peer_joined = refl

peer-other : text "b" ≢ table.self_id
unfolding new
peer-other e = ground (arith, e)

merge_comm_example :
    get (merge (merge table peer 105).0 newer_peer 106).0.rows (text "b")
    ≡ get (merge (merge table newer_peer 105).0 peer 106).0.rows (text "b")
merge_comm_example =
    merge_comm table peer newer_peer 105 106 (text "b")
      (λ same epochs clocks. ground (arith, epochs))

merge_idem_example :
    (get (merge (merge table peer 105).0 peer 106).0.rows (text "b")
      ≡ get (merge table peer 105).0.rows (text "b"))
    × ((merge (merge table peer 105).0 peer 106).1 ≡ false)
merge_idem_example = merge_idem table peer 105 106 (text "b")

own_row-merge_example :
    get (merge table peer 105).0.rows table.self_id ≡ get table.rows table.self_id
own_row-merge_example = own_row-merge table peer 105

heard_alive_example :
    get (tick (merge table peer 105).0 110).0.rows (text "b")
    ≡ some (record peer { status = alive })
unfolding new
heard_alive_example =
    heard_alive table peer peer 105 110 table-IsTracked peer-other (omega arith) peer_joined
      (λ e. ground (arith, e)) (λ e. ground (arith, e)) (omega arith)

run-IsTracked_example :
    IsTracked (run table (merged peer 105 ∷ ticked_at 120 ∷ departed (text "b") ∷ []))
run-IsTracked_example =
    run-IsTracked (merged peer 105 ∷ ticked_at 120 ∷ departed (text "b") ∷ []) table table-IsTracked
