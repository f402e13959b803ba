-- ===== src/Scheduler/Examples.antt =====
-- Runs of the placement driver: one region, which is to move a peer from store 2 to store 3.
mod Balance
use aegisdb_core.Prelude.{
  ℕ, ◌≡◌, refl, inl, arith, Bool, true, List, [], ◌∷◌, none, some, leb→le, ◌%◌, u64_mod, add64,
}
use aegisdb_core.Prelude.Assoc.{lookup, insert, values, nat_eq}
use aegisdb_core.Scheduler.Region.{Peer, RegionInfo, new_region, get_leader_store_id}
use aegisdb_core.Scheduler.Store.{new_store}
use aegisdb_core.Scheduler.Cluster.{
  BasicCluster, new_cluster, put_region, update_store_stats, modify,
}
use aegisdb_core.Scheduler.Cluster.Index.{IsIndexed, put_region-IsIndexed, new_cluster-IsIndexed}
use aegisdb_core.Scheduler.Cluster.Stats.{put_region_stats, total, peers_on, leads}
use aegisdb_core.Scheduler.Operator.{
  Operator, add_peer, remove_peer, create_move_peer_operator, start, is_finish, is_timeout,
}
use aegisdb_core.Scheduler.Controller.{
  OperatorController, success, cancel, heartbeat, active_push, returns, deadlock, new_controller,
  dispatch, add_operator, add_all, check_add_operator, add_operator_locked,
}
use aegisdb_core.Scheduler.Controller.History.{begin, dispatched, added, IsHonest}
use aegisdb_core.Scheduler.Controller.Honest.{reached-IsHonest}
use aegisdb_core.Scheduler.Controller.Taken.{add_operator_lem, add_operator_deadlocks, Outcome}
use aegisdb_core.Scheduler.Controller.Finish.{
  Beat, drive, drive_finishes, move_peer_cancelled, stepped,
}

abbrev peer : ℕ → ℕ → Peer
peer id store = record { id = id; store_id = store }

abbrev region_of : ℕ → List Peer → RegionInfo
region_of conf_ver peers =
    new_region
      (record {
        id = 1;
        start_key = [];
        end_key = [];
        region_epoch = some (record { conf_ver = conf_ver; version = 1 });
        peers = peers;
      })
      (some (peer 1 1))

abbrev before : RegionInfo
before = region_of 1 (peer 1 1 ∷ peer 2 2 ∷ [])

abbrev grown : RegionInfo
grown = region_of 2 (peer 1 1 ∷ peer 2 2 ∷ peer 3 3 ∷ [])

abbrev moved : RegionInfo
moved = region_of 3 (peer 1 1 ∷ peer 3 3 ∷ [])

abbrev cluster : BasicCluster
cluster = record {
  stores = (1, new_store 0 (record { id = 1; address = "a"; state = 0 })) ∷ [];
  regions = (1, before) ∷ [];
  store_regions = [];
  store_leaders = [];
}

abbrev move : Operator
move = create_move_peer_operator 5 "move" before 2 3 3

abbrev idle : OperatorController
idle = new_controller cluster

abbrev busy : OperatorController
busy = record idle { operators = (1, start 5 move) ∷ [] }

move_twice : check_add_operator (move ∷ move ∷ []) idle ≡ true
unfolding check_add_operator create_move_peer_operator lookup
move_twice = refl

stats_example :
    let c' = put_region before cluster in
    let rs = values c'.regions in
    let x = record (new_store 0 (record { id = 1; address = "a"; state = 0 })) {
      region_count = 1;
      region_size = 1;
      leader_count = 1;
      leader_size = 1;
    } in
    (x.region_count ≡ total (λ r. peers_on 1 1 r.region.peers) rs % u64_mod)
    × (x.region_size ≡ total (λ r. peers_on 1 r.approximate_size r.region.peers) rs % u64_mod)
    × (x.leader_count ≡ total (λ r. leads 1 1 (get_leader_store_id r)) rs % u64_mod)
    × (x.leader_size ≡ total (λ r. leads 1 r.approximate_size (get_leader_store_id r)) rs % u64_mod)
unfolding put_region update_store_stats lookup insert modify add64
stats_example =
    put_region_stats before cluster 1
      (record (new_store 0 (record { id = 1; address = "a"; state = 0 })) {
        region_count = 1;
        region_size = 1;
        leader_count = 1;
        leader_size = 1;
      })
      refl

add_operator_example :
    (b : Bool) × (c' : OperatorController) × (add_operator 5 (move ∷ []) idle ≡ returns (b, c'))
    × Outcome 5 (move ∷ []) idle b c'
add_operator_example = add_operator_lem 5 (move ∷ []) idle (refl, tt)

move_added : add_operator 5 (move ∷ []) idle ≡ returns (true, busy)
unfolding add_operator check_add_operator add_all add_operator_locked create_move_peer_operator
    lookup insert
move_added = refl

reached-IsHonest_example : IsHonest (grown ∷ []) (dispatch 6 heartbeat grown busy)
unfolding create_move_peer_operator
reached-IsHonest_example = reached-IsHonest (
    dispatched 6 heartbeat grown
      (added 5 (move ∷ []) true busy (refl, tt) move_added (begin cluster)))

abbrev beats : List Beat
beats =
    record { now = 6; source = active_push; region = grown }
    ∷ record { now = 7; source = active_push; region = moved }
    ∷ []

finishes_example :
    let c' = drive beats busy in
    (lookup 1 c'.operators ≡ none)
    × (lookup 1 c'.op_records
        ≡ some (record { operator = record (start 5 move) { current_step = 2 }; status = success }))
unfolding create_move_peer_operator lookup is_finish is_timeout
finishes_example = drive_finishes 1 (start 5 move) beats busy refl refl (omega arith) refl (
  refl,
  (add_peer 3 3, refl, refl),
  refl,
  inl refl,
  (refl, (remove_peer 2, refl, refl), refl, inl refl, tt),
)

-- The operator made at 5, started at 8.
abbrev busy_later : OperatorController
busy_later = record idle { operators = (1, start 8 move) ∷ [] }

cancelled_example :
    let c' = dispatch 9 heartbeat grown busy_later in
    (lookup 1 c'.operators ≡ none)
    × (lookup 1 c'.op_records
        ≡ some (record { operator = stepped (start 8 move); status = cancel }))
unfolding lookup create_move_peer_operator
cancelled_example =
    move_peer_cancelled 5 8 9 "move" before grown 2 3 3 busy_later refl refl refl refl refl
      (λ h. ground arith) (leb→le _ _ refl) (omega arith)
