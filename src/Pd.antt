-- ===== src/Pd.antt =====
-- src/pd/state.rs and id_allocator.rs: the placement driver, over the cluster that the controller of
-- operators shares with it. The headers of answers, which hold the id of the cluster, are left out, and a
-- handler is one step.
pub mod Regions
pub mod Heartbeats
pub mod Ids
mod Examples
use aegisdb_core.Prelude.{
  ℕ, ◌+◌, Bool, true, false, ◌&&◌, ◌||◌, not, List, [], ◌∷◌, ◌++◌, Option, none, some, Result, ok,
  err, panic, String, ◌==◌, if◌then◌else◌, add64, ok_or,
}
use aegisdb_core.Prelude.Assoc.{Assoc, lookup, insert, values, nat_eq}
use aegisdb_core.Prelude.Bytes.{Bytes}
use aegisdb_core.Prelude.Order.{bytes_geb}
use aegisdb_core.RaftStore.Balancer.{StoreLoad, update_load, load_entry}
use aegisdb_core.RaftStore.Range.{is_empty}
use aegisdb_core.Scheduler.Cluster.{
  BasicCluster, new_cluster, member, set_insert, set_remove, put_region, put_store, get_region,
}
use aegisdb_core.Scheduler.Controller.{OperatorController, new_controller, dispatch, heartbeat}
use aegisdb_core.Scheduler.Region.{RegionInfo, Region, Peer, new_region, add_pending_peer}
use aegisdb_core.Scheduler.Store.{Store, StoreInfo, new_store}

-- The streams are the stores that have one.
pub record PdState : Type 0 where
  pub operator_controller : OperatorController
  pub heartbeat_streams : List ℕ
  pub counter : ℕ
  pub is_bootstrapped : Bool
  pub store_loads : Assoc ℕ StoreLoad

-- `PdState::new`, with the allocator's first number
abbrev pub new_pd : PdState
new_pd = record {
  operator_controller = new_controller new_cluster;
  heartbeat_streams = [];
  counter = 1000;
  is_bootstrapped = false;
  store_loads = [];
}

abbrev pub cluster_of : PdState → BasicCluster
cluster_of s = s.operator_controller.cluster

abbrev pub with_cluster : BasicCluster → PdState → PdState
with_cluster c s = record s { operator_controller = record s.operator_controller { cluster = c } }

abbrev pub bind_region_stream : ℕ → PdState → PdState
bind_region_stream store_id s = record s {
  heartbeat_streams = set_insert store_id s.heartbeat_streams;
}

abbrev pub unbind_region_stream : ℕ → PdState → PdState
unbind_region_stream store_id s = record s {
  heartbeat_streams = set_remove store_id s.heartbeat_streams;
}

-- `PdState::put_store`
abbrev pub add_store : ℕ → Store → PdState → PdState
add_store now store s = with_cluster (put_store (new_store now store) (cluster_of s)) s

abbrev pub bootstrap : ℕ → Store → PdState → PdState
bootstrap now store s =
    if s.is_bootstrapped then s else record (add_store now store s) { is_bootstrapped = true }

abbrev pub meta_of : Option StoreInfo → Result Store
meta_of none = err "store not found"
meta_of (some info) = ok info.meta

abbrev pub get_store : ℕ → PdState → Result Store
get_store store_id s = meta_of (lookup store_id (cluster_of s).stores)

-- `StoreStats` of proto/schedulerpb.proto, less what the handler does not read
pub record StoreStats : Type 0 where
  pub store_id : ℕ
  pub used_size : ℕ
  pub region_count : ℕ
  pub leader_count : ℕ
  pub healthy : Bool
  pub avg_resp_ms : ℕ
  pub error_count : ℕ
  pub mem_total : ℕ
  pub mem_used : ℕ
  pub disk_total : ℕ
  pub disk_used : ℕ
  pub network_state : String

abbrev pub with_stats : ℕ → StoreStats → StoreInfo → StoreInfo
with_stats now stats info = record info {
  last_heartbeat = now;
  region_count = stats.region_count;
  leader_count = stats.leader_count;
  region_size = stats.used_size;
  leader_size = stats.leader_count;
  healthy = stats.healthy;
  avg_resp_ms = stats.avg_resp_ms;
  error_count = stats.error_count;
  mem_total = stats.mem_total;
  mem_used = stats.mem_used;
  disk_total = stats.disk_total;
  disk_used = stats.disk_used;
  network_state = stats.network_state;
}

abbrev pub note_stats : ℕ → StoreStats → Option StoreInfo → PdState → PdState
note_stats now stats none s = s
note_stats now stats (some info) s =
    with_cluster (put_store (with_stats now stats info) (cluster_of s)) s

abbrev pub note_load : ℕ → StoreStats → PdState → PdState
note_load now stats s = record s {
  store_loads =
      insert stats.store_id
        (update_load now stats.region_count stats.leader_count stats.used_size stats.leader_count
          (load_entry now stats.store_id s.store_loads))
        s.store_loads;
}

abbrev pub handle_store_heartbeat : ℕ → Option StoreStats → PdState → Result (Unit {0}) × PdState
handle_store_heartbeat now none s = (err "store heartbeat missing stats", s)
handle_store_heartbeat now (some stats) s = (
  ok tt,
  note_load now stats (note_stats now stats (lookup stats.store_id (cluster_of s).stores) s),
)

-- `RegionHeartbeatRequest`; of the header only the sender is read.
pub record RegionHeartbeat : Type 0 where
  pub sender : Option ℕ
  pub region : Option Region
  pub leader : Option Peer
  pub pending_peers : List Peer
  pub approximate_size : ℕ

abbrev pub add_pending : List Peer → RegionInfo → RegionInfo
add_pending [] r = r
add_pending (p ∷ ps) r = add_pending ps (add_pending_peer p r)

abbrev pub reported : Region → Peer → RegionHeartbeat → RegionInfo
reported region leader request =
    record (add_pending request.pending_peers (new_region region (some leader))) {
      approximate_size = request.approximate_size;
    }

unfoldable pub take_report : ℕ → RegionInfo → PdState → PdState
take_report now info s =
    let known = with_cluster (put_region info (cluster_of s)) s in
    record known { operator_controller = dispatch now heartbeat info known.operator_controller }

abbrev pub answer_report : ℕ → ℕ → RegionInfo → PdState → Result (Unit {0}) × PdState
answer_report now store_id info s =
    let after = take_report now info s in
    if not (member store_id after.heartbeat_streams)
    then (err "heartbeat stream missing", after)
    else (ok tt, after)

abbrev with_leader :
    ℕ → ℕ → Region → Option Peer → RegionHeartbeat → PdState → Result (Unit {0}) × PdState
with_leader now store_id region none request s = (err "region heartbeat missing leader", s)
with_leader now store_id region (some leader) request s =
    answer_report now store_id (reported region leader request) s

abbrev with_region : ℕ → ℕ → Option Region → RegionHeartbeat → PdState → Result (Unit {0}) × PdState
with_region now store_id none request s = (err "region heartbeat missing region", s)
with_region now store_id (some region) request s =
    with_leader now store_id region request.leader request s

abbrev with_sender : ℕ → Option ℕ → RegionHeartbeat → PdState → Result (Unit {0}) × PdState
with_sender now none request s = (err "region heartbeat missing header", s)
with_sender now (some store_id) request s = with_region now store_id request.region request s

unfoldable pub handle_region_heartbeat : ℕ → RegionHeartbeat → PdState → Result (Unit {0}) × PdState
handle_region_heartbeat now request s = with_sender now request.sender request s

-- `IdAllocator::alloc`: the number given, and the counter after it, which wraps around.
abbrev pub alloc : ℕ → ℕ × ℕ
alloc counter = (add64 counter 1, add64 counter 1)

-- The new region's id and the ids of its peers.
unfoldable pub ask_split : Option Region → PdState → Result (ℕ × List ℕ) × PdState
ask_split none s = (err "ask split missing region", s)
ask_split (some region) s =
    let (new_region_id, next) = alloc s.counter in
    let (new_peer_id, last) = alloc next in
    (ok (new_region_id, new_peer_id ∷ []), record s { counter = last })

abbrev pub holds_key : Bytes → RegionInfo → Bool
holds_key key r =
    (is_empty r.region.start_key || bytes_geb key r.region.start_key)
    && (is_empty r.region.end_key || not (bytes_geb key r.region.end_key))

unfoldable pub find_holder : Bytes → List RegionInfo → Option RegionInfo
find_holder key [] = none
find_holder key (r ∷ rs) = let rest = find_holder key rs in if holds_key key r then some r else rest

abbrev pub region_answer : String → Option RegionInfo → Result (Region × Option Peer)
region_answer e none = err e
region_answer e (some r) = ok (r.region, r.leader)

unfoldable pub get_region_by_key : Bytes → PdState → Result (Region × Option Peer)
get_region_by_key key s =
    region_answer "region not found for key" (find_holder key (values (cluster_of s).regions))

unfoldable pub get_region_by_id : ℕ → PdState → Result (Region × Option Peer)
get_region_by_id region_id s =
    region_answer "region not found" (get_region region_id (cluster_of s))
