-- ===== src/Pd/Examples.antt =====
-- Runs of src/pd/state.rs.
use aegisdb_core.Prelude.{ℕ, ◌≡◌, refl, [], ◌∷◌, none, some, ok, err, arith, ◌==◌, if◌then◌else◌}
use aegisdb_core.Prelude.Order.{bytes_geb}
use aegisdb_core.Pd.{
  new_pd, RegionHeartbeat, handle_region_heartbeat, get_region_by_key, cluster_of, reported,
}
use aegisdb_core.Pd.Heartbeats.{IsComplete, heartbeat_lem}
use aegisdb_core.Pd.Ids.{IsAbove, asked, asked-IsAbove}
use aegisdb_core.Pd.Regions.{routed_lem}
use aegisdb_core.RaftStore.Range.{key_in_region}
use aegisdb_core.Scheduler.Cluster.{get_region, member}
use aegisdb_core.Scheduler.Cluster.Index.{IsIndexed, new_cluster-IsIndexed}
use aegisdb_core.Scheduler.Region.{Region, Peer}

abbrev region : Region
region = record {
  id = 1;
  start_key = 97 ∷ [];
  end_key = 109 ∷ [];
  region_epoch = none;
  peers = record { id = 1; store_id = 1 } ∷ [];
}

abbrev leader : Peer
leader = record { id = 1; store_id = 1 }

abbrev beat : RegionHeartbeat
beat = record {
  sender = some 1;
  region = some region;
  leader = some leader;
  pending_peers = [];
  approximate_size = 10;
}

beat-IsComplete : IsComplete beat 1 region leader
beat-IsComplete = record { has_sender = refl; has_region = refl; has_leader = refl }

heartbeat_lem_example :
    let (result, after) = handle_region_heartbeat 5 beat new_pd in
    IsIndexed (cluster_of after)
    × ((id : ℕ)
        → get_region id (cluster_of after) ≡ (
            if 1 == id
            then some (reported region leader beat)
            else get_region id (cluster_of new_pd)))
    × (result ≡ (if member 1 [] then ok tt else err "heartbeat stream missing"))
heartbeat_lem_example =
    heartbeat_lem 5 beat new_pd 1 region leader beat-IsComplete new_cluster-IsIndexed

routed_lem_example :
    get_region_by_key (98 ∷ []) (handle_region_heartbeat 5 beat new_pd).1 ≡ ok (region, some leader)
unfolding key_in_region bytes_geb
routed_lem_example = routed_lem 5 beat new_pd 1 region leader (98 ∷ []) beat-IsComplete refl tt

asked-IsAbove_example : IsAbove 1000 (asked (region ∷ region ∷ []) new_pd)
asked-IsAbove_example = asked-IsAbove (region ∷ region ∷ []) new_pd (omega arith)
