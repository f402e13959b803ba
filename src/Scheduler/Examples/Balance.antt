-- ===== src/Scheduler/Examples/Balance.antt =====
-- The schedulers at three stores and three regions, which have their peers on the first two stores and
-- their leaders on the first.
use aegisdb_core.Prelude.{
  ℕ, ◌+◌, ◌*◌, ◌≤◌, ◌≡◌, refl, arith, leb→le, false, [], ◌∷◌, none, some, add64,
}
use mathlib.Core.List.{Memᴰ}
use aegisdb_core.Prelude.Assoc.{lookup, insert, values, nat_eq}
use aegisdb_core.Raft.State.{Rand}
use aegisdb_core.Scheduler.Region.{RegionInfo, new_region}
use aegisdb_core.Scheduler.Store.{StoreInfo, new_store}
use aegisdb_core.Scheduler.Cluster.{
  BasicCluster, new_cluster, put_region, modify, update_store_stats, rand_leader_region,
  rand_follower_region, rand_pending_region,
}
use aegisdb_core.Scheduler.Cluster.Index.{IsIndexed, put_region-IsIndexed}
use aegisdb_core.Scheduler.Cluster.Picks.{Chosen}
use aegisdb_core.Scheduler.Filter.{is_out, select_source_stores, select_target_stores}
use aegisdb_core.Scheduler.Sorting.{sort_by}
use aegisdb_core.Scheduler.Operator.{create_move_peer_operator, create_transfer_leader_operator}
use aegisdb_core.Scheduler.BalanceRegion
use aegisdb_core.Scheduler.BalanceRegion.Sound.{Moves, schedule_lem}
use aegisdb_core.Scheduler.BalanceLeader
use aegisdb_core.Scheduler.BalanceLeader.Sound.{Transfers, transfer_lem}

abbrev low : ℕ → ℕ → ℕ → ℕ × ℕ
low seed lo hi = (lo, seed)

low_in_range : (seed lo hi : ℕ) → lo ≤ hi → (lo ≤ (low seed lo hi).0) × ((low seed lo hi).0 ≤ hi)
low_in_range seed lo hi h = (omega arith, h)

abbrev rand_low : Rand
rand_low = record { gen_range = low; in_range = low_in_range }

abbrev region_on : ℕ → RegionInfo
region_on id =
    new_region
      (record {
        id = id;
        start_key = [];
        end_key = [];
        region_epoch = none;
        peers =
            record { id = 10 * id; store_id = 1 } ∷ record { id = 10 * id + 1; store_id = 2 } ∷ [];
      })
      (some (record { id = 10 * id; store_id = 1 }))

abbrev store : ℕ → StoreInfo
store id = new_store 0 (record { id = id; address = "a"; state = 0 })

abbrev three_stores : BasicCluster
three_stores = record new_cluster { stores = (1, store 1) ∷ (2, store 2) ∷ (3, store 3) ∷ [] }

empty-IsIndexed : IsIndexed three_stores
unfolding lookup
empty-IsIndexed = record { peers = λ i s. refl; leaders = λ i s. refl }

abbrev full : BasicCluster
full = put_region (region_on 3) (put_region (region_on 2) (put_region (region_on 1) three_stores))

full-IsIndexed : IsIndexed full
full-IsIndexed = put_region-IsIndexed (region_on 3) _ (
    put_region-IsIndexed (region_on 2) _
      (put_region-IsIndexed (region_on 1) three_stores empty-IsIndexed))

schedule_example :
    (source target : StoreInfo) × (r : RegionInfo) × Memᴰ source (values full.stores)
    × (is_out 9 60 source ≡ false)
    × Memᴰ target (values full.stores)
    × (is_out 9 60 target ≡ false)
    × Chosen full source.meta.id r
    × Moves 9 source target r (create_move_peer_operator 9 "move peer" (region_on 3) 1 3 10000)
unfolding BalanceRegion.schedule select_source_stores select_target_stores put_region modify lookup
    insert update_store_stats sort_by add64 rand_leader_region rand_follower_region
    rand_pending_region
schedule_example =
    schedule_lem rand_low 9 60 full 0
      (create_move_peer_operator 9 "move peer" (region_on 3) 1 3 10000) full-IsIndexed refl

transfer_example :
    (source target : StoreInfo) × Memᴰ source (values full.stores)
    × (is_out 9 60 source ≡ false)
    × Memᴰ target (values full.stores)
    × (is_out 9 60 target ≡ false)
    × (target.leader_count + 2 ≤ source.leader_count)
    × Transfers full 9 source target
        (create_transfer_leader_operator 9 "transfer leader" (region_on 3) 1 2)
unfolding BalanceLeader.schedule select_source_stores select_target_stores put_region modify lookup
    insert update_store_stats sort_by add64 rand_leader_region
transfer_example =
    transfer_lem rand_low 9 60 full 0
      (create_transfer_leader_operator 9 "transfer leader" (region_on 3) 1 2) full-IsIndexed
      (leb→le _ _ refl, (leb→le _ _ refl, (leb→le _ _ refl, tt))) refl
