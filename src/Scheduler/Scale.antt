-- ===== src/Scheduler/Scale.antt =====
-- src/scheduler/schedulers/scale.rs: adds a peer to a region that has too few, and removes one from a
-- region that has too many. `rand` is the random generator and `seed` its state; `now` is the clock.
pub mod Sound
use aegisdb_core.Prelude.{
  ℕ, Bool, true, false, not, ◌&&◌, ◌||◌, List, [], ◌∷◌, Option, none, some, ltb, leb, ◌==◌,
  if◌then◌else◌, length,
}
use aegisdb_core.Prelude.Assoc.{values}
use aegisdb_core.Raft.State.{Rand}
use aegisdb_core.Scheduler.Region.{RegionInfo, Peer, has_store, leads_on}
use aegisdb_core.Scheduler.Store.{StoreInfo}
use aegisdb_core.Scheduler.Cluster.{BasicCluster}
use aegisdb_core.Scheduler.Filter.{Filter, select_target_stores}
use aegisdb_core.Scheduler.Sorting.{sort_by}
use aegisdb_core.Scheduler.Operator.{
  Operator, create_add_peer_operator, create_remove_peer_operator,
}
use aegisdb_core.Scheduler.BalanceRegion.{or_else, heavier_first}

-- The filters, `min_peer_count` and `max_peer_count`
pub record ScaleScheduler : Type 0 where
  pub filters : List Filter
  pub min_peer_count : ℕ
  pub max_peer_count : ℕ

-- `with_peer_count`
abbrev pub with_peer_count : List Filter → ℕ → ℕ → ScaleScheduler
with_peer_count filters low high = record {
  filters = filters;
  min_peer_count = low;
  max_peer_count = high;
}

abbrev pub is_schedule_allowed : ScaleScheduler → BasicCluster → Bool
is_schedule_allowed sch c = leb sch.min_peer_count (length (values c.stores))

available_stores : RegionInfo → List StoreInfo → List StoreInfo
available_stores r [] = []
available_stores r (s ∷ ss) =
    let rest = available_stores r ss in
    if not (has_store s.meta.id r.region.peers) then s ∷ rest else rest

-- `(a.region_count(), a.region_size()) < (b.region_count(), b.region_size())`
abbrev pub is_lighter : StoreInfo → StoreInfo → Bool
is_lighter a b =
    ltb a.region_count b.region_count
    || (a.region_count == b.region_count && ltb a.region_size b.region_size)

-- The first of the stores with the least load.
lightest : StoreInfo → List StoreInfo → StoreInfo
lightest best [] = best
lightest best (s ∷ ss) = lightest (if is_lighter s best then s else best) ss

module _ (rand : Rand) (now : ℕ) (r : RegionInfo) where
  add_on : List StoreInfo → ℕ → Option Operator × ℕ
  unfolding lightest
  add_on [] seed = (none, seed)
  add_on (s ∷ ss) seed =
      let (peer, next) = rand.gen_range seed 10000 99998 in
      (some (create_add_peer_operator now "scale up" r (lightest s ss).meta.id peer), next)

  try_create_add_peer_operator : ScaleScheduler → BasicCluster → ℕ → Option Operator × ℕ
  unfolding add_on available_stores
  try_create_add_peer_operator sch c seed =
      add_on (available_stores r (select_target_stores (values c.stores) sch.filters)) seed

find_info : ℕ → List StoreInfo → Option StoreInfo
find_info id [] = none
find_info id (s ∷ ss) = let rest = find_info id ss in if s.meta.id == id then some s else rest

abbrev no_behind : Option StoreInfo → Option StoreInfo → Bool
no_behind (some a) (some b) = heavier_first a b
no_behind (some a) none = true
no_behind none b = true

-- Peers on stores that are not known compare as equal to all others.
heavier_peer : List StoreInfo → Peer → Peer → Bool
unfolding find_info
heavier_peer stores a b = no_behind (find_info a.store_id stores) (find_info b.store_id stores)

not_leader : RegionInfo → List Peer → List Peer
not_leader r [] = []
not_leader r (p ∷ ps) =
    let rest = not_leader r ps in if leads_on p.store_id r then rest else p ∷ rest

module _ (now : ℕ) (r : RegionInfo) where
  remove_first : List Peer → Option Operator
  remove_first [] = none
  remove_first (p ∷ ps) = some (create_remove_peer_operator now "scale down" r p.store_id)

  try_create_remove_peer_operator : ScaleScheduler → BasicCluster → Option Operator
  unfolding remove_first not_leader heavier_peer
  try_create_remove_peer_operator sch c =
      if leb (length r.region.peers) sch.min_peer_count
      then none
      else remove_first (sort_by (heavier_peer (values c.stores)) (not_leader r r.region.peers))

module _ (rand : Rand) (now : ℕ) (sch : ScaleScheduler) (c : BasicCluster) where
  scale_up : List RegionInfo → ℕ → Option Operator × ℕ
  unfolding try_create_add_peer_operator
  scale_up [] seed = (none, seed)
  scale_up (r ∷ rs) seed =
      or_else
        (if ltb (length r.region.peers) sch.min_peer_count
          then try_create_add_peer_operator rand now r sch c seed
          else (none, seed))
        (scale_up rs)

  scale_down : List RegionInfo → ℕ → Option Operator × ℕ
  unfolding try_create_remove_peer_operator
  scale_down [] seed = (none, seed)
  scale_down (r ∷ rs) seed =
      or_else
        (
          (if ltb sch.max_peer_count (length r.region.peers)
              then try_create_remove_peer_operator now r sch c
              else none),
          seed,
        )
        (scale_down rs)

  -- `schedule`
  unfoldable pub schedule : ℕ → Option Operator × ℕ
  unfolding scale_up scale_down
  schedule seed = or_else (scale_up (values c.regions) seed) (scale_down (values c.regions))
