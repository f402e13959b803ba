-- ===== src/Scheduler/BalanceRegion.antt =====
-- src/scheduler/schedulers/balance_region.rs: moves a peer from a full store to an empty one. `rand` is
-- the random generator and `seed` its state; `now` is the clock.
pub mod Sound
use aegisdb_core.Prelude.{
  ℕ, zero, suc, ◌*◌, ◌%◌, Bool, true, false, ◌&&◌, ◌||◌, List, [], ◌∷◌, Option, none, some, ltb,
  leb, ◌==◌, if◌then◌else◌, add64, u64_mod,
}
use aegisdb_core.Prelude.Assoc.{values}
use aegisdb_core.Raft.State.{Rand}
use aegisdb_core.Scheduler.Region.{RegionInfo, store_ids}
use aegisdb_core.Scheduler.Store.{StoreInfo}
use aegisdb_core.Scheduler.Cluster.{
  BasicCluster, member, rand_pending_region, rand_follower_region, rand_leader_region,
}
use aegisdb_core.Scheduler.Filter.{Filter, select_source_stores, select_target_stores}
use aegisdb_core.Scheduler.Sorting.{sort_by}
use aegisdb_core.Scheduler.Operator.{Operator, create_move_peer_operator}

abbrev pub heavier_first : StoreInfo → StoreInfo → Bool
heavier_first a b =
    ltb b.region_count a.region_count
    || (a.region_count == b.region_count && leb b.region_size a.region_size)

abbrev pub lighter_first : StoreInfo → StoreInfo → Bool
lighter_first a b =
    ltb a.region_count b.region_count
    || (a.region_count == b.region_count && leb a.region_size b.region_size)

-- `if let Some(…) = … { return … }`, and otherwise what follows.
abbrev pub or_else : Option Operator × ℕ → (ℕ → Option Operator × ℕ) → Option Operator × ℕ
or_else (some op, seed) next = (some op, seed)
or_else (none, seed) next = next seed

-- `source_size <= target_size + 2 * region_size`
abbrev pub too_close : StoreInfo → StoreInfo → RegionInfo → Bool
too_close source target r =
    leb source.region_size (add64 target.region_size (2 * r.approximate_size % u64_mod))

module _ (rand : Rand) (now : ℕ) where
  -- The description leaves out the ids of the stores and of the region.
  pub try_create_move_peer_operator :
      RegionInfo → StoreInfo → List StoreInfo → ℕ → Option Operator × ℕ
  try_create_move_peer_operator r source [] seed = (none, seed)
  try_create_move_peer_operator r source (target ∷ targets) seed =
      let rest = try_create_move_peer_operator r source targets seed in
      if too_close source target r
      then rest
      else if member target.meta.id (store_ids r.region.peers)
      then rest
      else (let (peer, next) = rand.gen_range seed 10000 99998 in
          (
            some (create_move_peer_operator now "move peer" r source.meta.id target.meta.id peer),
            next,
          ))

  try_region : StoreInfo → List StoreInfo → Option RegionInfo × ℕ → Option Operator × ℕ
  unfolding try_create_move_peer_operator
  try_region source targets (none, seed) = (none, seed)
  try_region source targets (some r, seed) = try_create_move_peer_operator r source targets seed

  module _ (c : BasicCluster) (targets : List StoreInfo) where
    one_try : StoreInfo → ℕ → Option Operator × ℕ
    unfolding try_region
    one_try source seed =
        or_else (try_region source targets (rand_pending_region rand source.meta.id c seed)) λ s.
          or_else (try_region source targets (rand_follower_region rand source.meta.id c s))
            λ s1. try_region source targets (rand_leader_region rand source.meta.id c s1)

    retry : ℕ → StoreInfo → ℕ → Option Operator × ℕ
    unfolding one_try
    retry zero source seed = (none, seed)
    retry (suc n) source seed = or_else (one_try source seed) (retry n source)

    from_sources : List StoreInfo → ℕ → Option Operator × ℕ
    unfolding retry
    from_sources [] seed = (none, seed)
    from_sources (source ∷ sources) seed = or_else (retry 10 source seed) (from_sources sources)

  unless_empty : BasicCluster → List StoreInfo → List StoreInfo → ℕ → Option Operator × ℕ
  unfolding from_sources
  unless_empty c [] targets seed = (none, seed)
  unless_empty c (s ∷ ss) [] seed = (none, seed)
  unless_empty c (s ∷ ss) (t ∷ ts) seed =
      from_sources c (sort_by lighter_first (t ∷ ts)) (sort_by heavier_first (s ∷ ss)) seed

  -- `schedule`
  unfoldable pub schedule : List Filter → BasicCluster → ℕ → Option Operator × ℕ
  unfolding unless_empty
  schedule filters c seed =
      unless_empty c (select_source_stores (values c.stores) filters)
        (select_target_stores (values c.stores) filters) seed
