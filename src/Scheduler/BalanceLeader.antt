-- ===== src/Scheduler/BalanceLeader.antt =====
-- src/scheduler/schedulers/balance_leader.rs: moves the leadership of a region from a store that leads
-- many to one that leads few.
pub mod Sound
use aegisdb_core.Prelude.{
  ℕ, zero, suc, ◌+◌, ◌-◌, ◌%◌, ◌^◌, Bool, true, false, ◌||◌, List, [], ◌∷◌, Option, none, some, ltb,
  leb, if◌then◌else◌,
}
use aegisdb_core.Prelude.Assoc.{values}
use aegisdb_core.Raft.State.{Rand}
use aegisdb_core.Scheduler.Region.{RegionInfo, get_follower_store_ids}
use aegisdb_core.Scheduler.Store.{StoreInfo}
use aegisdb_core.Scheduler.Cluster.{BasicCluster, member, rand_leader_region}
use aegisdb_core.Scheduler.Filter.{Filter, select_source_stores, select_target_stores}
use aegisdb_core.Scheduler.Sorting.{sort_by}
use aegisdb_core.Scheduler.Operator.{Operator, create_transfer_leader_operator}
use aegisdb_core.Scheduler.BalanceRegion.{or_else}

abbrev pub most_leaders_first : StoreInfo → StoreInfo → Bool
most_leaders_first a b = leb b.leader_count a.leader_count

abbrev pub fewest_leaders_first : StoreInfo → StoreInfo → Bool
fewest_leaders_first a b = leb a.leader_count b.leader_count

-- `a as i32 - b as i32 < 2`, where the difference is taken modulo 2^32
abbrev pub less_than_two : ℕ → ℕ → Bool
less_than_two a b =
    let diff = (a % 2 ^ 32 + 2 ^ 32 - b % 2 ^ 32) % 2 ^ 32 in leb (2 ^ 31) diff || ltb diff 2

valid_targets : List ℕ → List StoreInfo → List StoreInfo
valid_targets followers [] = []
valid_targets followers (t ∷ ts) =
    let rest = valid_targets followers ts in if member t.meta.id followers then t ∷ rest else rest

module _ (now : ℕ) (r : RegionInfo) (source : StoreInfo) where
  first_target : List StoreInfo → ℕ → Option Operator × ℕ
  first_target [] seed = (none, seed)
  first_target (t ∷ ts) seed =
      let rest = first_target ts seed in
      if less_than_two source.leader_count t.leader_count then rest else (
        some (create_transfer_leader_operator now "transfer leader" r source.meta.id t.meta.id),
        seed,
      )

module _ (rand : Rand) (now : ℕ) where
  try_transfer : StoreInfo → List StoreInfo → Option RegionInfo × ℕ → Option Operator × ℕ
  unfolding first_target valid_targets
  try_transfer source targets (none, seed) = (none, seed)
  try_transfer source targets (some r, seed) =
      first_target now r source (valid_targets (get_follower_store_ids r) targets) seed

  module _ (c : BasicCluster) (targets : List StoreInfo) where
    retry : ℕ → StoreInfo → ℕ → Option Operator × ℕ
    unfolding try_transfer
    retry zero source seed = (none, seed)
    retry (suc n) source seed =
        or_else (try_transfer source targets (rand_leader_region rand source.meta.id c seed))
          (retry n source)

    from_sources : List StoreInfo → ℕ → Option Operator × ℕ
    unfolding retry
    from_sources [] seed = (none, seed)
    from_sources (source ∷ sources) seed = or_else (retry 10 source seed) (from_sources sources)

  unless_empty : BasicCluster → List StoreInfo → List StoreInfo → ℕ → Option Operator × ℕ
  unfolding from_sources
  unless_empty c [] targets seed = (none, seed)
  unless_empty c (s ∷ ss) [] seed = (none, seed)
  unless_empty c (s ∷ ss) (t ∷ ts) seed =
      from_sources c (sort_by fewest_leaders_first (t ∷ ts)) (sort_by most_leaders_first (s ∷ ss))
        seed

  -- `schedule`
  unfoldable pub schedule : List Filter → BasicCluster → ℕ → Option Operator × ℕ
  unfolding unless_empty
  schedule filters c seed =
      unless_empty c (select_source_stores (values c.stores) filters)
        (select_target_stores (values c.stores) filters) seed
