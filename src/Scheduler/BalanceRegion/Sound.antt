-- ===== src/Scheduler/BalanceRegion/Sound.antt =====
-- src/scheduler/schedulers/balance_region.rs: what an operator of the scheduler does.
use aegisdb_core.Prelude.{
  ℕ, zero, suc, ◌*◌, ◌%◌, ◌≤◌, ◌<◌, ◌≡◌, refl, sym, ◌∙◌, inl, inr, arith, false, List, [], ◌∷◌,
  Option, none, some, add64, u64_mod, Bool-cases,
}
use mathlib.Core.List.{Memᴰ}
use aegisdb_core.Prelude.Assoc.{values}
use aegisdb_core.Raft.State.{Rand}
use aegisdb_core.Scheduler.Region.{RegionInfo, Peer, store_ids, has_store}
use aegisdb_core.Scheduler.Store.{StoreInfo}
use aegisdb_core.Scheduler.Cluster.{
  BasicCluster, member, rand_pending_region, rand_follower_region, rand_leader_region,
}
use aegisdb_core.Scheduler.Cluster.Index.{IsIndexed}
use aegisdb_core.Scheduler.Cluster.Picks.{Chosen, pending_Chosen, follower_Chosen, leader_leads}
use aegisdb_core.Scheduler.Filter.{
  state_filter, is_out, select_source_stores, select_target_stores, source_lem, target_lem,
}
use aegisdb_core.Scheduler.Sorting.{sort_by, mem-sort_by}
use aegisdb_core.Scheduler.Operator.{Operator, create_move_peer_operator}
use aegisdb_core.Scheduler.BalanceRegion.{
  schedule, unless_empty, from_sources, retry, one_try, try_region, try_create_move_peer_operator,
  or_else, too_close, heavier_first, lighter_first,
}

member-store_ids : (k : ℕ) (ps : List Peer) → member k (store_ids ps) ≡ has_store k ps
member-store_ids k [] = refl
member-store_ids k (p ∷ ps) = ground (arith, member-store_ids k ps)

-- The operator moves a peer of the region from the source to the target, which has none and whose size,
-- with twice the region's added, stays below the source's.
abbrev pub Moves : ℕ → StoreInfo → StoreInfo → RegionInfo → Operator → Type 0
Moves now source target r op =
    (has_store target.meta.id r.region.peers ≡ false)
    × (add64 target.region_size (2 * r.approximate_size % u64_mod) < source.region_size)
    × (peer : ℕ) × (10000 ≤ peer)
    × (peer < 99999)
    × (op ≡ create_move_peer_operator now "move peer" r source.meta.id target.meta.id peer)

pub or_else_lem :
    (P : Operator → Type 0) (first : Option Operator × ℕ) (next : ℕ → Option Operator × ℕ)
    → ((op : Operator) → first.0 ≡ some op → P op)
    → ((seed : ℕ) (op : Operator) → (next seed).0 ≡ some op → P op)
    → (op : Operator) → (or_else first next).0 ≡ some op
    → P op
or_else_lem P (some x, seed) next f g op h = f op h
or_else_lem P (none, seed) next f g op h = g seed op h

later :
    (now : ℕ) (r : RegionInfo) (source x : StoreInfo) (targets : List StoreInfo) (op : Operator)
    → ((target : StoreInfo) × Memᴰ target targets × Moves now source target r op)
    → (target : StoreInfo) × Memᴰ target (x ∷ targets) × Moves now source target r op
later now r source x targets op (target, m, moves) = (target, Memᴰ.tail m, moves)

module _ (rand : Rand) (now : ℕ) where
  try_create_lem :
      (r : RegionInfo) (source : StoreInfo) (targets : List StoreInfo) (seed : ℕ) (op : Operator)
      → (try_create_move_peer_operator rand now r source targets seed).0 ≡ some op
      → (target : StoreInfo) × Memᴰ target targets × Moves now source target r op
  unfolding try_create_move_peer_operator
  try_create_lem r source [] seed op h = cc h
  try_create_lem r source (target ∷ targets) seed op h =
      elim (Bool-cases (too_close source target r)) [
        | inl near ↦
            later now r source target targets op
              (try_create_lem r source targets seed op (ground arith))
        | inr far ↦ elim (Bool-cases (member target.meta.id (store_ids r.region.peers))) [
          | inl has ↦
              later now r source target targets op
                (try_create_lem r source targets seed op (ground arith))
          | inr lacks ↦
              let (low, high) = rand.in_range seed 10000 99998 (omega arith) in
              (
                target,
                Memᴰ.head refl,
                (
                  sym (member-store_ids target.meta.id r.region.peers) ∙ lacks,
                  ground arith,
                  (rand.gen_range seed 10000 99998).0,
                  low,
                  omega arith,
                  ground arith,
                ),
              )
        ]
      ]

  module _ (c : BasicCluster) (v : IsIndexed c) (targets : List StoreInfo) where
    -- An operator for the source.
    abbrev MovesFrom : StoreInfo → Operator → Type 0
    MovesFrom source op =
        (target : StoreInfo) × (r : RegionInfo) × Memᴰ target targets
        × Chosen c source.meta.id r
        × Moves now source target r op

    try_region_lem :
        (source : StoreInfo) (found : Option RegionInfo × ℕ)
        → ((r : RegionInfo) → found.0 ≡ some r → Chosen c source.meta.id r)
        → (op : Operator) → (try_region rand now source targets found).0 ≡ some op
        → MovesFrom source op
    unfolding try_region
    try_region_lem source (none, seed) chosen op h = cc h
    try_region_lem source (some r, seed) chosen op h =
        let (target, m, moves) = try_create_lem r source targets seed op h in
        (target, r, m, chosen r refl, moves)

    leader_Chosen :
        (store seed : ℕ) (r : RegionInfo)
        → (rand_leader_region rand store c seed).0 ≡ some r
        → Chosen c store r
    leader_Chosen store seed r h =
        let (id, known, led) = leader_leads rand c v store seed r h in (id, known, inr led)

    one_try_lem :
        (source : StoreInfo) (seed : ℕ) (op : Operator)
        → (one_try rand now c targets source seed).0 ≡ some op
        → MovesFrom source op
    unfolding one_try
    one_try_lem source seed =
        or_else_lem (MovesFrom source) _ _
          (try_region_lem source (rand_pending_region rand source.meta.id c seed)
            (pending_Chosen rand c v source.meta.id seed))
          λ s.
            or_else_lem (MovesFrom source) _ _
              (try_region_lem source (rand_follower_region rand source.meta.id c s)
                (follower_Chosen rand c v source.meta.id s))
              λ s1.
                try_region_lem source (rand_leader_region rand source.meta.id c s1)
                  (leader_Chosen source.meta.id s1)

    retry_lem :
        (n : ℕ) (source : StoreInfo) (seed : ℕ) (op : Operator)
        → (retry rand now c targets n source seed).0 ≡ some op
        → MovesFrom source op
    unfolding retry
    retry_lem zero source seed op h = cc h
    retry_lem (suc n) source seed op h =
        or_else_lem (MovesFrom source) _ _ (one_try_lem source seed) (retry_lem n source) op h

    abbrev MovesSome : List StoreInfo → Operator → Type 0
    MovesSome sources op = (source : StoreInfo) × Memᴰ source sources × MovesFrom source op

    from_sources_lem :
        (sources : List StoreInfo) (seed : ℕ) (op : Operator)
        → (from_sources rand now c targets sources seed).0 ≡ some op
        → MovesSome sources op
    unfolding from_sources
    from_sources_lem [] seed op h = cc h
    from_sources_lem (source ∷ sources) seed op h =
        or_else_lem (MovesSome (source ∷ sources)) _ _
          (λ op h. (source, Memᴰ.head refl, retry_lem 10 source seed op h))
          (λ s op h. let (x, m, moves) = from_sources_lem sources s op h in (x, Memᴰ.tail m, moves))
          op h

unless_empty_lem :
    (rand : Rand) (now : ℕ) (c : BasicCluster) (v : IsIndexed c) (ss ts : List StoreInfo) (seed : ℕ)
    (op : Operator)
    → (unless_empty rand now c ss ts seed).0 ≡ some op
    → (source : StoreInfo) × Memᴰ source ss × MovesFrom rand now c v ts source op
unfolding unless_empty
unless_empty_lem rand now c v [] ts seed op h = cc h
unless_empty_lem rand now c v (s ∷ ss) [] seed op h = cc h
unless_empty_lem rand now c v (s ∷ ss) (t ∷ ts) seed op h =
    let (source, sm, (target, r, tm, chosen, moves)) =
      from_sources_lem rand now c v (sort_by lighter_first (t ∷ ts))
        (sort_by heavier_first (s ∷ ss)) seed op h in
    (
      source,
      mem-sort_by heavier_first source (s ∷ ss) sm,
      (target, r, mem-sort_by lighter_first target (t ∷ ts) tm, chosen, moves),
    )

-- If `schedule` gives an operator, it moves a peer between two stores of the cluster that are up, not
-- blocked and heard of in time, of a known region that has a peer or its leader on the first and no
-- peer on the second, under a new id from 10000 to 99998; and the size of the second store with twice
-- the region's, modulo 2^64, is below the size of the first.
pub schedule_lem :
    (rand : Rand) (now max_down_time : ℕ) (c : BasicCluster) (seed : ℕ) (op : Operator)
    → IsIndexed c
    → (schedule rand now (state_filter now max_down_time ∷ []) c seed).0 ≡ some op
    → (source target : StoreInfo) × (r : RegionInfo) × Memᴰ source (values c.stores)
      × (is_out now max_down_time source ≡ false)
      × Memᴰ target (values c.stores)
      × (is_out now max_down_time target ≡ false)
      × Chosen c source.meta.id r
      × Moves now source target r op
unfolding schedule
schedule_lem rand now max_down_time c seed op v h =
    let filters = state_filter now max_down_time ∷ [] in
    let ss = select_source_stores (values c.stores) filters in
    let ts = select_target_stores (values c.stores) filters in
    let (source, sm, (target, r, tm, chosen, moves)) =
      unless_empty_lem rand now c v ss ts seed op h in
    let (s_in, s_fine) = source_lem now max_down_time source (values c.stores) sm in
    let (t_in, t_fine) = target_lem now max_down_time target (values c.stores) tm in
    (source, target, r, s_in, s_fine, t_in, t_fine, chosen, moves)
