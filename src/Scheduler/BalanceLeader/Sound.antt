-- ===== src/Scheduler/BalanceLeader/Sound.antt =====
-- src/scheduler/schedulers/balance_leader.rs: what an operator of the scheduler does.
use aegisdb_core.Prelude.{
  ℕ, zero, suc, ◌+◌, ◌^◌, ◌≤◌, ◌<◌, ◌≡◌, refl, sym, ap, ◌∙◌, inl, inr, arith, true, false, List, [],
  ◌∷◌, Option, none, some, Bool-cases, subst, All,
}
use mathlib.Core.List.{Memᴰ}
use aegisdb_core.Prelude.Assoc.{lookup, nat_eq, values}
use aegisdb_core.Raft.State.{Rand}
use aegisdb_core.Scheduler.Region.{RegionInfo, leads_on, get_follower_store_ids}
use aegisdb_core.Scheduler.Store.{StoreInfo}
use aegisdb_core.Scheduler.Cluster.{BasicCluster, member, rand_leader_region}
use aegisdb_core.Scheduler.Cluster.Index.{IsIndexed}
use aegisdb_core.Scheduler.Cluster.Picks.{leader_leads}
use aegisdb_core.Scheduler.Filter.{
  state_filter, is_out, select_source_stores, select_target_stores, source_lem, target_lem,
}
use aegisdb_core.Scheduler.Sorting.{sort_by, mem-sort_by}
use aegisdb_core.Scheduler.Operator.{Operator, create_transfer_leader_operator}
use aegisdb_core.Scheduler.BalanceRegion.Sound.{or_else_lem}
use aegisdb_core.Scheduler.BalanceLeader.{
  schedule, unless_empty, from_sources, retry, try_transfer, first_target, valid_targets,
  less_than_two, most_leaders_first, fewest_leaders_first,
}

-- The operator moves the leadership of the region, which the source leads, to the target, which has a
-- follower.
abbrev pub Transfers : BasicCluster → ℕ → StoreInfo → StoreInfo → Operator → Type 0
Transfers c now source target op =
    (r : RegionInfo) × (id : ℕ) × (lookup id c.regions ≡ some r)
    × (leads_on source.meta.id r ≡ true)
    × (member target.meta.id (get_follower_store_ids r) ≡ true)
    × (op ≡ create_transfer_leader_operator now "transfer leader" r source.meta.id target.meta.id)

skipped :
    (followers : List ℕ) (t : StoreInfo) (ts : List StoreInfo)
    → member t.meta.id followers ≡ false
    → valid_targets followers (t ∷ ts) ≡ valid_targets followers ts
unfolding valid_targets
skipped followers t ts h = rw h refl

kept :
    (followers : List ℕ) (t : StoreInfo) (ts : List StoreInfo)
    → member t.meta.id followers ≡ true
    → valid_targets followers (t ∷ ts) ≡ t ∷ valid_targets followers ts
unfolding valid_targets
kept followers t ts h = rw h refl

taken :
    (followers : List ℕ) (x t : StoreInfo) (ts : List StoreInfo) {us : List StoreInfo}
    → member t.meta.id followers ≡ true
    → (Memᴰ x us → Memᴰ x ts × (member x.meta.id followers ≡ true))
    → Memᴰ x (t ∷ us)
    → Memᴰ x (t ∷ ts) × (member x.meta.id followers ≡ true)
taken followers x t ts good more (Memᴰ.head e) =
    (Memᴰ.head e, ap (λ (s : StoreInfo). member s.meta.id followers) e ∙ good)
taken followers x t ts good more (Memᴰ.tail m) = let (i, h) = more m in (Memᴰ.tail i, h)

mem-valid_targets :
    (followers : List ℕ) (x : StoreInfo) (ts : List StoreInfo)
    → Memᴰ x (valid_targets followers ts)
    → Memᴰ x ts × (member x.meta.id followers ≡ true)
unfolding valid_targets
mem-valid_targets followers x [] m = elim m [ ]
mem-valid_targets followers x (t ∷ ts) m = elim (Bool-cases (member t.meta.id followers)) [
  | inr out ↦
      let (i, h) =
        mem-valid_targets followers x ts (subst (Memᴰ x) (skipped followers t ts out) m) in
      (Memᴰ.tail i, h)
  | inl good ↦
      taken followers x t ts good (mem-valid_targets followers x ts)
        (subst (Memᴰ x) (kept followers t ts good) m)
]

first_target_lem :
    (now : ℕ) (r : RegionInfo) (source : StoreInfo) (ts : List StoreInfo) (seed : ℕ) (op : Operator)
    → (first_target now r source ts seed).0 ≡ some op
    → (target : StoreInfo) × Memᴰ target ts
      × (less_than_two source.leader_count target.leader_count ≡ false)
      × (op ≡ create_transfer_leader_operator now "transfer leader" r source.meta.id target.meta.id)
unfolding first_target
first_target_lem now r source [] seed op h = cc h
first_target_lem now r source (t ∷ ts) seed op h =
    elim (Bool-cases (less_than_two source.leader_count t.leader_count)) [
      | inl near ↦
          let (target, m, far, e) = first_target_lem now r source ts seed op (ground arith) in
          (target, Memᴰ.tail m, far, e)
      | inr far ↦ (t, Memᴰ.head refl, far, ground arith)
    ]

module _ (rand : Rand) (now : ℕ) (c : BasicCluster) (v : IsIndexed c)
    (targets : List StoreInfo) where
  -- An operator for the source.
  abbrev TransfersFrom : StoreInfo → Operator → Type 0
  TransfersFrom source op =
      (target : StoreInfo) × Memᴰ target targets
      × (less_than_two source.leader_count target.leader_count ≡ false)
      × Transfers c now source target op

  try_transfer_lem :
      (source : StoreInfo) (found : Option RegionInfo × ℕ)
      → ((r : RegionInfo)
          → found.0 ≡ some r
          → (id : ℕ) × (lookup id c.regions ≡ some r) × (leads_on source.meta.id r ≡ true))
      → (op : Operator) → (try_transfer rand now source targets found).0 ≡ some op
      → TransfersFrom source op
  unfolding try_transfer
  try_transfer_lem source (none, seed) led op h = cc h
  try_transfer_lem source (some r, seed) led op h =
      let (target, m, far, e) =
        first_target_lem now r source (valid_targets (get_follower_store_ids r) targets) seed op
          h in
      let (i, follows) = mem-valid_targets (get_follower_store_ids r) target targets m in
      let (id, known, leads) = led r refl in (target, i, far, (r, id, known, leads, follows, e))

  retry_lem :
      (n : ℕ) (source : StoreInfo) (seed : ℕ) (op : Operator)
      → (retry rand now c targets n source seed).0 ≡ some op
      → TransfersFrom source op
  unfolding retry
  retry_lem zero source seed op h = cc h
  retry_lem (suc n) source seed op h =
      or_else_lem (TransfersFrom source) _ _
        (try_transfer_lem source (rand_leader_region rand source.meta.id c seed)
          (leader_leads rand c v source.meta.id seed))
        (retry_lem n source) op h

  abbrev TransfersSome : List StoreInfo → Operator → Type 0
  TransfersSome sources op = (source : StoreInfo) × Memᴰ source sources × TransfersFrom source op

  from_sources_lem :
      (sources : List StoreInfo) (seed : ℕ) (op : Operator)
      → (from_sources rand now c targets sources seed).0 ≡ some op
      → TransfersSome sources op
  unfolding from_sources
  from_sources_lem [] seed op h = cc h
  from_sources_lem (source ∷ sources) seed op h =
      or_else_lem (TransfersSome (source ∷ sources)) _ _
        (λ op h. (source, Memᴰ.head refl, retry_lem 10 source seed op h))
        (λ s op h. let (x, m, moves) = from_sources_lem sources s op h in (x, Memᴰ.tail m, moves))
        op h

-- The counts themselves, where they fit.
far_apart : (a b : ℕ) → a < 2 ^ 31 → b < 2 ^ 31 → less_than_two a b ≡ false → b + 2 ≤ a
far_apart a b ha hb h = ground arith

count_in :
    (x : StoreInfo) (ss : List StoreInfo)
    → All (λ (s : StoreInfo). s.leader_count < 2 ^ 31) ss
    → Memᴰ x ss
    → x.leader_count < 2 ^ 31
count_in x [] a m = elim m [ ]
count_in x (s ∷ ss) (h, a) (Memᴰ.head e) =
    subst (λ (y : StoreInfo). y.leader_count < 2 ^ 31) (sym e) h
count_in x (s ∷ ss) (h, a) (Memᴰ.tail m) = count_in x ss a m

unless_empty_lem :
    (rand : Rand) (now : ℕ) (c : BasicCluster) (v : IsIndexed c) (ss ts : List StoreInfo) (seed : ℕ)
    (op : Operator)
    → (unless_empty rand now c ss ts seed).0 ≡ some op
    → TransfersSome rand now c v ts ss op
unfolding unless_empty
unless_empty_lem rand now c v [] ts seed op h = cc h
unless_empty_lem rand now c v (s ∷ ss) [] seed op h = cc h
unless_empty_lem rand now c v (s ∷ ss) (t ∷ ts) seed op h =
    let (source, sm, (target, tm, far, moves)) =
      from_sources_lem rand now c v (sort_by fewest_leaders_first (t ∷ ts))
        (sort_by most_leaders_first (s ∷ ss)) seed op h in
    (
      source,
      mem-sort_by most_leaders_first source (s ∷ ss) sm,
      (target, mem-sort_by fewest_leaders_first target (t ∷ ts) tm, far, moves),
    )

-- If no store leads 2^31 regions or more, an operator that `schedule` gives moves the leadership of a
-- known region between two stores of the cluster that are up, not blocked and heard of in time: the
-- first leads the region and at least two regions more than the second, which has a follower of it.
pub transfer_lem :
    (rand : Rand) (now max_down_time : ℕ) (c : BasicCluster) (seed : ℕ) (op : Operator)
    → IsIndexed c
    → All (λ (s : StoreInfo). s.leader_count < 2 ^ 31) (values c.stores)
    → (schedule rand now (state_filter now max_down_time ∷ []) c seed).0 ≡ some op
    → (source target : StoreInfo) × Memᴰ source (values c.stores)
      × (is_out now max_down_time source ≡ false)
      × Memᴰ target (values c.stores)
      × (is_out now max_down_time target ≡ false)
      × (target.leader_count + 2 ≤ source.leader_count)
      × Transfers c now source target op
unfolding schedule
transfer_lem rand now max_down_time c seed op v small h =
    let filters = state_filter now max_down_time ∷ [] in
    let ss = select_source_stores (values c.stores) filters in
    let ts = select_target_stores (values c.stores) filters in
    let (source, sm, (target, tm, far, moves)) = unless_empty_lem rand now c v ss ts seed op h in
    let (s_in, s_fine) = source_lem now max_down_time source (values c.stores) sm in
    let (t_in, t_fine) = target_lem now max_down_time target (values c.stores) tm in
    let apart =
      far_apart source.leader_count target.leader_count
        (count_in source (values c.stores) small s_in)
        (count_in target (values c.stores) small t_in) far in
    (source, target, s_in, s_fine, t_in, t_fine, apart, moves)
