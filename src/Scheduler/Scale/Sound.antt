-- ===== src/Scheduler/Scale/Sound.antt =====
-- src/scheduler/schedulers/scale.rs: what an operator of the scheduler does.
use aegisdb_core.Prelude.{
  ℕ, ◌≤◌, ◌<◌, ◌≡◌, refl, ap, ◌∙◌, ◌⊎◌, inl, inr, arith, false, List, [], ◌∷◌, none, some, ltb, leb,
  if◌then◌else◌, length, subst, Bool-cases,
}
use mathlib.Core.List.{Memᴰ}
use aegisdb_core.Prelude.Assoc.{values}
use aegisdb_core.Raft.State.{Rand}
use aegisdb_core.Scheduler.Region.{RegionInfo, Peer, has_store, leads_on}
use aegisdb_core.Scheduler.Store.{StoreInfo}
use aegisdb_core.Scheduler.Cluster.{BasicCluster}
use aegisdb_core.Scheduler.Filter.{state_filter, is_out, target_lem}
use aegisdb_core.Scheduler.Sorting.{sort_by, mem-sort_by}
use aegisdb_core.Scheduler.Operator.{
  Operator, create_add_peer_operator, create_remove_peer_operator,
}
use aegisdb_core.Scheduler.BalanceRegion.Sound.{or_else_lem}
use aegisdb_core.Scheduler.Scale.{
  ScaleScheduler, with_peer_count, schedule, scale_up, scale_down, try_create_add_peer_operator,
  add_on, available_stores, lightest, is_lighter, try_create_remove_peer_operator, remove_first,
  not_leader, heavier_peer,
}

first_available :
    (r : RegionInfo) (x s : StoreInfo) (ss : List StoreInfo) {us : List StoreInfo}
    → has_store s.meta.id r.region.peers ≡ false
    → (Memᴰ x us → Memᴰ x ss × (has_store x.meta.id r.region.peers ≡ false))
    → Memᴰ x (s ∷ us)
    → Memᴰ x (s ∷ ss) × (has_store x.meta.id r.region.peers ≡ false)
first_available r x s ss lacks more (Memᴰ.head e) =
    (Memᴰ.head e, ap (λ (y : StoreInfo). has_store y.meta.id r.region.peers) e ∙ lacks)
first_available r x s ss lacks more (Memᴰ.tail m) = let (i, h) = more m in (Memᴰ.tail i, h)

mem-available :
    (r : RegionInfo) (x : StoreInfo) (ss : List StoreInfo)
    → Memᴰ x (available_stores r ss)
    → Memᴰ x ss × (has_store x.meta.id r.region.peers ≡ false)
unfolding available_stores
mem-available r x [] m = elim m [ ]
mem-available r x (s ∷ ss) m = elim (Bool-cases (has_store s.meta.id r.region.peers)) [
  | inl has ↦
      let same : available_stores r (s ∷ ss) ≡ available_stores r ss =
        rw (has, available_stores) refl in
      let (i, h) = mem-available r x ss (subst (Memᴰ x) same m) in (Memᴰ.tail i, h)
  | inr lacks ↦
      let same : available_stores r (s ∷ ss) ≡ s ∷ available_stores r ss =
        rw (lacks, available_stores) refl in
      first_available r x s ss lacks (mem-available r x ss) (subst (Memᴰ x) same m)
]

skip_second : (a s x : StoreInfo) (ss : List StoreInfo) → Memᴰ a (s ∷ ss) → Memᴰ a (s ∷ x ∷ ss)
skip_second a s x ss (Memᴰ.head e) = Memᴰ.head e
skip_second a s x ss (Memᴰ.tail m) = Memᴰ.tail (Memᴰ.tail m)

mem_lightest : (s : StoreInfo) (ss : List StoreInfo) → Memᴰ (lightest s ss) (s ∷ ss)
unfolding lightest
mem_lightest s [] = Memᴰ.head refl
mem_lightest s (x ∷ ss) = elim (Bool-cases (is_lighter x s)) [
  | inl better ↦ rw better (Memᴰ.tail (mem_lightest x ss))
  | inr worse ↦ rw worse (skip_second (lightest s ss) s x ss (mem_lightest s ss))
]

first_follower :
    (r : RegionInfo) (x p : Peer) (ps : List Peer) {us : List Peer}
    → leads_on p.store_id r ≡ false
    → (Memᴰ x us → Memᴰ x ps × (leads_on x.store_id r ≡ false))
    → Memᴰ x (p ∷ us)
    → Memᴰ x (p ∷ ps) × (leads_on x.store_id r ≡ false)
first_follower r x p ps follows more (Memᴰ.head e) =
    (Memᴰ.head e, ap (λ (y : Peer). leads_on y.store_id r) e ∙ follows)
first_follower r x p ps follows more (Memᴰ.tail m) = let (i, h) = more m in (Memᴰ.tail i, h)

mem-not_leader :
    (r : RegionInfo) (x : Peer) (ps : List Peer)
    → Memᴰ x (not_leader r ps)
    → Memᴰ x ps × (leads_on x.store_id r ≡ false)
unfolding not_leader
mem-not_leader r x [] m = elim m [ ]
mem-not_leader r x (p ∷ ps) m = elim (Bool-cases (leads_on p.store_id r)) [
  | inl leads ↦
      let same : not_leader r (p ∷ ps) ≡ not_leader r ps = rw (leads, not_leader) refl in
      let (i, h) = mem-not_leader r x ps (subst (Memᴰ x) same m) in (Memᴰ.tail i, h)
  | inr follows ↦
      let same : not_leader r (p ∷ ps) ≡ p ∷ not_leader r ps = rw (follows, not_leader) refl in
      first_follower r x p ps follows (mem-not_leader r x ps) (subst (Memᴰ x) same m)
]

-- The operator adds a peer to the region on a store of the cluster that has none, under a new id.
abbrev pub Adds : ℕ → ℕ → BasicCluster → RegionInfo → Operator → Type 0
Adds now max_down_time c r op =
    (target : StoreInfo) × (peer : ℕ) × Memᴰ target (values c.stores)
    × (is_out now max_down_time target ≡ false)
    × (has_store target.meta.id r.region.peers ≡ false)
    × (10000 ≤ peer)
    × (peer < 99999)
    × (op ≡ create_add_peer_operator now "scale up" r target.meta.id peer)

-- The operator removes a peer of the region that is not on its leader's store.
abbrev pub Removes : ℕ → RegionInfo → Operator → Type 0
Removes now r op =
    (p : Peer) × Memᴰ p r.region.peers
    × (leads_on p.store_id r ≡ false)
    × (op ≡ create_remove_peer_operator now "scale down" r p.store_id)

add_on_lem :
    (rand : Rand) (now : ℕ) (r : RegionInfo) (ss : List StoreInfo) (seed : ℕ) (op : Operator)
    → (add_on rand now r ss seed).0 ≡ some op
    → (target : StoreInfo) × (peer : ℕ) × Memᴰ target ss
      × (10000 ≤ peer)
      × (peer < 99999)
      × (op ≡ create_add_peer_operator now "scale up" r target.meta.id peer)
unfolding add_on
add_on_lem rand now r [] seed op h = cc h
add_on_lem rand now r (s ∷ ss) seed op h =
    let (low, high) = rand.in_range seed 10000 99998 (omega arith) in
    (lightest s ss, (rand.gen_range seed 10000 99998).0, mem_lightest s ss, low, omega arith, cc h)

remove_first_lem :
    (now : ℕ) (r : RegionInfo) (ps : List Peer) (op : Operator)
    → remove_first now r ps ≡ some op
    → (p : Peer) × Memᴰ p ps × (op ≡ create_remove_peer_operator now "scale down" r p.store_id)
unfolding remove_first
remove_first_lem now r [] op h = cc h
remove_first_lem now r (p ∷ ps) op h = (p, Memᴰ.head refl, cc h)

module _ (rand : Rand) (now max_down_time low high : ℕ) (c : BasicCluster) where
  abbrev the_scheduler : ScaleScheduler
  the_scheduler = with_peer_count (state_filter now max_down_time ∷ []) low high

  add_lem :
      (r : RegionInfo) (seed : ℕ) (op : Operator)
      → (try_create_add_peer_operator rand now r the_scheduler c seed).0 ≡ some op
      → Adds now max_down_time c r op
  unfolding try_create_add_peer_operator
  add_lem r seed op h =
      let (target, peer, m, l, u, e) = add_on_lem rand now r _ seed op h in
      let (i, lacks) = mem-available r target _ m in
      let (known, fine) = target_lem now max_down_time target (values c.stores) i in
      (target, peer, known, fine, lacks, l, u, e)

  remove_lem :
      (r : RegionInfo) (op : Operator)
      → try_create_remove_peer_operator now r the_scheduler c ≡ some op
      → (low < length r.region.peers) × Removes now r op
  unfolding try_create_remove_peer_operator
  remove_lem r op h = elim (Bool-cases (leb (length r.region.peers) low)) [
    | inl few ↦ absurd (ground arith)
    | inr many ↦
        let ps = sort_by (heavier_peer (values c.stores)) (not_leader r r.region.peers) in
        let h1 : remove_first now r ps ≡ some op = ground arith in
        let (p, m, e) = remove_first_lem now r ps op h1 in
        let (i, follows) =
          mem-not_leader r p r.region.peers
            (mem-sort_by (heavier_peer (values c.stores)) p (not_leader r r.region.peers) m) in
        (ground arith, (p, i, follows, e))
  ]

  abbrev pub Scales : List RegionInfo → Operator → Type 0
  Scales rs op =
      (r : RegionInfo) × Memᴰ r rs
      × (((length r.region.peers < low) × Adds now max_down_time c r op)
          ⊎ ((high < length r.region.peers) × (low < length r.region.peers) × Removes now r op))

  behind :
      (r : RegionInfo) (rs : List RegionInfo) (op : Operator) → Scales rs op → Scales (r ∷ rs) op
  behind r rs op (x, m, s) = (x, Memᴰ.tail m, s)

  up_first :
      (r : RegionInfo) (rs : List RegionInfo) (seed : ℕ) (op : Operator)
      → (if ltb (length r.region.peers) low
          then try_create_add_peer_operator rand now r the_scheduler c seed
          else (none, seed)).0
        ≡ some op
      → Scales (r ∷ rs) op
  up_first r rs seed op h = elim (Bool-cases (ltb (length r.region.peers) low)) [
    | inl few ↦ (r, Memᴰ.head refl, inl (ground arith, add_lem r seed op (ground arith)))
    | inr enough ↦ absurd (ground arith)
  ]

  down_first :
      (r : RegionInfo) (rs : List RegionInfo) (op : Operator)
      → (if ltb high (length r.region.peers)
          then try_create_remove_peer_operator now r the_scheduler c
          else none)
        ≡ some op
      → Scales (r ∷ rs) op
  down_first r rs op h = elim (Bool-cases (ltb high (length r.region.peers))) [
    | inl many ↦
        let (above, removes) = remove_lem r op (ground arith) in
        (r, Memᴰ.head refl, inr (ground arith, above, removes))
    | inr enough ↦ absurd (ground arith)
  ]

  scale_up_lem :
      (rs : List RegionInfo) (seed : ℕ) (op : Operator)
      → (scale_up rand now the_scheduler c rs seed).0 ≡ some op
      → Scales rs op
  unfolding scale_up
  scale_up_lem [] seed op h = cc h
  scale_up_lem (r ∷ rs) seed op h =
      or_else_lem (Scales (r ∷ rs)) _ _ (up_first r rs seed)
        (λ s o e. behind r rs o (scale_up_lem rs s o e)) op h

  scale_down_lem :
      (rs : List RegionInfo) (seed : ℕ) (op : Operator)
      → (scale_down rand now the_scheduler c rs seed).0 ≡ some op
      → Scales rs op
  unfolding scale_down
  scale_down_lem [] seed op h = cc h
  scale_down_lem (r ∷ rs) seed op h =
      or_else_lem (Scales (r ∷ rs)) _ _ (down_first r rs)
        (λ s o e. behind r rs o (scale_down_lem rs s o e)) op h

  -- If `schedule` gives an operator, it is for a region of the cluster: either one with fewer peers than
  -- the minimum, and it adds a peer, under an id from 10000 to 99998, on a store of the cluster that is
  -- up, not blocked and heard of in time and has no peer of the region; or one with more peers than the
  -- maximum and the minimum, and it removes a peer that is not on the store of the leader.
  pub scale_lem :
      (seed : ℕ) (op : Operator)
      → (schedule rand now the_scheduler c seed).0 ≡ some op
      → Scales (values c.regions) op
  unfolding schedule
  scale_lem seed op h =
      or_else_lem (Scales (values c.regions)) _ _ (scale_up_lem (values c.regions) seed)
        (scale_down_lem (values c.regions)) op h
