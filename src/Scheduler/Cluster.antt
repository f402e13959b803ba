-- ===== src/Scheduler/Cluster.antt =====
-- src/scheduler/cluster/basic_cluster.rs: the stores and regions that the placement driver knows, and
-- two indices from a store to its regions. A call is one step, though put_region takes and lets go its locks
-- in turn.
pub mod Index
pub mod Stats
pub mod Picks
pub mod Known
use aegisdb_core.Prelude.{
  ℕ, Bool, true, false, not, ◌&&◌, List, [], ◌∷◌, Option, none, some, ◌==◌, if◌then◌else◌, length,
  get_elem?, add64, ◌-◌, ◌≡◌, inl, inr, arith, Option-cases,
}
use aegisdb_core.Prelude.Assoc.{Assoc, lookup, insert, values, map_values, lookup-insert, nat_eq}
use aegisdb_core.Raft.State.{Rand}
use aegisdb_core.Scheduler.Region.{RegionInfo, Peer, get_leader_store_id, is_healthy, leads_on}
use aegisdb_core.Scheduler.Store.{StoreInfo}

-- `HashSet<u64>`
abbrev pub member : ℕ → List ℕ → Bool
member k [] = false
member k (x ∷ xs) = let rest = member k xs in if x == k then true else rest

abbrev pub set_insert : ℕ → List ℕ → List ℕ
set_insert k xs = if member k xs then xs else k ∷ xs

abbrev pub set_remove : ℕ → List ℕ → List ℕ
set_remove k [] = []
set_remove k (x ∷ xs) = let rest = set_remove k xs in if x == k then rest else x ∷ rest

pub record BasicCluster : Type 0 where
  pub stores : Assoc ℕ StoreInfo
  pub regions : Assoc ℕ RegionInfo
  pub store_regions : Assoc ℕ (List ℕ)
  pub store_leaders : Assoc ℕ (List ℕ)

-- `BasicCluster::new`
abbrev pub new_cluster : BasicCluster
new_cluster = record { stores = []; regions = []; store_regions = []; store_leaders = [] }

abbrev pub put_store : StoreInfo → BasicCluster → BasicCluster
put_store s c = record c { stores = insert s.meta.id s c.stores }

abbrev pub get_region : ℕ → BasicCluster → Option RegionInfo
get_region id c = lookup id c.regions

-- `if let Some(v) = map.get_mut(&k) { … }`
unfoldable pub modify {ℓ} : {V : Type ℓ} → ℕ → (V → V) → Assoc ℕ V → Assoc ℕ V
modify k f m = elim (lookup k m) [ none ↦ m | some v ↦ insert k (f v) m ]

-- `Option::map`
abbrev pub map_option {ℓ κ} : {A : Type ℓ} {B : Type κ} → (A → B) → Option A → Option B
map_option f none = none
map_option f (some a) = some (f a)

pub lookup-modify {ℓ} :
    {V : Type ℓ} (s k : ℕ) (f : V → V) (m : Assoc ℕ V)
    → lookup s (modify k f m) ≡ (if k == s then map_option f (lookup s m) else lookup s m)
unfolding modify
lookup-modify s k f m = elim (Option-cases (lookup k m)) [
  | inl e ↦ ground arith
  | inr (v, e) ↦ ground (arith, lookup-insert k s (f v) m)
]

-- `map.entry(k).or_insert_with(HashSet::new).insert(id)`
add_to : ℕ → ℕ → Assoc ℕ (List ℕ) → Assoc ℕ (List ℕ)
add_to k id m = elim (lookup k m) [
  | none ↦ insert k (id ∷ []) m
  | some ids ↦ insert k (set_insert id ids) m
]

drop_peers : ℕ → List Peer → Assoc ℕ (List ℕ) → Assoc ℕ (List ℕ)
drop_peers id [] m = m
drop_peers id (p ∷ ps) m = drop_peers id ps (modify p.store_id (set_remove id) m)

drop_leader : ℕ → Option ℕ → Assoc ℕ (List ℕ) → Assoc ℕ (List ℕ)
drop_leader id none m = m
drop_leader id (some store) m = modify store (set_remove id) m

add_peers : ℕ → List Peer → Assoc ℕ (List ℕ) → Assoc ℕ (List ℕ)
unfolding add_to
add_peers id [] m = m
add_peers id (p ∷ ps) m = add_peers id ps (add_to p.store_id id m)

add_leader : ℕ → Option ℕ → Assoc ℕ (List ℕ) → Assoc ℕ (List ℕ)
unfolding add_to
add_leader id none m = m
add_leader id (some store) m = add_to store id m

-- The mappings of the region as it was, if it was known.
drop_old : ℕ → Option RegionInfo → BasicCluster → BasicCluster
unfolding drop_peers drop_leader
drop_old id none c = c
drop_old id (some old) c = record c {
  store_regions = drop_peers id old.region.peers c.store_regions;
  store_leaders = drop_leader id (get_leader_store_id old) c.store_leaders;
}

add_new : RegionInfo → BasicCluster → BasicCluster
unfolding add_peers add_leader
add_new r c = record c {
  regions = insert r.region.id r c.regions;
  store_regions = add_peers r.region.id r.region.peers c.store_regions;
  store_leaders = add_leader r.region.id (get_leader_store_id r) c.store_leaders;
}

abbrev pub reset_store : StoreInfo → StoreInfo
reset_store s = record s { region_count = 0; leader_count = 0; region_size = 0; leader_size = 0 }

abbrev pub add_region : ℕ → StoreInfo → StoreInfo
add_region size s = record s {
  region_count = add64 s.region_count 1;
  region_size = add64 s.region_size size;
}

abbrev pub add_led : ℕ → StoreInfo → StoreInfo
add_led size s = record s {
  leader_count = add64 s.leader_count 1;
  leader_size = add64 s.leader_size size;
}

count_peers : ℕ → List Peer → Assoc ℕ StoreInfo → Assoc ℕ StoreInfo
count_peers size [] stores = stores
count_peers size (p ∷ ps) stores = count_peers size ps (modify p.store_id (add_region size) stores)

count_leader : ℕ → Option ℕ → Assoc ℕ StoreInfo → Assoc ℕ StoreInfo
count_leader size none stores = stores
count_leader size (some store) stores = modify store (add_led size) stores

count_regions : List RegionInfo → Assoc ℕ StoreInfo → Assoc ℕ StoreInfo
unfolding count_peers count_leader
count_regions [] stores = stores
count_regions (r ∷ rs) stores = count_regions rs (
    count_leader r.approximate_size (get_leader_store_id r)
      (count_peers r.approximate_size r.region.peers stores))

unfoldable pub update_store_stats : BasicCluster → BasicCluster
unfolding count_regions
update_store_stats c = record c {
  stores = count_regions (values c.regions) (map_values reset_store c.stores);
}

unfoldable pub put_region : RegionInfo → BasicCluster → BasicCluster
unfolding drop_old add_new
put_region r c =
    update_store_stats (add_new r (drop_old r.region.id (lookup r.region.id c.regions) c))

abbrev size_at : ℕ → Assoc ℕ (List ℕ) → ℕ
size_at store m = elim (lookup store m) [ none ↦ 0 | some ids ↦ length ids ]

abbrev pub get_store_region_count : ℕ → BasicCluster → ℕ
get_store_region_count store c = size_at store c.store_regions

abbrev pub get_store_leader_count : ℕ → BasicCluster → ℕ
get_store_leader_count store c = size_at store c.store_leaders

-- The known regions of a set of ids that pass a test.
pub filter_regions : (RegionInfo → Bool) → Assoc ℕ RegionInfo → List ℕ → List RegionInfo
filter_regions f regions [] = []
filter_regions f regions (id ∷ ids) =
    let rest = filter_regions f regions ids in
    elim (lookup id regions) [ none ↦ rest | some r ↦ if f r then r ∷ rest else rest ]

module _ (rand : Rand) where
  -- A random one of the regions, and the next state of the generator.
  pick : ℕ → List RegionInfo → Option RegionInfo × ℕ
  pick seed [] = (none, seed)
  pick seed (r ∷ rs) =
      let (i, next) = rand.gen_range seed 0 (length rs) in (get_elem? (r ∷ rs) i, next)

  rand_region :
      (RegionInfo → Bool) → ℕ → Assoc ℕ (List ℕ) → BasicCluster → ℕ → Option RegionInfo × ℕ
  unfolding pick filter_regions
  rand_region f store index c seed = elim (lookup store index) [
    | none ↦ (none, seed)
    | some ids ↦ pick seed (filter_regions f c.regions ids)
  ]

  unfoldable pub rand_pending_region : ℕ → BasicCluster → ℕ → Option RegionInfo × ℕ
  unfolding rand_region
  rand_pending_region store c seed =
      rand_region (λ r. not (is_healthy r)) store c.store_regions c seed

  unfoldable pub rand_follower_region : ℕ → BasicCluster → ℕ → Option RegionInfo × ℕ
  unfolding rand_region
  rand_follower_region store c seed =
      rand_region (λ r. not (leads_on store r) && is_healthy r) store c.store_regions c seed

  unfoldable pub rand_leader_region : ℕ → BasicCluster → ℕ → Option RegionInfo × ℕ
  unfolding rand_region
  rand_leader_region store c seed = rand_region is_healthy store c.store_leaders c seed
