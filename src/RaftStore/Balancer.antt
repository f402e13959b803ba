-- ===== src/RaftStore/Balancer.antt =====
-- src/raftstore/store_balancer.rs and region_allocator.rs: the loads of the stores, and the stores that a
-- new region is put on. Times are nanoseconds. The order of the load scores, which are floating point
-- numbers, is a parameter.
use aegisdb_core.Prelude.{
  ℕ, ◌+◌, ◌-◌, ◌*◌, ◌%◌, ◌^◌, Bool, true, not, ◌&&◌, List, [], ◌∷◌, Option, none, some, Result, ok,
  err, panic, ltb, leb, if◌then◌else◌, length, take, u64_mod, add64,
}
use aegisdb_core.Prelude.Assoc.{Assoc, lookup, insert, values, nat_eq}
use aegisdb_core.Scheduler.Cluster.{member, modify}
use aegisdb_core.Scheduler.Region.{Peer}
use aegisdb_core.Scheduler.Sorting.{sort_by}

pub record StoreLoad : Type 0 where
  pub store_id : ℕ
  pub region_count : ℕ
  pub leader_count : ℕ
  pub region_size : ℕ
  pub leader_size : ℕ
  pub last_update : ℕ
  pub is_up : Bool

-- `StoreLoad::new`
abbrev pub new_load : ℕ → ℕ → StoreLoad
new_load now store_id = record {
  store_id = store_id;
  region_count = 0;
  leader_count = 0;
  region_size = 0;
  leader_size = 0;
  last_update = now;
  is_up = true;
}

-- `StoreLoad::update`
abbrev pub update_load : ℕ → ℕ → ℕ → ℕ → ℕ → StoreLoad → StoreLoad
update_load now region_count leader_count region_size leader_size load = record load {
  region_count = region_count;
  leader_count = leader_count;
  region_size = region_size;
  leader_size = leader_size;
  last_update = now;
}

-- `Duration::MAX`
abbrev duration_max : ℕ
duration_max = (2 ^ 64 - 1) * 1000000000 + 999999999

-- The time since the update; `Duration::MAX` where the clock was set back.
abbrev age : ℕ → StoreLoad → ℕ
age now load = if leb load.last_update now then now - load.last_update else duration_max

abbrev pub is_stale : ℕ → ℕ → StoreLoad → Bool
is_stale now max_age load = ltb max_age (age now load)

pub record StoreBalancer : Type 0 where
  pub loads : Assoc ℕ StoreLoad
  pub max_load_age : ℕ

-- `StoreBalancer::new`
abbrev pub new_balancer : ℕ → StoreBalancer
new_balancer max_load_age = record { loads = []; max_load_age = max_load_age }

-- `loads.entry(store_id).or_insert_with(…)`
abbrev pub load_entry : ℕ → ℕ → Assoc ℕ StoreLoad → StoreLoad
load_entry now store_id loads = elim (lookup store_id loads) [
  | none ↦ new_load now store_id
  | some load ↦ load
]

abbrev pub update_store_load : ℕ → ℕ → ℕ → ℕ → ℕ → ℕ → StoreBalancer → StoreBalancer
update_store_load now store_id region_count leader_count region_size leader_size b = record b {
  loads =
      insert store_id
        (update_load now region_count leader_count region_size leader_size
          (load_entry now store_id b.loads))
        b.loads;
}

abbrev pub update_from_store_heartbeat : ℕ → ℕ → ℕ → ℕ → StoreBalancer → StoreBalancer
update_from_store_heartbeat now store_id region_count leader_count b =
    update_store_load now store_id region_count leader_count 0 0 b

abbrev pub set_store_state : ℕ → Bool → StoreBalancer → StoreBalancer
set_store_state store_id is_up b = record b {
  loads = modify store_id (λ load. record load { is_up = is_up }) b.loads;
}

abbrev pub is_available : ℕ → ℕ → StoreLoad → Bool
is_available now max_age load = load.is_up && not (is_stale now max_age load)

unfoldable pub available : ℕ → ℕ → List StoreLoad → List StoreLoad
available now max_age [] = []
available now max_age (load ∷ loads) =
    let rest = available now max_age loads in
    if is_available now max_age load then load ∷ rest else rest

abbrev pub load_ids : List StoreLoad → List ℕ
load_ids [] = []
load_ids (load ∷ loads) = load.store_id ∷ load_ids loads

first_outside : List ℕ → List StoreLoad → Option ℕ
first_outside exclude [] = none
first_outside exclude (load ∷ loads) =
    let rest = first_outside exclude loads in
    if not (member load.store_id exclude) then some load.store_id else rest

-- `no_heavier a b`: the score of `a` does not compare as greater than that of `b`.
module _ (no_heavier : StoreLoad → StoreLoad → Bool) where
  unfoldable pub get_available_stores : ℕ → StoreBalancer → List StoreLoad
  get_available_stores now b = sort_by no_heavier (available now b.max_load_age (values b.loads))

  abbrev first_id : List StoreLoad → Option ℕ
  first_id [] = none
  first_id (load ∷ loads) = some load.store_id

  unfoldable pub select_best_store : ℕ → StoreBalancer → Option ℕ
  select_best_store now b = first_id (get_available_stores now b)

  unfoldable pub select_stores : ℕ → ℕ → StoreBalancer → List ℕ
  select_stores now count b = load_ids (take count (get_available_stores now b))

  unfoldable pub allocate_stores : ℕ → ℕ → StoreBalancer → Result (List ℕ)
  allocate_stores now replication_factor b =
      let stores = select_stores now replication_factor b in
      if ltb (length stores) replication_factor
      then err "not enough available stores"
      else ok stores

  -- `select_single_store`
  unfoldable pub select_single_store : ℕ → List ℕ → StoreBalancer → Option ℕ
  unfolding first_outside
  select_single_store now exclude b = first_outside exclude (get_available_stores now b)

abbrev pub get_store_load : ℕ → StoreBalancer → Option StoreLoad
get_store_load store_id b = lookup store_id b.loads

fresh_loads : ℕ → ℕ → Assoc ℕ StoreLoad → Assoc ℕ StoreLoad
fresh_loads now max_age [] = []
fresh_loads now max_age ((id, load) ∷ loads) =
    let rest = fresh_loads now max_age loads in
    if not (is_stale now max_age load) then (id, load) ∷ rest else rest

unfoldable pub cleanup_stale_loads : ℕ → StoreBalancer → StoreBalancer
unfolding fresh_loads
cleanup_stale_loads now b = record b { loads = fresh_loads now b.max_load_age b.loads }

-- `store_id * 10000 + idx` of `u64`
abbrev pub peer_id : ℕ → ℕ → ℕ
peer_id store_id idx = add64 (store_id * 10000 % u64_mod) idx

abbrev pub peers_on : ℕ → List ℕ → List Peer
peers_on idx [] = []
peers_on idx (store_id ∷ ids) =
    record { id = peer_id store_id idx; store_id = store_id } ∷ peers_on (idx + 1) ids

module _ (no_heavier : StoreLoad → StoreLoad → Bool) where
  unfoldable pub allocate_peers : ℕ → ℕ → StoreBalancer → Result (List Peer)
  allocate_peers now replication_factor b =
      elim (allocate_stores no_heavier now replication_factor b) [
        | ok store_ids ↦ ok (peers_on 0 store_ids)
        | err e ↦ err e
        | panic ↦ panic
      ]
