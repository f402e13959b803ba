-- ===== src/Scheduler/Cluster/Index.antt =====
-- src/scheduler/cluster/basic_cluster.rs: the indices from a store to its regions.
use aegisdb_core.Prelude.{
  ℕ, ◌≡◌, refl, inl, inr, arith, Bool, true, false, List, [], ◌∷◌, Option, none, some, ◌==◌,
  if◌then◌else◌, Option-cases,
}
use aegisdb_core.Prelude.Assoc.{Assoc, lookup, lookup-insert, nat_eq}
use aegisdb_core.Scheduler.Region.{RegionInfo, Peer, get_leader_store_id, leads_on, has_store}
use aegisdb_core.Scheduler.Cluster.{
  BasicCluster, new_cluster, member, set_insert, set_remove, modify, add_to, drop_peers,
  drop_leader, add_peers, add_leader, drop_old, add_new, put_region, update_store_stats,
}

-- The regions that an index has for a store.
abbrev pub at : ℕ → Assoc ℕ (List ℕ) → List ℕ
at store m = elim (lookup store m) [ none ↦ [] | some ids ↦ ids ]

member-set_insert :
    (i k : ℕ) (xs : List ℕ) → member i (set_insert k xs) ≡ (if k == i then true else member i xs)
member-set_insert i k xs = ground arith

member-set_remove :
    (i k : ℕ) (xs : List ℕ) → member i (set_remove k xs) ≡ (if k == i then false else member i xs)
member-set_remove i k [] = ground arith
member-set_remove i k (x ∷ xs) = ground (arith, member-set_remove i k xs)

modify_lem :
    (i id store k : ℕ) (m : Assoc ℕ (List ℕ))
    → member i (at store (modify k (set_remove id) m)) ≡ (
        if k == store
        then (if id == i then false else member i (at store m))
        else member i (at store m))
unfolding modify
modify_lem i id store k m = elim (Option-cases (lookup k m)) [
  | inl e ↦ ground arith
  | inr (ids, e) ↦
      ground (arith, lookup-insert k store (set_remove id ids) m, member-set_remove i id ids)
]

add_to_lem :
    (i id store k : ℕ) (m : Assoc ℕ (List ℕ))
    → member i (at store (add_to k id m)) ≡ (
        if k == store
        then (if id == i then true else member i (at store m))
        else member i (at store m))
unfolding add_to
add_to_lem i id store k m = elim (Option-cases (lookup k m)) [
  | inl e ↦ ground (arith, lookup-insert k store (id ∷ []) m)
  | inr (ids, e) ↦
      ground (arith, lookup-insert k store (set_insert id ids) m, member-set_insert i id ids)
]

drop_peers_lem :
    (i id store : ℕ) (ps : List Peer) (m : Assoc ℕ (List ℕ))
    → member i (at store (drop_peers id ps m)) ≡ (
        if has_store store ps
        then (if id == i then false else member i (at store m))
        else member i (at store m))
unfolding drop_peers
drop_peers_lem i id store [] m = refl
drop_peers_lem i id store (p ∷ ps) m = ground (
  arith,
  drop_peers_lem i id store ps (modify p.store_id (set_remove id) m),
  modify_lem i id store p.store_id m,
)

add_peers_lem :
    (i id store : ℕ) (ps : List Peer) (m : Assoc ℕ (List ℕ))
    → member i (at store (add_peers id ps m)) ≡ (
        if has_store store ps
        then (if id == i then true else member i (at store m))
        else member i (at store m))
unfolding add_peers
add_peers_lem i id store [] m = refl
add_peers_lem i id store (p ∷ ps) m = ground (
  arith,
  add_peers_lem i id store ps (add_to p.store_id id m),
  add_to_lem i id store p.store_id m,
)

-- The region is known, and has a peer on the store, or its leader there.
abbrev pub on_store : ℕ → ℕ → Assoc ℕ RegionInfo → Bool
on_store i store regions = elim (lookup i regions) [
  | none ↦ false
  | some r ↦ has_store store r.region.peers
]

abbrev pub led_on : ℕ → ℕ → Assoc ℕ RegionInfo → Bool
led_on i store regions = elim (lookup i regions) [ none ↦ false | some r ↦ leads_on store r ]

-- The indices say of every region and store what the regions themselves say.
pub record IsIndexed (c : BasicCluster) : Type 0 where
  pub peers : (i store : ℕ) → member i (at store c.store_regions) ≡ on_store i store c.regions
  pub leaders : (i store : ℕ) → member i (at store c.store_leaders) ≡ led_on i store c.regions

pub new_cluster-IsIndexed : IsIndexed new_cluster
unfolding lookup
new_cluster-IsIndexed = record { peers = λ i store. refl; leaders = λ i store. refl }

stats-regions : (c : BasicCluster) → (update_store_stats c).regions ≡ c.regions
unfolding update_store_stats
stats-regions c = refl

put_region-peers :
    (r : RegionInfo) (c : BasicCluster) (old : Option RegionInfo) (i store : ℕ)
    → lookup r.region.id c.regions ≡ old
    → member i (at store c.store_regions) ≡ on_store i store c.regions
    → let c' = add_new r (drop_old r.region.id old c) in
      member i (at store c'.store_regions) ≡ on_store i store c'.regions
unfolding add_new drop_old
put_region-peers r c none i store e h = ground (
  arith,
  add_peers_lem i r.region.id store r.region.peers c.store_regions,
  lookup-insert r.region.id i r c.regions,
)
put_region-peers r c (some old) i store e h = ground (
  arith,
  add_peers_lem i r.region.id store r.region.peers
      (drop_peers r.region.id old.region.peers c.store_regions),
  drop_peers_lem i r.region.id store old.region.peers c.store_regions,
  lookup-insert r.region.id i r c.regions,
)

drop_leader_lem :
    (i id store : ℕ) (leader : Option ℕ) (m : Assoc ℕ (List ℕ))
    → member i (at store (drop_leader id leader m)) ≡ (elim leader [
      | none ↦ member i (at store m)
      | some s ↦
          if s == store
          then (if id == i then false else member i (at store m))
          else member i (at store m)
    ])
unfolding drop_leader
drop_leader_lem i id store none m = refl
drop_leader_lem i id store (some s) m = modify_lem i id store s m

add_leader_lem :
    (i id store : ℕ) (leader : Option ℕ) (m : Assoc ℕ (List ℕ))
    → member i (at store (add_leader id leader m)) ≡ (elim leader [
      | none ↦ member i (at store m)
      | some s ↦
          if s == store
          then (if id == i then true else member i (at store m))
          else member i (at store m)
    ])
unfolding add_leader
add_leader_lem i id store none m = refl
add_leader_lem i id store (some s) m = add_to_lem i id store s m

put_region-leaders :
    (r : RegionInfo) (c : BasicCluster) (old : Option RegionInfo) (i store : ℕ)
    → lookup r.region.id c.regions ≡ old
    → member i (at store c.store_leaders) ≡ led_on i store c.regions
    → let c' = add_new r (drop_old r.region.id old c) in
      member i (at store c'.store_leaders) ≡ led_on i store c'.regions
unfolding add_new drop_old
put_region-leaders r c none i store e h = ground (
  arith,
  add_leader_lem i r.region.id store (get_leader_store_id r) c.store_leaders,
  lookup-insert r.region.id i r c.regions,
)
put_region-leaders r c (some old) i store e h = ground (
  arith,
  add_leader_lem i r.region.id store (get_leader_store_id r)
      (drop_leader r.region.id (get_leader_store_id old) c.store_leaders),
  drop_leader_lem i r.region.id store (get_leader_store_id old) c.store_leaders,
  lookup-insert r.region.id i r c.regions,
)

-- `put_region` keeps the indices: afterwards too a region is listed under exactly the stores where it
-- has a peer, and under the store of its leader.
pub put_region-IsIndexed :
    (r : RegionInfo) (c : BasicCluster) → IsIndexed c → IsIndexed (put_region r c)
unfolding put_region update_store_stats
put_region-IsIndexed r c v = record {
  peers =
      λ i store. put_region-peers r c (lookup r.region.id c.regions) i store refl (v.peers i store);
  leaders = λ i store.
      put_region-leaders r c (lookup r.region.id c.regions) i store refl (v.leaders i store);
}
