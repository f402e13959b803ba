-- ===== src/Scheduler/Cluster/Stats.antt =====
-- src/scheduler/cluster/basic_cluster.rs: the statistics of the stores.
use aegisdb_core.Prelude.{
  ℕ, ◌+◌, ◌%◌, ◌≡◌, refl, ap, ◌∙◌, sym, arith, List, [], ◌∷◌, Option, none, some, ◌==◌,
  if◌then◌else◌, add64, u64_mod,
}
use aegisdb_core.Prelude.Assoc.{Assoc, lookup, values, map_values, nat_eq}
use aegisdb_core.Scheduler.Region.{RegionInfo, Peer, get_leader_store_id}
use aegisdb_core.Scheduler.Store.{StoreInfo}
use aegisdb_core.Scheduler.Cluster.{
  BasicCluster, modify, reset_store, add_region, add_led, count_peers, count_leader, count_regions,
  update_store_stats, put_region, drop_old, add_new, map_option, lookup-modify,
}

lookup-map_values :
    (s : ℕ) (f : StoreInfo → StoreInfo) (m : Assoc ℕ StoreInfo)
    → lookup s (map_values f m) ≡ map_option f (lookup s m)
unfolding lookup
lookup-map_values s f [] = refl
lookup-map_values s f ((k, v) ∷ m) = ground (arith, lookup-map_values s f m)

-- One store through the counting.
with_peers : ℕ → ℕ → List Peer → StoreInfo → StoreInfo
with_peers s size [] x = x
with_peers s size (p ∷ ps) x =
    with_peers s size ps (if p.store_id == s then add_region size x else x)

with_leader : ℕ → ℕ → Option ℕ → StoreInfo → StoreInfo
with_leader s size none x = x
with_leader s size (some k) x = if k == s then add_led size x else x

with_regions : ℕ → List RegionInfo → StoreInfo → StoreInfo
unfolding with_peers with_leader
with_regions s [] x = x
with_regions s (r ∷ rs) x = with_regions s rs (
    with_leader s r.approximate_size (get_leader_store_id r)
      (with_peers s r.approximate_size r.region.peers x))

lookup-count_peers :
    (s size : ℕ) (ps : List Peer) (m : Assoc ℕ StoreInfo)
    → lookup s (count_peers size ps m) ≡ map_option (with_peers s size ps) (lookup s m)
unfolding count_peers with_peers
lookup-count_peers s size [] m = ground arith
lookup-count_peers s size (p ∷ ps) m = ground (
  arith,
  lookup-count_peers s size ps (modify p.store_id (add_region size) m),
  lookup-modify s p.store_id (add_region size) m,
)

lookup-count_leader :
    (s size : ℕ) (leader : Option ℕ) (m : Assoc ℕ StoreInfo)
    → lookup s (count_leader size leader m) ≡ map_option (with_leader s size leader) (lookup s m)
unfolding count_leader with_leader
lookup-count_leader s size none m = ground arith
lookup-count_leader s size (some k) m = ground (arith, lookup-modify s k (add_led size) m)

lookup-count_regions :
    (s : ℕ) (rs : List RegionInfo) (m : Assoc ℕ StoreInfo)
    → lookup s (count_regions rs m) ≡ map_option (with_regions s rs) (lookup s m)
unfolding count_regions with_regions
lookup-count_regions s [] m = ground arith
lookup-count_regions s (r ∷ rs) m =
    let m1 = count_peers r.approximate_size r.region.peers m in
    ground (
      arith,
      lookup-count_regions s rs (count_leader r.approximate_size (get_leader_store_id r) m1),
      lookup-count_leader s r.approximate_size (get_leader_store_id r) m1,
      lookup-count_peers s r.approximate_size r.region.peers m,
    )

-- What a region's peers, and its leader, add to a store, `n` each.
abbrev pub peers_on : ℕ → ℕ → List Peer → ℕ
peers_on s n [] = 0
peers_on s n (p ∷ ps) = (if p.store_id == s then n else 0) + peers_on s n ps

abbrev pub leads : ℕ → ℕ → Option ℕ → ℕ
leads s n none = 0
leads s n (some k) = if k == s then n else 0

abbrev pub total : (RegionInfo → ℕ) → List RegionInfo → ℕ
total f [] = 0
total f (r ∷ rs) = f r + total f rs

-- The four statistics of a store are these sums, which wrap around at 2^64.
abbrev Counts : StoreInfo → ℕ → ℕ → ℕ → ℕ → Type 0
Counts x a b c d =
    (x.region_count ≡ a % u64_mod)
    × (x.region_size ≡ b % u64_mod)
    × (x.leader_count ≡ c % u64_mod)
    × (x.leader_size ≡ d % u64_mod)

one_peer-Counts :
    (s k size : ℕ) (x : StoreInfo) (a b c d : ℕ)
    → Counts x a b c d
    → Counts
        (if k == s then add_region size x else x)
        (a + (if k == s then 1 else 0))
        (b + (if k == s then size else 0))
        c
        d
unfolding add64
one_peer-Counts s k size x a b c d h = ground arith

with_peers-Counts :
    (s size : ℕ) (ps : List Peer) (x : StoreInfo) (a b c d : ℕ)
    → Counts x a b c d
    → Counts (with_peers s size ps x) (a + peers_on s 1 ps) (b + peers_on s size ps) c d
unfolding with_peers
with_peers-Counts s size [] x a b c d h = ground arith
with_peers-Counts s size (p ∷ ps) x a b c d h =
    let k : ℕ = if p.store_id == s then 1 else 0 in
    let n : ℕ = if p.store_id == s then size else 0 in
    let x1 = if p.store_id == s then add_region size x else x in
    let (r, z, l, y) =
      with_peers-Counts s size ps x1 (a + k) (b + n) c d
        (one_peer-Counts s p.store_id size x a b c d h) in
    (r ∙ ap (λ t. t % u64_mod) (omega arith), z ∙ ap (λ t. t % u64_mod) (omega arith), l, y)

with_leader-Counts :
    (s size : ℕ) (leader : Option ℕ) (x : StoreInfo) (a b c d : ℕ)
    → Counts x a b c d
    → Counts (with_leader s size leader x) a b (c + leads s 1 leader) (d + leads s size leader)
unfolding with_leader add64
with_leader-Counts s size none x a b c d h = ground arith
with_leader-Counts s size (some k) x a b c d h = ground arith

with_regions-Counts :
    (s : ℕ) (rs : List RegionInfo) (x : StoreInfo) (a b c d : ℕ)
    → Counts x a b c d
    → Counts
        (with_regions s rs x)
        (a + total (λ r. peers_on s 1 r.region.peers) rs)
        (b + total (λ r. peers_on s r.approximate_size r.region.peers) rs)
        (c + total (λ r. leads s 1 (get_leader_store_id r)) rs)
        (d + total (λ r. leads s r.approximate_size (get_leader_store_id r)) rs)
unfolding with_regions
with_regions-Counts s [] x a b c d h = ground arith
with_regions-Counts s (r ∷ rs) x a b c d h =
    let size = r.approximate_size in
    let x1 = with_peers s size r.region.peers x in
    let h1 = with_peers-Counts s size r.region.peers x a b c d h in
    let h2 =
      with_leader-Counts s size (get_leader_store_id r) x1 (a + peers_on s 1 r.region.peers)
        (b + peers_on s size r.region.peers) c d h1 in
    let (p, z, l, y) =
      with_regions-Counts s rs (with_leader s size (get_leader_store_id r) x1)
        (a + peers_on s 1 r.region.peers) (b + peers_on s size r.region.peers)
        (c + leads s 1 (get_leader_store_id r)) (d + leads s size (get_leader_store_id r)) h2 in
    (
      p ∙ ap (λ t. t % u64_mod) (omega arith),
      z ∙ ap (λ t. t % u64_mod) (omega arith),
      l ∙ ap (λ t. t % u64_mod) (omega arith),
      y ∙ ap (λ t. t % u64_mod) (omega arith),
    )

map_option-some {ℓ κ} :
    {A : Type ℓ} {B : Type κ} (f : A → B) (o : Option A) (b : B)
    → map_option f o ≡ some b
    → (a : A) × (o ≡ some a) × (b ≡ f a)
map_option-some f none b h = cc
map_option-some f (some a) b h = (a, refl, sym (cc h))

stats_lem :
    (s : ℕ) (rs : List RegionInfo) (stores : Assoc ℕ StoreInfo) (x : StoreInfo)
    → lookup s (count_regions rs (map_values reset_store stores)) ≡ some x
    → Counts x
        (total (λ r. peers_on s 1 r.region.peers) rs)
        (total (λ r. peers_on s r.approximate_size r.region.peers) rs)
        (total (λ r. leads s 1 (get_leader_store_id r)) rs)
        (total (λ r. leads s r.approximate_size (get_leader_store_id r)) rs)
stats_lem s rs stores x h =
    let found =
      sym (
        lookup-count_regions s rs (map_values reset_store stores)
        ∙ ap (map_option (with_regions s rs)) (lookup-map_values s reset_store stores))
      ∙ h in
    let (y, e0, e) = map_option-some (with_regions s rs) _ x found in
    let (z, _, e1) = map_option-some reset_store (lookup s stores) y e0 in
    let (p, q, l, m) = with_regions-Counts s rs (reset_store z) 0 0 0 0 (refl, refl, refl, refl) in
    rw (e, e1)
      (
        p ∙ ap (λ t. t % u64_mod) (omega arith),
        q ∙ ap (λ t. t % u64_mod) (omega arith),
        l ∙ ap (λ t. t % u64_mod) (omega arith),
        m ∙ ap (λ t. t % u64_mod) (omega arith),
      )

-- After `put_region` a known store has, modulo 2^64, as its region count the number of peers that the
-- regions have on it, as its leader count the number of regions that it leads, and as its sizes the
-- sums of the sizes of these regions.
pub put_region_stats :
    (r : RegionInfo) (c : BasicCluster) (s : ℕ) (x : StoreInfo)
    → let c' = put_region r c in
      let rs = values c'.regions in
      lookup s c'.stores ≡ some x
      → (x.region_count ≡ total (λ r. peers_on s 1 r.region.peers) rs % u64_mod)
        × (x.region_size ≡ total (λ r. peers_on s r.approximate_size r.region.peers) rs % u64_mod)
        × (x.leader_count ≡ total (λ r. leads s 1 (get_leader_store_id r)) rs % u64_mod)
        × (x.leader_size
            ≡ total (λ r. leads s r.approximate_size (get_leader_store_id r)) rs % u64_mod)
unfolding put_region update_store_stats
put_region_stats r c s x h =
    let c1 = add_new r (drop_old r.region.id (lookup r.region.id c.regions) c) in
    stats_lem s (values c1.regions) c1.stores x h
