-- ===== src/Scheduler/Cluster/Known.antt =====
-- src/scheduler/cluster/basic_cluster.rs: the regions that are known after one is put.
use aegisdb_core.Prelude.{ℕ, ◌≡◌, refl, Option, none, some, ◌==◌, if◌then◌else◌}
use aegisdb_core.Prelude.Assoc.{lookup, insert, nat_eq, lookup-insert}
use aegisdb_core.Scheduler.Cluster.{
  BasicCluster, put_region, get_region, drop_old, add_new, update_store_stats,
}
use aegisdb_core.Scheduler.Region.{RegionInfo}

drop_old-regions :
    (id : ℕ) (o : Option RegionInfo) (c : BasicCluster) → (drop_old id o c).regions ≡ c.regions
unfolding drop_old
drop_old-regions id none c = refl
drop_old-regions id (some old) c = refl

-- The region that is put takes the place of the one with its id; the others stay.
pub put_region-regions :
    (r : RegionInfo) (c : BasicCluster) → (put_region r c).regions ≡ insert r.region.id r c.regions
unfolding put_region update_store_stats add_new
put_region-regions r c =
    λ i. insert r.region.id r (drop_old-regions r.region.id (lookup r.region.id c.regions) c i)

pub get_region-put_region :
    (r : RegionInfo) (c : BasicCluster) (id : ℕ)
    → get_region id (put_region r c) ≡ (if r.region.id == id then some r else get_region id c)
get_region-put_region r c id =
    rw (put_region-regions r c) (lookup-insert r.region.id id r c.regions)
