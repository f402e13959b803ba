-- ===== src/RaftStore/Admin/Parts.antt =====
-- src/raftstore/admin.rs: the keys and the epochs of the two parts of a split.
use aegisdb_core.Prelude.{
  ◌+◌, ◌<◌, ◌≡◌, refl, true, false, not, ◌&&◌, List, [], ◌∷◌, some, arith, u64_mod, add64-eq,
}
use aegisdb_core.Prelude.Assoc.{nat_eq}
use aegisdb_core.Prelude.Bytes.{Bytes}
use aegisdb_core.Prelude.Order.{bytes_geb, geb_trans, geb_total}
use aegisdb_core.RaftStore.Admin.{SplitRequest, update_region_range, split_off, is_key_in_range}
use aegisdb_core.RaftStore.Range.{key_in_region, is_empty, in_region_lem, is_epoch_stale}
use aegisdb_core.Scheduler.Region.{Region, RegionEpoch, Peer}

pub not_empty : (start key : Bytes) → bytes_geb start key ≡ false → is_empty key ≡ false
unfolding bytes_geb
not_empty start [] h = h
not_empty start (b ∷ bs) h = refl

-- A key lies in the lower part when it lies in the region and is below the split key.
pub lower_part :
    (region : Region) (split_key key : Bytes)
    → key_in_region split_key region ≡ true
    → is_empty split_key ≡ false
    → key_in_region key (update_region_range region split_key)
      ≡ (key_in_region key region && not (bytes_geb key split_key))
lower_part region split_key key inside full = ground (
  arith,
  full,
  inside,
  in_region_lem key (update_region_range region split_key),
  in_region_lem key region,
  in_region_lem split_key region,
  geb_total key split_key,
  geb_trans split_key key region.end_key,
)

-- A key lies in the upper part when it lies in the region and is not below the split key.
pub upper_part :
    (region : Region) (request : SplitRequest) (peers : List Peer) (key : Bytes)
    → key_in_region request.split_key region ≡ true
    → key_in_region key (split_off region request peers)
      ≡ (key_in_region key region && bytes_geb key request.split_key)
upper_part region request peers key inside = ground (
  arith,
  inside,
  in_region_lem key (split_off region request peers),
  in_region_lem key region,
  in_region_lem request.split_key region,
  geb_trans key request.split_key region.start_key,
)

-- The two tests of a key in a range agree.
pub in_range_lem : (key : Bytes) (r : Region) → is_key_in_range key r ≡ key_in_region key r
unfolding key_in_region
in_range_lem key r = ground arith

-- The epoch of a region is stale beside those of both parts of a split, where its version can be counted up.
split_epoch_lem :
    (region : Region) (e : RegionEpoch) (request : SplitRequest) (peers : List Peer)
    → region.region_epoch ≡ some e
    → e.version + 1 < u64_mod
    → (lower upper : RegionEpoch)
    → (update_region_range region request.split_key).region_epoch ≡ some lower
    → (split_off region request peers).region_epoch ≡ some upper
    → (is_epoch_stale e lower ≡ true) × (is_epoch_stale e upper ≡ true)
split_epoch_lem region e request peers has_epoch small lower upper p q =
    ground (arith, add64-eq e.version 1 small)
