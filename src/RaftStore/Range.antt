-- ===== src/RaftStore/Range.antt =====
-- src/raftstore/util.rs, and `exceed_end_key` of src/engine_util/util.rs: the range of a region. An empty
-- start is below every key, an empty end above.
use aegisdb_core.Prelude.{
  ◌≡◌, refl, Bool, true, false, not, ◌&&◌, ◌||◌, [], ◌∷◌, ltb, ◌==◌, if◌then◌else◌, arith,
}
use aegisdb_core.Prelude.Bytes.{Bytes}
use aegisdb_core.Prelude.Order.{bytes_geb, geb_trans}
use aegisdb_core.Scheduler.Region.{Region, RegionEpoch}

-- `is_empty`
abbrev pub is_empty : Bytes → Bool
is_empty [] = true
is_empty (b ∷ bs) = false

abbrev pub exceed_end_key : Bytes → Bytes → Bool
exceed_end_key current end_key = if is_empty end_key then false else bytes_geb current end_key

unfoldable pub key_in_region : Bytes → Region → Bool
key_in_region key region =
    if not (is_empty region.start_key) && not (bytes_geb key region.start_key)
    then false
    else if not (is_empty region.end_key) && exceed_end_key key region.end_key
    then false
    else true

abbrev pub is_epoch_stale : RegionEpoch → RegionEpoch → Bool
is_epoch_stale epoch other =
    ltb epoch.version other.version
    || (epoch.version == other.version && ltb epoch.conf_ver other.conf_ver)

-- Some key lies in the region: its own start.
abbrev pub IsInhabited : Region → Type 0
IsInhabited r = key_in_region r.start_key r ≡ true

-- No key lies in both.
abbrev pub AreDisjoint : Region → Region → Type 0
AreDisjoint q r = (key : Bytes) → key_in_region key q ≡ true → key_in_region key r ≡ false

below_start : Bytes → Bytes → Bool
below_start key start = not (is_empty start) && not (bytes_geb key start)

below_start_lem : (key start : Bytes) → below_start key start ≡ not (bytes_geb key start)
unfolding below_start bytes_geb
below_start_lem key [] = refl
below_start_lem key (b ∷ bs) = refl

past_end : Bytes → Bytes → Bool
past_end key end = not (is_empty end) && exceed_end_key key end

past_end_lem : (key end : Bytes) → past_end key end ≡ (not (is_empty end) && bytes_geb key end)
unfolding past_end
past_end_lem key [] = refl
past_end_lem key (b ∷ bs) = refl

-- A key lies in a region when it is at or above the start, and below the end if there is one.
pub in_region_lem :
    (key : Bytes) (r : Region)
    → key_in_region key r
      ≡ (bytes_geb key r.start_key && (is_empty r.end_key || not (bytes_geb key r.end_key)))
unfolding key_in_region below_start past_end
in_region_lem key r =
    let s = below_start_lem key r.start_key in
    let e = past_end_lem key r.end_key in ground (arith, s, e)

pub in_region-start :
    (key : Bytes) (r : Region) → key_in_region key r ≡ true → bytes_geb key r.start_key ≡ true
in_region-start key r h = ground (arith, in_region_lem key r)

-- A key at or above the start and not above a key of the region lies in the region.
pub in_region_between :
    (key other : Bytes) (r : Region)
    → key_in_region other r ≡ true
    → bytes_geb other key ≡ true
    → bytes_geb key r.start_key ≡ true
    → key_in_region key r ≡ true
in_region_between key other r h below above =
    ground (
      arith,
      in_region_lem key r,
      in_region_lem other r,
      geb_trans other key r.end_key,
      below,
      above,
    )
