-- ===== src/RaftStore/StoreMeta.antt =====
-- src/raftstore/store_meta.rs: the regions of a store, and a list of their starts to find one by a key.
-- Its locks are held for a whole call, so a call is one step.
pub mod Find
pub mod Indexed
pub mod Overlap
use aegisdb_core.Prelude.{
  ℕ, ◌≡◌, refl, Bool, true, false, not, List, [], ◌∷◌, ◌++◌, Option, none, some, leb, ◌==◌,
  if◌then◌else◌,
}
use aegisdb_core.Prelude.Assoc.{Assoc, lookup, insert, remove, values, nat_eq}
use aegisdb_core.Prelude.Bytes.{Bytes}
use aegisdb_core.Prelude.Order.{bytes_geb}
use aegisdb_core.RaftStore.Range.{key_in_region}
use aegisdb_core.Scheduler.Region.{Region}
use aegisdb_core.Scheduler.Sorting.{sort_by}

-- A start key and the id of its region.
abbrev pub Start : Type 0
Start = Bytes × ℕ

pub record StoreMeta : Type 0 where
  pub regions : Assoc ℕ Region
  pub region_ranges : List Start

-- `StoreMeta::new`
abbrev pub new_store_meta : StoreMeta
new_store_meta = record { regions = []; region_ranges = [] }

-- `ranges.retain(|(_, id)| *id != region_id)`
unfoldable pub retain_others : ℕ → List Start → List Start
retain_others id [] = []
retain_others id ((start, other) ∷ l) =
    let rest = retain_others id l in if not (other == id) then (start, other) ∷ rest else rest

-- `a.0.cmp(&b.0)` is not `Greater`
abbrev pub starts_before : Start → Start → Bool
starts_before a b = bytes_geb b.0 a.0

unfoldable pub set_region : Region → StoreMeta → StoreMeta
set_region region m = record {
  regions = insert region.id region m.regions;
  region_ranges =
      sort_by starts_before
        (retain_others region.id m.region_ranges ++ ((region.start_key, region.id) ∷ []));
}

abbrev pub get_region : ℕ → StoreMeta → Option Region
get_region region_id m = lookup region_id m.regions

-- The loop over the reversed ranges: the last start that is not above the key.
unfoldable pub last_start : Bytes → List Start → Option Start
last_start key [] = none
last_start key ((start, id) ∷ l) = elim (last_start key l) [
  | some found ↦ some found
  | none ↦ if bytes_geb key start then some (start, id) else none
]

abbrev checked : Bytes → Option Region → Option Region
checked key none = none
checked key (some region) = if key_in_region key region then some region else none

abbrev found_at : Bytes → Option Start → StoreMeta → Option Region
found_at key none m = none
found_at key (some start) m = checked key (lookup start.1 m.regions)

unfoldable pub find_region_by_key : Bytes → StoreMeta → Option Region
find_region_by_key key m = found_at key (last_start key m.region_ranges) m

abbrev by_id : ℕ × Region → ℕ × Region → Bool
by_id a b = leb a.0 b.0

-- The values of a `BTreeMap`, in the order of the keys.
unfoldable pub get_all_regions : StoreMeta → List Region
get_all_regions m = values (sort_by by_id m.regions)

unfoldable pub remove_region : ℕ → StoreMeta → StoreMeta
remove_region region_id m = record {
  regions = remove region_id m.regions;
  region_ranges = retain_others region_id m.region_ranges;
}

unfoldable pub regions_overlap : Region → Region → Bool
regions_overlap r1 r2 =
    if key_in_region r1.start_key r2
    then true
    else if key_in_region r2.start_key r1
    then true
    else false

abbrev pub add_overlap : Region → Option Region → List Region → List Region
add_overlap region none rest = rest
add_overlap region (some existing) rest =
    if regions_overlap region existing then existing ∷ rest else rest

unfoldable pub overlapping : Region → Assoc ℕ Region → List Start → List Region
overlapping region regions [] = []
overlapping region regions ((start, id) ∷ l) =
    add_overlap region (lookup id regions) (overlapping region regions l)

unfoldable pub get_overlap_regions : Region → StoreMeta → List Region
get_overlap_regions region m = overlapping region m.regions m.region_ranges
