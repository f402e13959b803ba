-- ===== src/RaftStore/SplitChecker.antt =====
-- src/raftstore/split_checker.rs, and the handling of messages in peer_msg_handler.rs that leads to it: where
-- a region that has grown large is to be split. The iterator and `String::from_utf8_lossy` are parameters;
-- what is sent to the router is part of the result.
pub mod Inside
use aegisdb_core.Prelude.{
  ℕ, ◌+◌, ◌/◌, Bool, true, false, not, ◌&&◌, List, [], ◌∷◌, ◌++◌, Option, none, some, Result, ok,
  err, ltb, ◌==◌, if◌then◌else◌, length, take, drop, add64,
}
use aegisdb_core.Prelude.Bytes.{Bytes, bytes_beq}
use aegisdb_core.Engine.{Db, key_with_cf}
use aegisdb_core.Mvcc.Txn.{Cf, default, write, lock}
use aegisdb_core.RaftStore.Admin.{epoch_or_default}
use aegisdb_core.RaftStore.Range.{is_empty, exceed_end_key}
use aegisdb_core.RaftStore.RegionTask.{Pair, Scan}
use aegisdb_core.Scheduler.Region.{Region, RegionEpoch}

-- `starts_with`
abbrev pub starts_with : Bytes → Bytes → Bool
starts_with prefix key = bytes_beq (take (length prefix) key) prefix

-- What is scanned so far: the size, and the key at which the split size was passed.
pub record Scanned : Type 0 where
  pub size : ℕ
  pub split_key : Option Bytes

abbrev pub or_key : Option Bytes → Bool → Bytes → Option Bytes
or_key (some k) over key = some k
or_key none over key = if over then some key else none

-- An item is counted.
abbrev pub counted : ℕ → Bytes → Bytes → Scanned → Scanned
counted split_size key value c =
    let size = add64 c.size (length key + length value) in
    record { size = size; split_key = or_key c.split_key (ltb split_size size) key }

-- The loop of `scan_cf` over the items.
unfoldable pub scan_items : ℕ → ℕ → Bytes → Bytes → List Pair → Scanned → Scanned
scan_items max_size split_size prefix end_key [] c = c
scan_items max_size split_size prefix end_key ((k, v) ∷ l) c =
    let actual = drop (length prefix) k in
    let c' = counted split_size actual v c in
    let rest = scan_items max_size split_size prefix end_key l c' in
    if not (starts_with prefix k)
    then c
    else if not (is_empty end_key) && exceed_end_key actual end_key
    then c
    else if ltb max_size c'.size
    then c'
    else rest

abbrev pub nothing_yet : Scanned
nothing_yet = record { size = 0; split_key = none }

-- `unwrap_or_default`
abbrev pub key_or_empty : Option Bytes → Bytes
key_or_empty none = []
key_or_empty (some k) = k

abbrev pub if_any : Scanned → Option (ℕ × Bytes)
if_any c = if ltb 0 c.size then some (c.size, key_or_empty c.split_key) else none

-- The total so far, and the key; a family that is empty changes nothing.
abbrev pub add_family : ℕ → Option (ℕ × Bytes) → Scanned → Scanned
add_family split_size none c = c
add_family split_size (some (size, key)) c =
    let total = add64 c.size size in
    record { size = total; split_key = or_key c.split_key (ltb split_size total) key }

module _ (kv : Db) (scan : Scan kv) (from_utf8_lossy : Bytes → Bytes)
    (max_size split_size : ℕ) where
  -- `if !start_key.is_empty() { … }`
  abbrev pub seek_key : Bytes → Bytes → Bytes
  seek_key prefix start_key =
      if not (is_empty start_key) then prefix ++ from_utf8_lossy start_key else prefix

  unfoldable pub scan_cf : Cf → Bytes → Bytes → kv.State → Option (ℕ × Bytes)
  scan_cf cf start_key end_key s =
      let prefix = key_with_cf cf [] in
      if_any (
        scan_items max_size split_size prefix end_key (scan.seek s (seek_key prefix start_key))
          nothing_yet)

  -- The loop over the families, left once the total is above the maximum.
  unfoldable pub scan_families : Region → kv.State → List Cf → Scanned → Scanned
  scan_families region s [] c = c
  scan_families region s (cf ∷ cfs) c =
      let found = scan_cf cf region.start_key region.end_key s in
      let c' = add_family split_size found c in
      let rest = scan_families region s cfs c' in
      elim found [ none ↦ rest | some p ↦ if ltb max_size c'.size then c' else rest ]

  -- The split key, and the size that is sent to the router.
  unfoldable pub check_split : Region → kv.State → Option Bytes × ℕ
  check_split region s =
      let c = scan_families region s (default ∷ write ∷ lock ∷ []) nothing_yet in
      (if ltb c.size max_size then none else c.split_key, c.size)

-- The parts of a peer that its message handler reads.
pub record PeerView : Type 0 where
  pub stopped : Bool
  pub leads : Bool
  pub size_diff_hint : ℕ
  pub approximate_size : Option ℕ
  pub region : Region

-- `Msg::SplitRegion`
pub record SplitMsg : Type 0 where
  pub region_id : ℕ
  pub region_epoch : RegionEpoch
  pub split_key : Bytes

abbrev too_little_new : ℕ → Option ℕ → Bool
too_little_new hint none = false
too_little_new hint (some size) = ltb hint (size / 8)

abbrev split_msg : Region → Option Bytes → Option SplitMsg
split_msg region none = none
split_msg region (some key) = some (record {
  region_id = region.id;
  region_epoch = epoch_or_default region.region_epoch;
  split_key = key;
})

-- `on_tick`, with what the checker answers for the region: the message that is sent, if any.
unfoldable pub on_tick : (Region → Option Bytes) → PeerView → Option SplitMsg
on_tick check p =
    if p.stopped
    then none
    else if not p.leads
    then none
    else if too_little_new p.size_diff_hint p.approximate_size
    then none
    else split_msg p.region (check p.region)

unfoldable pub validate_split_region : PeerView → RegionEpoch → Bytes → Result (Unit {0})
validate_split_region p epoch split_key =
    if is_empty split_key
    then err "split key should not be empty"
    else if not p.leads
    then err "not leader"
    else if not ((epoch_or_default p.region.region_epoch).version == epoch.version)
    then err "epoch changed"
    else ok tt
