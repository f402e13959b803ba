-- ===== src/RaftStore/Recovery.antt =====
-- src/raftstore/recovery.rs: the regions of a store, read back from its database of values at start. The
-- iterator is a parameter: the items from a sought key on.
pub mod Own
pub mod Complete
use aegisdb_core.Prelude.{
  ℕ, Bool, true, false, not, ◌&&◌, ◌||◌, List, [], ◌∷◌, Option, none, some, Result, ok, err, panic,
  ◌>>=◌, ◌==◌, if◌then◌else◌, drop,
}
use aegisdb_core.Prelude.Bytes.{Bytes}
use aegisdb_core.Engine.{Db, key_with_cf}
use aegisdb_core.RaftStore.Meta.{
  Encoding, PeerState, normal, tombstone, RegionLocalState, get_region_local_state,
}
use aegisdb_core.RaftStore.Meta.Keys.{region_meta_prefix, decode_region_meta_key}
use aegisdb_core.RaftStore.RegionTask.{Pair, Scan}
use aegisdb_core.Scheduler.Region.{Peer, Region}

-- `_` and the prefix of the keys of regions
abbrev pub recovery_key : Bytes
recovery_key = key_with_cf [] (region_meta_prefix ∷ [])

abbrev pub is_region_meta : Bytes → Bool
is_region_meta [] = false
is_region_meta (a ∷ []) = false
is_region_meta (a ∷ b ∷ bs) = (a == b'_') && (b == region_meta_prefix)

-- A key that does not start with `_`, at which the scan stops.
abbrev pub is_beyond : Bytes → Bool
is_beyond [] = false
is_beyond (a ∷ bs) = not (a == b'_')

unfoldable pub has_peer_on : ℕ → List Peer → Bool
has_peer_on store_id [] = false
has_peer_on store_id (p ∷ ps) = (p.store_id == store_id) || has_peer_on store_id ps

abbrev pub if_own : ℕ → Region → Option Region
if_own store_id region = if has_peer_on store_id region.peers then some region else none

abbrev pub with_region : Option Region → List Region → List Region
with_region none rs = rs
with_region (some r) rs = r ∷ rs

abbrev pub is_tombstone : PeerState → Bool
is_tombstone normal = false
is_tombstone tombstone = true

module _ (kv : Db) (scan : Scan kv) (bytes : Encoding Region)
    (local : Encoding RegionLocalState) where
  -- A state that cannot be read is passed over, one whose region cannot be decoded is an error.
  abbrev pub own_region : ℕ → Result (Option RegionLocalState) → Result (Option Region)
  own_region store_id (ok (some region_state)) =
      if is_tombstone region_state.state
      then ok none
      else bytes.deserialize region_state.region_bytes >>= λ region. ok (if_own store_id region)
  own_region store_id (ok none) = ok none
  own_region store_id (err e) = ok none
  own_region store_id panic = panic

  abbrev pub read_region : ℕ → kv.State → Result (ℕ × ℕ) → Result (Option Region)
  read_region store_id s (ok (region_id, suffix)) =
      own_region store_id (get_region_local_state kv local region_id s)
  read_region store_id s (err e) = ok none
  read_region store_id s panic = panic

  unfoldable pub recover_items : ℕ → kv.State → List Pair → Result (List Region)
  recover_items store_id s [] = ok []
  recover_items store_id s ((k, v) ∷ l) =
      let rest = recover_items store_id s l in
      if is_region_meta k
      then (read_region store_id s (decode_region_meta_key (drop 1 k)) >>= λ found.
          rest >>= λ regions. ok (with_region found regions))
      else if is_beyond k
      then ok []
      else rest

  unfoldable pub recover_regions : ℕ → kv.State → Result (List Region)
  recover_regions store_id s = recover_items store_id s (scan.seek s recovery_key)

  abbrev is_there : Option RegionLocalState → Bool
  is_there none = false
  is_there (some region_state) = true

  unfoldable pub validate_region : ℕ → kv.State → Result Bool
  validate_region region_id s =
      get_region_local_state kv local region_id s >>= λ found. ok (is_there found)
