-- ===== src/RaftStore/RegionTask.antt =====
-- src/raftstore/region_task.rs: the data of a region as a snapshot, and its removal, on the database of
-- values. The iterator is a parameter: the items from a sought key on.
pub mod Destroy
use aegisdb_core.Prelude.{
  ℕ, ◌≡◌, ◌↔◌, Bool, true, false, not, ◌&&◌, List, [], ◌∷◌, Option, none, some, Result, ok, err,
  panic, ◌>>=◌, ltb, if◌then◌else◌, ok_or,
}
use aegisdb_core.Prelude.Bytes.{Bytes}
use aegisdb_core.Prelude.Order.{bytes_geb}
use aegisdb_core.Engine.{Db, BatchEntry, delete, WriteBatch, new_batch, set_cf, write_to_db}
use aegisdb_core.Mvcc.Txn.{default}
use aegisdb_core.RaftStore.Meta.{
  Encoding, RegionLocalState, RaftApplyState, normal, get_region_local_state, get_apply_state,
  write_region_state, write_apply_state,
}
use aegisdb_core.RaftStore.Range.{is_empty, exceed_end_key}
use aegisdb_core.Scheduler.Region.{Region}
use aegisdb_core.Scheduler.Sorting.{IsSorted}
use mathlib.Core.List.{Memᴰ}

abbrev pub Pair : Type 0
Pair = Bytes × Bytes

abbrev pub key_before : Pair → Pair → Bool
key_before a b = bytes_geb b.0 a.0

-- `DBRawIterator`: after `seek`, what is stored at or above the key, in the order of the keys.
pub record Scan (db : Db) : Type 0 where
  pub seek : db.State → Bytes → List Pair
  pub seek_lem :
      (s : db.State) (start k v : Bytes)
      → Memᴰ (k, v) (seek s start) ↔ ((db.view s k ≡ some v) × (bytes_geb k start ≡ true))
  pub seek-IsSorted : (s : db.State) (start : Bytes) → IsSorted key_before (seek s start)

-- A key that starts with a byte below 0x10.
abbrev pub is_metadata : Bytes → Bool
is_metadata [] = false
is_metadata (b ∷ bs) = ltb b 0x10

-- The loop of `gen_snapshot` and of `destroy_range` over the items: it stops behind the end, and passes
-- over metadata.
unfoldable pub in_range : Bytes → List Pair → List Pair
in_range end_key [] = []
in_range end_key ((k, v) ∷ l) =
    let rest = in_range end_key l in
    if not (is_empty end_key) && exceed_end_key k end_key
    then []
    else if is_metadata k
    then rest
    else (k, v) ∷ rest

abbrev pub deletions : List Pair → List BatchEntry
deletions [] = []
deletions ((k, v) ∷ l) = delete k ∷ deletions l

pub record SnapshotData : Type 0 where
  pub region_bytes : Bytes
  pub kvs : List Pair

abbrev pub add_pairs : List Pair → WriteBatch → WriteBatch
add_pairs [] wb = wb
add_pairs ((k, v) ∷ l) wb = add_pairs l (set_cf default k v wb)

-- The encodings of `prost` and `bincode`.
pub record TaskEncodings : Type 0 where
  pub region : Encoding Region
  pub local : Encoding RegionLocalState
  pub apply : Encoding RaftApplyState
  pub snapshot : Encoding SnapshotData

module _ (kv : Db) (scan : Scan kv) (enc : TaskEncodings) where
  unfoldable pub gen_snapshot : ℕ → kv.State → Result Bytes
  gen_snapshot region_id s = get_region_local_state kv enc.local region_id s >>= λ found.
      ok_or found "region not found" >>= λ region_state.
      enc.region.deserialize region_state.region_bytes >>= λ region.
      enc.region.serialize region >>= λ region_buf. enc.snapshot.serialize (record {
        region_bytes = region_buf;
        kvs = in_range region.end_key (scan.seek s region.start_key);
      })

  abbrev deleted : List Pair → kv.State → Result (Unit {0}) × kv.State
  deleted [] s = (ok tt, s)
  deleted (p ∷ l) s = kv.write s (deletions (p ∷ l))

  unfoldable pub destroy_range : Bytes → Bytes → kv.State → Result (Unit {0}) × kv.State
  destroy_range start_key end_key s = deleted (in_range end_key (scan.seek s start_key)) s

  abbrev with_apply_state : ℕ → WriteBatch → Option RaftApplyState → Result WriteBatch
  with_apply_state region_id wb none = ok wb
  with_apply_state region_id wb (some state) = write_apply_state enc.apply region_id state wb

  -- The batch of `apply_snapshot`, on what is left after the range was destroyed.
  abbrev snapshot_batch : ℕ → List Pair → Region → kv.State → Result WriteBatch
  snapshot_batch region_id kvs region s =
      write_region_state enc.region enc.local region normal (add_pairs kvs new_batch) >>= λ wb.
      get_apply_state kv enc.apply region_id s >>= with_apply_state region_id wb

  abbrev written_batch : kv.State → Result WriteBatch → Result Bool × kv.State
  written_batch s (ok wb) =
      let (result, after) = write_to_db kv wb s in (result >>= λ _. ok true, after)
  written_batch s (err e) = (err e, s)
  written_batch s panic = (panic, s)

  abbrev after_destroy :
      ℕ → List Pair → Region → Result (Unit {0}) × kv.State → Result Bool × kv.State
  after_destroy region_id kvs region (ok u, s) =
      written_batch s (snapshot_batch region_id kvs region s)
  after_destroy region_id kvs region (err e, s) = (err e, s)
  after_destroy region_id kvs region (panic, s) = (panic, s)

  abbrev pub apply_decoded : ℕ → SnapshotData → kv.State → Result Region → Result Bool × kv.State
  apply_decoded region_id snapshot s (ok region) =
      after_destroy region_id snapshot.kvs region (destroy_range region.start_key region.end_key s)
  apply_decoded region_id snapshot s (err e) = (err e, s)
  apply_decoded region_id snapshot s panic = (panic, s)

  abbrev apply_data : ℕ → kv.State → Result SnapshotData → Result Bool × kv.State
  apply_data region_id s (ok snapshot) =
      apply_decoded region_id snapshot s (enc.region.deserialize snapshot.region_bytes)
  apply_data region_id s (err e) = (err e, s)
  apply_data region_id s panic = (panic, s)

  unfoldable pub apply_snapshot : ℕ → Bytes → kv.State → Result Bool × kv.State
  apply_snapshot region_id snapshot_data s =
      apply_data region_id s (enc.snapshot.deserialize snapshot_data)
