-- ===== src/RaftStore/Meta.antt =====
-- src/raftstore/meta: what a store keeps of each region, in the database of values and in that of the raft
-- log. The encodings of `bincode` and `prost` are parameters.
pub mod Keys
pub mod RaftLog
use aegisdb_core.Prelude.{
  ℕ, zero, suc, ◌+◌, ◌-◌, ◌≡◌, Bool, List, [], ◌∷◌, ◌++◌, Option, none, some, Result, ok, err,
  panic, ◌>>=◌, ltb, leb, if◌then◌else◌,
}
use aegisdb_core.Prelude.Bytes.{Bytes}
use aegisdb_core.Engine.{Db, BatchEntry, put, delete, WriteBatch, set_cf, get_cf}
use aegisdb_core.Raft.Types.{Entry, HardState}
use aegisdb_core.RaftStore.Meta.Keys.{
  region_state_key, raft_state_key, raft_log_key, apply_state_key,
}
use aegisdb_core.Scheduler.Region.{Region}

-- Bytes of a value, and the value of bytes.
pub record Encoding (A : Type 0) : Type 0 where
  pub serialize : A → Result Bytes
  pub deserialize : Bytes → Result A

pub data PeerState : Type 0 where
  normal tombstone : PeerState

pub record RegionLocalState : Type 0 where
  pub state : PeerState
  pub region_bytes : Bytes

pub record RaftLocalState : Type 0 where
  pub hard_state : HardState
  pub last_index : ℕ
  pub last_term : ℕ

pub record RaftTruncatedState : Type 0 where
  pub index : ℕ
  pub term : ℕ

pub record RaftApplyState : Type 0 where
  pub applied_index : ℕ
  pub truncated_state : RaftTruncatedState

-- A value that is read, if it is there.
abbrev pub decoded : {A : Type 0} → Encoding A → Option Bytes → Result (Option A)
decoded enc none = ok none
decoded enc (some value) = enc.deserialize value >>= λ a. ok (some a)

module _ (region_bytes : Encoding Region) (local : Encoding RegionLocalState) where
  unfoldable pub write_region_state : Region → PeerState → WriteBatch → Result WriteBatch
  write_region_state region state wb = region_bytes.serialize region >>= λ buf.
      local.serialize (record { state = state; region_bytes = buf }) >>= λ value.
      ok (set_cf [] (region_state_key region.id) value wb)

unfoldable pub write_apply_state :
    Encoding RaftApplyState → ℕ → RaftApplyState → WriteBatch → Result WriteBatch
write_apply_state enc region_id state wb =
    enc.serialize state >>= λ value. ok (set_cf [] (apply_state_key region_id) value wb)

-- Reads of the database of values, under the empty name of a column family.
module _ (kv : Db) where
  unfoldable pub get_region_local_state :
      Encoding RegionLocalState → ℕ → kv.State → Result (Option RegionLocalState)
  get_region_local_state enc region_id s =
      get_cf kv s [] (region_state_key region_id) >>= decoded enc

  unfoldable pub get_apply_state :
      Encoding RaftApplyState → ℕ → kv.State → Result (Option RaftApplyState)
  get_apply_state enc region_id s = get_cf kv s [] (apply_state_key region_id) >>= decoded enc

-- The database of the raft log, if there is one.
module _ (raft : Db) where
  unfoldable pub get_raft_local_state :
      Encoding RaftLocalState → ℕ → Option raft.State → Result (Option RaftLocalState)
  get_raft_local_state enc region_id none = ok none
  get_raft_local_state enc region_id (some s) =
      raft.get s (raft_state_key region_id) >>= decoded enc

  -- `DB::put` of a value that may fail to be encoded
  unfoldable pub put_value : Bytes → Result Bytes → raft.State → Result (Unit {0}) × raft.State
  put_value key (ok value) s = raft.write s (put key value ∷ [])
  put_value key (err e) s = (err e, s)
  put_value key panic s = (panic, s)

  unfoldable pub write_raft_state :
      Encoding RaftLocalState → ℕ → RaftLocalState → raft.State → Result (Unit {0}) × raft.State
  write_raft_state enc region_id state s =
      put_value (raft_state_key region_id) (enc.serialize state) s

  -- The rest of the loop, where the put before it did not fail.
  abbrev pub and_then :
      (raft.State → Result (Unit {0}) × raft.State)
      → Result (Unit {0}) × raft.State
      → Result (Unit {0}) × raft.State
  and_then rest (ok u, s) = rest s
  and_then rest (err e, s) = (err e, s)
  and_then rest (panic, s) = (panic, s)

  unfoldable pub write_raft_log :
      Encoding Entry → ℕ → List Entry → raft.State → Result (Unit {0}) × raft.State
  write_raft_log enc region_id [] s = (ok tt, s)
  write_raft_log enc region_id (e ∷ es) s =
      and_then (write_raft_log enc region_id es)
        (put_value (raft_log_key region_id e.index) (enc.serialize e) s)

  -- The loop over `n` indices, which stops at the first that is missing.
  unfoldable pub read_entries : Encoding Entry → ℕ → ℕ → ℕ → raft.State → Result (List Entry)
  read_entries enc region_id zero index s = ok []
  read_entries enc region_id (suc n) index s =
      let rest = read_entries enc region_id n (index + 1) s in
      raft.get s (raft_log_key region_id index) >>= λ found. elim found [
        | none ↦ ok []
        | some value ↦ enc.deserialize value >>= λ e. rest >>= λ es. ok (e ∷ es)
      ]

  unfoldable pub read_raft_log :
      Encoding Entry → ℕ → ℕ → ℕ → Option raft.State → Result (List Entry)
  read_raft_log enc region_id lo hi none = ok []
  read_raft_log enc region_id lo hi (some s) =
      if leb hi lo then ok [] else read_entries enc region_id (hi - lo) lo s

  unfoldable pub read_raft_log_entry :
      Encoding Entry → ℕ → ℕ → Option raft.State → Result (Option Entry)
  read_raft_log_entry enc region_id index none = ok none
  read_raft_log_entry enc region_id index (some s) =
      raft.get s (raft_log_key region_id index) >>= decoded enc

  abbrev deletions : ℕ → ℕ → ℕ → List BatchEntry
  deletions region_id zero index = []
  deletions region_id (suc n) index =
      delete (raft_log_key region_id index) ∷ deletions region_id n (index + 1)

  unfoldable pub delete_raft_log : ℕ → ℕ → ℕ → raft.State → Result (Unit {0}) × raft.State
  delete_raft_log region_id lo hi s =
      if leb hi lo then (ok tt, s) else raft.write s (deletions region_id (hi - lo) lo)
