-- ===== src/Engine.antt =====
-- src/engine_util: keys with a column family, batches of writes, and the databases they go to. RocksDB is a
-- parameter: what it holds, its reads and writes, which may fail, and its documented effect of a write.
pub mod Batches
pub mod Keys
pub mod Standalone
pub mod Memory
mod Examples
use aegisdb_core.Prelude.{
  ℕ, ◌+◌, ◌≡◌, Bool, true, false, List, [], ◌∷◌, ◌++◌, Option, none, some, Result, ok, err,
  if◌then◌else◌, length, take, add64,
}
use aegisdb_core.Prelude.Bytes.{Bytes, bytes_beq}

abbrev underscore : ℕ
underscore = b'_'

abbrev pub key_with_cf : Bytes → Bytes → Bytes
key_with_cf cf key = cf ++ (underscore ∷ key)

pub data BatchEntry : Type 0 where
  put : Bytes → Bytes → BatchEntry
  delete : Bytes → BatchEntry

-- What an entry, and a list of them in order, leaves at a key.
abbrev pub applied_one : BatchEntry → Bytes → Option Bytes → Option Bytes
applied_one (put k v) key before = if bytes_beq k key then some v else before
applied_one (delete k) key before = if bytes_beq k key then none else before

unfoldable pub applied : List BatchEntry → Bytes → Option Bytes → Option Bytes
applied [] key before = before
applied (e ∷ es) key before = applied es key (applied_one e key before)

-- A RocksDB database. A read that does not fail gives what is there; a write that does not fail leaves
-- its entries applied in order.
pub record Db : Type 1 where
  pub State : Type 0
  pub view : State → Bytes → Option Bytes
  pub get : State → Bytes → Result (Option Bytes)
  pub write : State → List BatchEntry → Result (Unit {0}) × State
  pub get_lem : (s : State) (k : Bytes) (v : Option Bytes) → get s k ≡ ok v → v ≡ view s k
  pub write_lem :
      (s s' : State) (es : List BatchEntry)
      → write s es ≡ (ok tt, s')
      → (k : Bytes) → view s' k ≡ applied es k (view s k)

pub record WriteBatch : Type 0 where
  pub entries : List BatchEntry
  pub size : ℕ
  pub safe_point : ℕ
  pub safe_point_size : ℕ

-- `WriteBatch::new`
abbrev pub new_batch : WriteBatch
new_batch = record { entries = []; size = 0; safe_point = 0; safe_point_size = 0 }

abbrev pub batch_len : WriteBatch → ℕ
batch_len wb = length wb.entries

abbrev pub set_cf : Bytes → Bytes → Bytes → WriteBatch → WriteBatch
set_cf cf key value wb = record wb {
  entries = wb.entries ++ (put (key_with_cf cf key) value ∷ []);
  size = add64 wb.size (length key + length value);
}

-- `WriteBatch::delete_cf`
abbrev pub unset_cf : Bytes → Bytes → WriteBatch → WriteBatch
unset_cf cf key wb = record wb {
  entries = wb.entries ++ (delete (key_with_cf cf key) ∷ []);
  size = add64 wb.size (length key);
}

abbrev pub set_safe_point : WriteBatch → WriteBatch
set_safe_point wb = record wb { safe_point = length wb.entries; safe_point_size = wb.size }

abbrev pub rollback_to_safe_point : WriteBatch → WriteBatch
rollback_to_safe_point wb = record wb {
  entries = take wb.safe_point wb.entries;
  size = wb.safe_point_size;
}

abbrev pub reset : WriteBatch → WriteBatch
reset wb = record { entries = []; size = 0; safe_point = 0; safe_point_size = 0 }

module _ (db : Db) where
  write_entries : db.State → List BatchEntry → Result (Unit {0}) × db.State
  write_entries s [] = (ok tt, s)
  write_entries s (e ∷ es) = db.write s (e ∷ es)

  -- `write_to_db`, and `write_to_db_with_options`, whose options do not change the result.
  unfoldable pub write_to_db : WriteBatch → db.State → Result (Unit {0}) × db.State
  unfolding write_entries
  write_to_db wb s = write_entries s wb.entries

  abbrev pub get_cf : db.State → Bytes → Bytes → Result (Option Bytes)
  get_cf s cf key = db.get s (key_with_cf cf key)

  abbrev pub put_cf : Bytes → Bytes → Bytes → db.State → Result (Unit {0}) × db.State
  put_cf cf key value s = db.write s (put (key_with_cf cf key) value ∷ [])

  abbrev pub delete_cf : Bytes → Bytes → db.State → Result (Unit {0}) × db.State
  delete_cf cf key s = db.write s (delete (key_with_cf cf key) ∷ [])

-- `Engines`: the database of values, and that of the raft log if there is one. Paths are left out.
pub record Engines (kv raft : Db) : Type 0 where
  pub kv_state : kv.State
  pub raft_state : Option raft.State

module _ (kv raft : Db) where
  -- `write_kv`, and `write_kv_async`
  abbrev pub write_kv : WriteBatch → Engines kv raft → Result (Unit {0}) × Engines kv raft
  write_kv wb e =
      let (result, s) = write_to_db kv wb e.kv_state in (result, record e { kv_state = s })

  abbrev raft_written :
      Engines kv raft → Result (Unit {0}) × raft.State → Result (Unit {0}) × Engines kv raft
  raft_written e (result, s) = (result, record e { raft_state = some s })

  abbrev raft_write :
      WriteBatch → Engines kv raft → Option raft.State → Result (Unit {0}) × Engines kv raft
  raft_write wb e none = (ok tt, e)
  raft_write wb e (some s) = raft_written e (write_to_db raft wb s)

  -- `write_raft`, and `write_raft_async`
  abbrev pub write_raft : WriteBatch → Engines kv raft → Result (Unit {0}) × Engines kv raft
  write_raft wb e = raft_write wb e e.raft_state
