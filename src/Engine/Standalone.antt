-- ===== src/Engine/Standalone.antt =====
-- src/storage/standalone_storage.rs and reader.rs: a database with a cache of values in front of it, whose
-- keys are text. Parameters: the database, the LRU cache of the `lru` crate, and `String::from_utf8_lossy`,
-- as bytes. A read or a write is one step.
pub mod Reads
pub mod Reached
pub mod Families
use aegisdb_core.Prelude.{
  ℕ, ◌≡◌, ◌≢◌, List, [], ◌∷◌, ◌++◌, Option, none, some, Result, ok, err, panic,
}
use aegisdb_core.Prelude.Bytes.{Bytes}
use aegisdb_core.Engine
use aegisdb_core.Engine.{Db, BatchEntry, key_with_cf}
use aegisdb_core.Mvcc.Txn
use aegisdb_core.Mvcc.Txn.{Cf, Modify}

-- `LruCache`: it starts empty, and what `peek` gives was put there under that key, or was there before.
pub record Cache : Type 1 where
  pub State : Type 0
  pub empty : State
  pub peek : State → Bytes → Option Bytes
  pub put : Bytes → Bytes → State → State
  pub pop : Bytes → State → State
  pub peek-empty : (k : Bytes) → peek empty k ≡ none
  pub peek-put_own : (c : State) (k v : Bytes) → peek (put k v c) k ≡ some v
  pub peek-put_other :
      (c : State) (k v j w : Bytes) → k ≢ j → peek (put k v c) j ≡ some w → peek c j ≡ some w
  pub peek-pop :
      (c : State) (k j w : Bytes) → peek (pop k c) j ≡ some w → (k ≢ j) × (peek c j ≡ some w)

module _ (db : Db) (cache : Cache) (from_utf8_lossy : Bytes → Bytes) where
  pub record Standalone : Type 0 where
    pub stored : db.State
    pub cached : cache.State

  -- `format!("{}:{}", cf, …)`
  abbrev pub cache_key : Cf → Bytes → Bytes
  cache_key cf key = cf ++ (b':' ∷ from_utf8_lossy key)

  abbrev pub entry_of : Modify → BatchEntry
  entry_of (Txn.put key value cf) = Engine.put (key_with_cf cf key) value
  entry_of (Txn.delete key cf) = Engine.delete (key_with_cf cf key)

  abbrev pub entries_of : List Modify → List BatchEntry
  entries_of [] = []
  entries_of (m ∷ ms) = entry_of m ∷ entries_of ms

  abbrev pub update_cache_one : Modify → cache.State → cache.State
  update_cache_one (Txn.put key value cf) c = cache.put (cache_key cf key) value c
  update_cache_one (Txn.delete key cf) c = cache.pop (cache_key cf key) c

  unfoldable pub update_cache : List Modify → cache.State → cache.State
  update_cache [] c = c
  update_cache (m ∷ ms) c = update_cache ms (update_cache_one m c)

  -- The cache is updated only where the database took the batch.
  abbrev pub after_write :
      List Modify → Standalone → Result (Unit {0}) × db.State → Result (Unit {0}) × Standalone
  after_write batch s (ok u, d) =
      (ok tt, record { stored = d; cached = update_cache batch s.cached })
  after_write batch s (err e, d) = (err e, record s { stored = d })
  after_write batch s (panic, d) = (panic, record s { stored = d })

  unfoldable pub write_batch : List Modify → Standalone → Result (Unit {0}) × Standalone
  write_batch batch s = after_write batch s (db.write s.stored (entries_of batch))

  abbrev pub fill_cache :
      Bytes → Standalone → Result (Option Bytes) → Result (Option Bytes) × Standalone
  fill_cache text s (ok none) = (ok none, s)
  fill_cache text s (ok (some v)) = (ok (some v), record s { cached = cache.put text v s.cached })
  fill_cache text s (err e) = (err e, s)
  fill_cache text s panic = (panic, s)

  abbrev pub look_up : Cf → Bytes → Standalone → Option Bytes → Result (Option Bytes) × Standalone
  look_up cf key s (some v) = (ok (some v), s)
  look_up cf key s none = fill_cache (cache_key cf key) s (db.get s.stored (key_with_cf cf key))

  -- `StandaloneReader::get_cf`
  unfoldable pub read_cf : Cf → Bytes → Standalone → Result (Option Bytes) × Standalone
  read_cf cf key s = look_up cf key s (cache.peek s.cached (cache_key cf key))
