-- ===== src/Engine/Standalone/Reached.antt =====
-- src/storage/standalone_storage.rs and reader.rs: reads after any batches and reads.
use aegisdb_core.Prelude.{◌≡◌, List, Option, ok, All}
use aegisdb_core.Prelude.Bytes.{Bytes}
use aegisdb_core.Engine.{Db, key_with_cf}
use aegisdb_core.Engine.Keys.{IsFamily}
use aegisdb_core.Engine.Standalone.{Cache, Standalone, cache_key, write_batch, read_cf}
use aegisdb_core.Engine.Standalone.Reads.{
  key_of, family_of, IsCoherent, write_batch-IsCoherent, read_cf_lem,
}
use aegisdb_core.Mvcc.Txn.{Cf, Modify}

module _ (db : Db) (cache : Cache) (lossy : Bytes → Bytes) (IsText : Bytes → Type 0) where
  -- The states that batches and reads on texts, of families without a separator in their name and none of
  -- which failed, lead to from an empty cache.
  pub data IsReached : Standalone db cache lossy → Type 0 where
    opened : (d : db.State) → IsReached (record { stored = d; cached = cache.empty })
    wrote :
        {s s' : Standalone db cache lossy} (batch : List Modify)
        → IsReached s
        → All (λ m. IsFamily (family_of m) × IsText (key_of m)) batch
        → write_batch db cache lossy batch s ≡ (ok tt, s')
        → IsReached s'
    was_read :
        {s s' : Standalone db cache lossy} (cf : Cf) (key : Bytes) (v : Option Bytes)
        → IsReached s
        → IsFamily cf
        → IsText key
        → read_cf db cache lossy cf key s ≡ (ok v, s')
        → IsReached s'

  module _ (plain : (key : Bytes) → IsText key → lossy key ≡ key) where
    reached-IsCoherent :
        (s : Standalone db cache lossy) → IsReached s → IsCoherent db cache lossy IsText s
    reached-IsCoherent s (opened d) = λ cf key v f t found.
        absurd (let none_there = cache.peek-empty (cache_key db cache lossy cf key) in cc)
    reached-IsCoherent s' (wrote {s} batch r t e) =
        write_batch-IsCoherent db cache lossy IsText plain s s' (reached-IsCoherent s r) batch t e
    reached-IsCoherent s' (was_read {s} cf key v r f t e) =
        (read_cf_lem db cache lossy IsText plain s s' (reached-IsCoherent s r) cf key v f t e).1

-- Where the names of column families hold neither an underscore nor a colon, and keys are byte strings
-- that `from_utf8_lossy` leaves as they are: after any batches and reads that did not fail, from an empty
-- cache on, a read that does not fail gives what the database holds.
pub read_lem :
    (db : Db) (cache : Cache) (lossy : Bytes → Bytes) (IsText : Bytes → Type 0)
    → ((key : Bytes) → IsText key → lossy key ≡ key)
    → (s s' : Standalone db cache lossy) (cf : Cf) (key : Bytes) (v : Option Bytes)
    → IsReached db cache lossy IsText s
    → IsFamily cf
    → IsText key
    → read_cf db cache lossy cf key s ≡ (ok v, s')
    → v ≡ db.view s.stored (key_with_cf cf key)
read_lem db cache lossy IsText plain s s' cf key v r f t e =
    (read_cf_lem db cache lossy IsText plain s s'
      (reached-IsCoherent db cache lossy IsText plain s r) cf key v f t e).0
