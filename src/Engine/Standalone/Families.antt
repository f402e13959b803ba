-- ===== src/Engine/Standalone/Families.antt =====
-- src/storage/standalone_storage.rs and reader.rs: names of column families that hold an underscore.
use aegisdb_core.Prelude.{◌≡◌, refl, sym, ap, ◌∙◌, List, [], ◌∷◌, some, Result, ok, err, panic}
use aegisdb_core.Prelude.Bytes.{Bytes, bytes_beq_iff}
use aegisdb_core.Engine.{Db, key_with_cf, applied}
use aegisdb_core.Engine.Standalone.{
  Cache, Standalone, cache_key, entries_of, after_write, write_batch, read_cf,
}
use aegisdb_core.Mvcc.Txn
use aegisdb_core.Mvcc.Txn.{Cf, Modify}

module _ (db : Db) (cache : Cache) (lossy : Bytes → Bytes) where
  -- A batch that was written is applied to what the database held.
  written_view :
      (ms : List Modify) (s s' : Standalone db cache lossy) (o : Result (Unit {0}) × db.State)
      → db.write s.stored (entries_of db cache lossy ms) ≡ o
      → after_write db cache lossy ms s o ≡ (ok tt, s')
      → (k : Bytes)
      → db.view s'.stored k ≡ applied (entries_of db cache lossy ms) k (db.view s.stored k)
  written_view ms s s' (ok u, d) w e k =
      let now : d ≡ s'.stored =
        ap (λ (p : Result (Unit {0}) × Standalone db cache lossy). p.1.stored) e in
      ap (λ x. db.view x k) (sym now) ∙ db.write_lem s.stored d (entries_of db cache lossy ms) w k
  written_view ms s s' (err x, d) w e k = cc
  written_view ms s s' (panic, d) w e k = cc

  -- Two families and keys that share a key of the database, as `a_b` with `c` and `a` with `b_c` do: where
  -- the cache holds a value for the first after a put of the second was written, a read of the first
  -- gives that value, though the database holds what was put.
  family_mixup :
      (cf other : Cf) (key key' v w : Bytes) (s s' : Standalone db cache lossy)
      → key_with_cf cf key ≡ key_with_cf other key'
      → write_batch db cache lossy (Txn.put key' w other ∷ []) s ≡ (ok tt, s')
      → cache.peek s'.cached (cache_key db cache lossy cf key) ≡ some v
      → (read_cf db cache lossy cf key s' ≡ (ok (some v), s'))
        × (db.view s'.stored (key_with_cf cf key) ≡ some w)
  unfolding read_cf write_batch applied
  family_mixup cf other key key' v w s s' same wrote cached =
      let put_there = (bytes_beq_iff (key_with_cf other key') (key_with_cf cf key)).1 (sym same) in
      (
        rw cached refl,
        written_view (Txn.put key' w other ∷ []) s s' _ refl wrote (key_with_cf cf key)
            ∙ rw put_there refl,
      )

-- Such families and keys.
shared_key :
    key_with_cf (b'a' ∷ b'_' ∷ b'b' ∷ []) (b'c' ∷ [])
    ≡ key_with_cf (b'a' ∷ []) (b'b' ∷ b'_' ∷ b'c' ∷ [])
shared_key = refl
