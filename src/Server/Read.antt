-- ===== src/Server/Read.antt =====
-- src/server/transaction_api.rs: kv_get and kv_scan, which take no latches and write nothing.
pub mod Pairs
use aegisdb_core.Prelude.{
  ℕ, zero, suc, Bool, not, List, [], ◌∷◌, Option, none, some, Result, ok, err, panic, ◌>>=◌, ◌==◌,
  if◌then◌else◌, String,
}
use aegisdb_core.Prelude.Bytes.{Bytes}
use aegisdb_core.Mvcc.Records.{Lock}
use aegisdb_core.Mvcc.Txn.{MvccTxn, new_txn, get_lock, get_value}
use aegisdb_core.Mvcc.Scanner.{Scanner, Next, next, new_scanner, set_limit}
use aegisdb_core.Server.Types.{
  Engine, GetRequest, GetResponse, got, get_failed, ScanRequest, ScanResponse, KvPair, new_pair,
  failed_pair, locked_error,
}
use aegisdb_core.Server.Prewrite.{lock_info}

-- `contains` is the test for a substring of an error's text.
module _ (contains : String → String → Bool) where
  -- After an error about a lock, the lock is read again.
  or_locked : Bytes → MvccTxn → Result (Option Bytes) → Result GetResponse
  or_locked key t (ok value) = ok (got value)
  or_locked key t (err e) =
      if contains e "locked"
      then (do
        found ← get_lock key t
        elim found [
          | some l ↦ ok (get_failed (locked_error (lock_info key l)))
          | none ↦ ok (got none)
        ])
      else err e
  or_locked key t panic = panic

  get_unless_locked : GetRequest → MvccTxn → Option Lock → Result GetResponse
  unfolding or_locked
  get_unless_locked req t none = or_locked req.key t (get_value req.key t)
  get_unless_locked req t (some l) =
      if not (l.ts == req.version)
      then ok (get_failed (locked_error (lock_info req.key l)))
      else or_locked req.key t (get_value req.key t)

  unfoldable pub kv_get {ℓ} : {S : Type ℓ} → Engine S → GetRequest → S → Result GetResponse
  unfolding get_unless_locked
  kv_get e req s = do
    reader ← e.reader s
    found ← get_lock req.key (new_txn reader req.version)
    get_unless_locked req (new_txn reader req.version) found

module _ {ℓ} {S : Type ℓ} (e : Engine S) (req : ScanRequest) (s : S) where
  pair_unless_locked : Bytes → Bytes → Option Lock → KvPair
  pair_unless_locked key value none = new_pair key value
  pair_unless_locked key value (some l) =
      if not (l.ts == req.version)
      then failed_pair key (locked_error (lock_info key l))
      else new_pair key value

  -- The lock is read through a new reader.
  pair_of : Bytes → Bytes → Result KvPair
  unfolding pair_unless_locked
  pair_of key value = do
    reader ← e.reader s
    found ← get_lock key (new_txn reader req.version)
    ok (pair_unless_locked key value found)

  -- The pair, and then the others; nothing where the scanner is at its end.
  then_others : (Scanner → Result (List KvPair)) → Next → Result (List KvPair)
  unfolding pair_of
  then_others others (ok (some (key, value)), sc) = do
    p ← pair_of key value
    ps ← others sc
    ok (p ∷ ps)
  then_others others (ok none, sc) = ok []
  then_others others (err m, sc) = err m
  then_others others (panic, sc) = panic

  -- The loop, with the number of pairs that are still to be found.
  scan_pairs : ℕ → Scanner → Result (List KvPair)
  unfolding then_others
  scan_pairs zero sc = ok []
  scan_pairs (suc n) sc = then_others (scan_pairs n) (next sc)

  unfoldable pub kv_scan : Result ScanResponse
  unfolding scan_pairs
  kv_scan = do
    reader ← e.reader s
    pairs ←
        scan_pairs req.limit
          (set_limit req.limit (new_scanner req.start_key (new_txn reader req.version)))
    ok (record { pairs = pairs })
