-- ===== src/Server/Resolve.antt =====
-- src/server/transaction_api.rs: kv_resolve_lock.
pub mod Batch
use aegisdb_core.Prelude.{
  ℕ, List, [], ◌∷◌, Option, none, some, Result, ok, err, panic, ◌>>=◌, ltb, ◌==◌, if◌then◌else◌,
}
use aegisdb_core.Prelude.Bytes.{Bytes}
use aegisdb_core.Latches.{Latches}
use aegisdb_core.Mvcc.Records.{Lock, parse_lock}
use aegisdb_core.Mvcc.Txn.{MvccTxn, Item, lock, get_lock, delete_lock}
use aegisdb_core.Server.Types.{Engine, CommitRequest, ResolveLockRequest, ResolveLockResponse}
use aegisdb_core.Server.Latched.{Verdict, submit, Handled, latched}
use aegisdb_core.Server.Commit.{commit_key}
use aegisdb_core.Server.Rollback.{put_rollback}

-- The item's key, if its lock is the transaction's; a lock that does not parse is passed over.
with_owned : ℕ → Bytes → Result Lock → List Bytes → Result (List Bytes)
with_owned start key (ok l) keys = ok (if l.ts == start then key ∷ keys else keys)
with_owned start key (err e) keys = ok keys
with_owned start key panic keys = panic

-- The keys of the transaction's locks; a value that cannot be read ends the search.
owned_keys : ℕ → List Item → Result (List Bytes)
unfolding with_owned
owned_keys start [] = ok []
owned_keys start (item ∷ items) = do
  value ← item.value
  keys ← owned_keys start items
  with_owned start item.key (parse_lock value) keys

rollback_key : ResolveLockRequest → Bytes → Option Lock → MvccTxn → MvccTxn
rollback_key req key none t = t
rollback_key req key (some l) t =
    if l.ts == req.start_version then put_rollback req.start_version key (delete_lock key t) else t

-- The commit of a key is that of `kv_commit`.
abbrev pub commit_of : ResolveLockRequest → List Bytes → CommitRequest
commit_of req keys = record {
  start_version = req.start_version;
  keys = keys;
  commit_version = req.commit_version;
}

resolve_key : ResolveLockRequest → Bytes → Option Lock → MvccTxn → MvccTxn
unfolding rollback_key
resolve_key req key found t =
    if ltb 0 req.commit_version
    then commit_key (commit_of req []) key found t
    else rollback_key req key found t

resolve_keys : ResolveLockRequest → List Bytes → MvccTxn → Result MvccTxn
unfolding resolve_key
resolve_keys req [] t = ok t
resolve_keys req (key ∷ keys) t = do
  found ← get_lock key t
  resolve_keys req keys (resolve_key req key found t)

module _ {ℓ} {S : Type ℓ} (e : Engine S) (req : ResolveLockRequest) where
  resolve_found : Result (List Bytes) → Latches → S → Handled ResolveLockResponse S
  unfolding resolve_keys
  resolve_found (ok []) l s = some (ok (record { error = none }), s, l)
  resolve_found (ok (key ∷ keys)) l s =
      latched e (key ∷ keys) req.start_version
        (λ t. resolve_keys req (key ∷ keys) t >>= λ t1. ok (submit t1 (record { error = none }))) l
        s
  resolve_found (err m) l s = some (err m, s, l)
  resolve_found panic l s = some (panic, s, l)

  -- The locks are sought before the latches are taken.
  unfoldable pub kv_resolve_lock : Latches → S → Handled ResolveLockResponse S
  unfolding owned_keys resolve_found
  kv_resolve_lock l s =
      resolve_found (e.reader s >>= λ reader. owned_keys req.start_version (reader.seek lock [])) l
        s
