-- ===== src/Server/CheckTxn.antt =====
-- src/server/transaction_api.rs: kv_check_txn_status.
pub mod Status
use aegisdb_core.Prelude.{
  ℕ, Bool, not, List, [], ◌∷◌, Option, none, some, Result, ok, err, panic, ◌>>=◌, ltb, ◌==◌,
  if◌then◌else◌, add64,
}
use aegisdb_core.Prelude.Bytes.{Bytes}
use aegisdb_core.Latches.{Latches}
use aegisdb_core.Mvcc.Codec.{physical_time}
use aegisdb_core.Mvcc.Records
use aegisdb_core.Mvcc.Records.{Lock}
use aegisdb_core.Mvcc.Txn.{MvccTxn, get_lock, current_write, put_write, delete_lock, delete_value}
use aegisdb_core.Server.Types.{
  Engine, CheckTxnStatusRequest, CheckTxnStatusResponse, locked, committed, rolled_back,
  ttl_expire_rollback, lock_not_exist_rollback,
}
use aegisdb_core.Server.Latched.{Verdict, answer, submit, Handled, latched}
use aegisdb_core.Server.Rollback.{rollback_write, put_rollback}

-- `physical_time > lock_physical_time + ttl_ms`
abbrev pub is_expired : ℕ → Lock → Bool
is_expired current_ts l = ltb (add64 (physical_time l.ts) l.ttl) (physical_time current_ts)

-- The end of the lock, the rollback record, and the end of the value.
expire : CheckTxnStatusRequest → MvccTxn → MvccTxn
expire req t = put_rollback req.lock_ts req.primary_key (delete_lock req.primary_key t)

record_rollback : CheckTxnStatusRequest → MvccTxn → Verdict CheckTxnStatusResponse
record_rollback req t =
    submit (put_write req.primary_key req.lock_ts (rollback_write req.lock_ts) t)
      (rolled_back lock_not_exist_rollback)

-- Without a lock any record that is found counts as a commit, or the transaction gets a rollback record; a
-- failed read counts as no record.
without_lock :
    CheckTxnStatusRequest
    → MvccTxn
    → Result (Option Records.Write × ℕ)
    → Result (Verdict CheckTxnStatusResponse)
unfolding record_rollback
without_lock req t (ok (some w, commit_ts)) =
    if ltb 0 commit_ts then ok (answer (committed commit_ts)) else ok (record_rollback req t)
without_lock req t (ok (none, commit_ts)) = ok (record_rollback req t)
without_lock req t (err e) = ok (record_rollback req t)
without_lock req t panic = panic

status_of : CheckTxnStatusRequest → MvccTxn → Option Lock → Result (Verdict CheckTxnStatusResponse)
unfolding without_lock expire
status_of req t none = without_lock req t (current_write req.primary_key t)
status_of req t (some l) =
    if not (l.ts == req.lock_ts)
    then ok (answer (locked l.ttl))
    else if is_expired req.current_ts l
    then ok (submit (expire req t) (rolled_back ttl_expire_rollback))
    else ok (answer (locked l.ttl))

unfoldable pub kv_check_txn_status {ℓ} :
    {S : Type ℓ} → Engine S → CheckTxnStatusRequest → Latches → S → Handled CheckTxnStatusResponse S
unfolding status_of
kv_check_txn_status e req =
    latched e (req.primary_key ∷ []) req.lock_ts
      λ t. get_lock req.primary_key t >>= λ found. status_of req t found
