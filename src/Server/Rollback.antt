-- ===== src/Server/Rollback.antt =====
-- src/server/transaction_api.rs: kv_batch_rollback.
pub mod Atomic
use aegisdb_core.Prelude.{
  ℕ, not, List, [], ◌∷◌, Option, none, some, Result, ok, err, panic, ◌>>=◌, ltb, ◌==◌,
  if◌then◌else◌,
}
use aegisdb_core.Prelude.Bytes.{Bytes}
use aegisdb_core.Latches.{Latches}
use aegisdb_core.Mvcc.Records
use aegisdb_core.Mvcc.Records.{Lock}
use aegisdb_core.Mvcc.Txn.{MvccTxn, get_lock, current_write, put_write, delete_lock, delete_value}
use aegisdb_core.Server.Types.{
  Engine, BatchRollbackRequest, BatchRollbackResponse, KeyError, locked_error, abort_error,
}
use aegisdb_core.Server.Latched.{Verdict, answer, submit, Handled, latched}
use aegisdb_core.Server.Prewrite.{lock_info}

-- The record of a transaction that was rolled back.
abbrev pub rollback_write : ℕ → Records.Write
rollback_write start = record { start_ts = start; kind = Records.rollback }

-- The rollback record, and the end of the value.
unfoldable pub put_rollback : ℕ → Bytes → MvccTxn → MvccTxn
put_rollback start key t = delete_value key (put_write key start (rollback_write start) t)

-- The transaction so far, or the error to answer with.
pub data Outcome : Type 0 where
  going : MvccTxn → Outcome
  refused : KeyError → Outcome

-- A key that is committed cannot be rolled back; a failed read of it counts as not committed.
rollback_uncommitted :
    BatchRollbackRequest → Bytes → MvccTxn → Result (Option Records.Write × ℕ) → Result Outcome
rollback_uncommitted req key t (ok (some w, commit_ts)) =
    if ltb req.start_version commit_ts
    then ok (refused (abort_error "key is already committed"))
    else ok (going (put_rollback req.start_version key t))
rollback_uncommitted req key t (ok (none, commit_ts)) =
    ok (going (put_rollback req.start_version key t))
rollback_uncommitted req key t (err e) = ok (going (put_rollback req.start_version key t))
rollback_uncommitted req key t panic = panic

rollback_key : BatchRollbackRequest → Bytes → MvccTxn → Option Lock → Result Outcome
unfolding rollback_uncommitted
rollback_key req key t none = rollback_uncommitted req key t (current_write key t)
rollback_key req key t (some l) =
    if not (l.ts == req.start_version)
    then ok (refused (locked_error (lock_info key l)))
    else rollback_uncommitted req key (delete_lock key t) (current_write key (delete_lock key t))

rollback_keys : BatchRollbackRequest → List Bytes → MvccTxn → Result Outcome
unfolding rollback_key
rollback_keys req [] t = ok (going t)
rollback_keys req (key ∷ keys) t = do
  found ← get_lock key t
  now ← rollback_key req key t found
  elim now [ refused e ↦ ok (refused e) | going t1 ↦ rollback_keys req keys t1 ]

abbrev verdict_of : Outcome → Verdict BatchRollbackResponse
verdict_of (going t) = submit t (record { error = none })
verdict_of (refused e) = answer (record { error = some e })

unfoldable pub kv_batch_rollback {ℓ} :
    {S : Type ℓ} → Engine S → BatchRollbackRequest → Latches → S → Handled BatchRollbackResponse S
unfolding rollback_keys
kv_batch_rollback e req =
    latched e req.keys req.start_version
      λ t. rollback_keys req req.keys t >>= λ o. ok (verdict_of o)
