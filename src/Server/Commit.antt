-- ===== src/Server/Commit.antt =====
-- src/server/transaction_api.rs: kv_commit.
pub mod Atomic
use aegisdb_core.Prelude.{
  ℕ, Bool, true, false, not, List, [], ◌∷◌, Option, none, some, Result, ok, err, panic, ◌>>=◌, ◌==◌,
  if◌then◌else◌,
}
use aegisdb_core.Prelude.Bytes.{Bytes}
use aegisdb_core.Latches.{Latches}
use aegisdb_core.Mvcc.Records
use aegisdb_core.Mvcc.Records.{Lock}
use aegisdb_core.Mvcc.Txn.{MvccTxn, get_lock, current_write, put_write, delete_lock}
use aegisdb_core.Server.Types.{
  Engine, CommitRequest, CommitResponse, KeyError, locked_error, abort_error,
}
use aegisdb_core.Server.Latched.{Verdict, answer, submit, Handled, latched}
use aegisdb_core.Server.Prewrite.{lock_info}

-- A key without a lock is in order if a record, of whatever kind, is found at the commit time.
unlocked_error : CommitRequest → Result (Option Records.Write × ℕ) → Result (Option KeyError)
unlocked_error req (ok (some w, commit_ts)) =
    if commit_ts == req.commit_version then ok none else ok (some (abort_error "key is not locked"))
unlocked_error req (ok (none, commit_ts)) = ok (some (abort_error "key is not locked"))
unlocked_error req (err e) = ok (some (abort_error "key is not locked"))
unlocked_error req panic = panic

key_error : CommitRequest → MvccTxn → Bytes → Option Lock → Result (Option KeyError)
unfolding unlocked_error
key_error req t key none = unlocked_error req (current_write key t)
key_error req t key (some l) =
    if not (l.ts == req.start_version) then ok (some (locked_error (lock_info key l))) else ok none

-- The first key that cannot be committed.
check_keys : CommitRequest → MvccTxn → List Bytes → Result (Option KeyError)
unfolding key_error
check_keys req t [] = ok none
check_keys req t (key ∷ keys) = do
  found ← get_lock key t
  bad ← key_error req t key found
  elim bad [ some e ↦ ok (some e) | none ↦ check_keys req t keys ]

unfoldable pub commit_key : CommitRequest → Bytes → Option Lock → MvccTxn → MvccTxn
commit_key req key none t = t
commit_key req key (some l) t =
    if l.ts == req.start_version
    then delete_lock key (
        put_write key req.commit_version (record { start_ts = req.start_version; kind = l.kind }) t)
    else t

commit_keys : CommitRequest → List Bytes → MvccTxn → Result MvccTxn
unfolding commit_key
commit_keys req [] t = ok t
commit_keys req (key ∷ keys) t = do
  found ← get_lock key t
  commit_keys req keys (commit_key req key found t)

commit_checked : CommitRequest → MvccTxn → Option KeyError → Result (Verdict CommitResponse)
unfolding commit_keys
commit_checked req t (some e) = ok (answer (record { error = some e }))
commit_checked req t none =
    commit_keys req req.keys t >>= λ t'. ok (submit t' (record { error = none }))

unfoldable pub kv_commit {ℓ} :
    {S : Type ℓ} → Engine S → CommitRequest → Latches → S → Handled CommitResponse S
unfolding check_keys commit_checked
kv_commit e req =
    latched e req.keys req.start_version
      λ t. check_keys req t req.keys >>= λ bad. commit_checked req t bad
