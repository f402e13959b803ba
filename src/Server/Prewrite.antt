-- ===== src/Server/Prewrite.antt =====
-- src/server/transaction_api.rs: kv_prewrite.
pub mod Atomic
pub mod Conflicts
use aegisdb_core.Prelude.{
  ℕ, not, List, [], ◌∷◌, ◌++◌, Option, none, some, Result, ok, err, panic, ◌>>=◌, ltb, ◌==◌,
  if◌then◌else◌,
}
use aegisdb_core.Prelude.Bytes.{Bytes}
use aegisdb_core.Latches.{Latches}
use aegisdb_core.Mvcc.Records
use aegisdb_core.Mvcc.Records.{Lock, WriteKind}
use aegisdb_core.Mvcc.Txn.{MvccTxn, get_lock, most_recent_write, put_value, delete_value, put_lock}
use aegisdb_core.Server.Types
use aegisdb_core.Server.Types.{
  Engine, Op, Mutation, PrewriteRequest, PrewriteResponse, KeyError, LockInfo, locked_error,
  abort_error, conflict_error,
}
use aegisdb_core.Server.Latched.{Verdict, answer, submit, Handled, latched}

abbrev pub lock_info : Bytes → Lock → LockInfo
lock_info key l = record {
  primary_lock = l.primary;
  lock_version = l.ts;
  key = key;
  lock_ttl = l.ttl;
}

abbrev pub mutation_keys : List Mutation → List Bytes
mutation_keys [] = []
mutation_keys (m ∷ ms) = m.key ∷ mutation_keys ms

abbrev pub new_lock : PrewriteRequest → WriteKind → Lock
new_lock req kind = record {
  primary = req.primary_lock;
  ts = req.start_version;
  ttl = req.lock_ttl;
  kind = kind;
}

-- The transaction and the errors so far.
abbrev pub Progress : Type 0
Progress = MvccTxn × List KeyError

-- The value and the lock of a mutation.
write_mutation : PrewriteRequest → Mutation → Op → Progress → Progress
write_mutation req m Types.put (t, errors) =
    (put_lock m.key (new_lock req Records.put) (put_value m.key m.value t), errors)
write_mutation req m Types.del (t, errors) =
    (put_lock m.key (new_lock req Records.delete) (delete_value m.key t), errors)
write_mutation req m Types.rollback (t, errors) =
    (t, errors ++ (abort_error "unsupported operation" ∷ []))

abbrev pub conflict_of : PrewriteRequest → Mutation → ℕ → KeyError
conflict_of req m commit_ts = conflict_error (record {
  start_ts = req.start_version;
  conflict_ts = commit_ts;
  key = m.key;
  primary = req.primary_lock;
})

-- The check for a later commit, whose errors are dropped, and then the writes.
write_unless_conflict :
    PrewriteRequest → Mutation → Progress → Result (Option Records.Write × ℕ) → Result Progress
unfolding write_mutation
write_unless_conflict req m (t, errors) (ok (some w, commit_ts)) =
    if ltb req.start_version commit_ts
    then ok (t, errors ++ (conflict_of req m commit_ts ∷ []))
    else ok (write_mutation req m m.op (t, errors))
write_unless_conflict req m p (ok (none, commit_ts)) = ok (write_mutation req m m.op p)
write_unless_conflict req m p (err e) = ok (write_mutation req m m.op p)
write_unless_conflict req m p panic = panic

prewrite_unless_locked : PrewriteRequest → Mutation → Progress → Option Lock → Result Progress
unfolding write_unless_conflict
prewrite_unless_locked req m (t, errors) none =
    write_unless_conflict req m (t, errors) (most_recent_write m.key t)
prewrite_unless_locked req m (t, errors) (some l) =
    if not (l.ts == req.start_version)
    then ok (t, errors ++ (locked_error (lock_info m.key l) ∷ []))
    else write_unless_conflict req m (t, errors) (most_recent_write m.key t)

prewrite_mutations : PrewriteRequest → List Mutation → Progress → Result Progress
unfolding prewrite_unless_locked
prewrite_mutations req [] p = ok p
prewrite_mutations req (m ∷ ms) (t, errors) = do
  found ← get_lock m.key t
  p ← prewrite_unless_locked req m (t, errors) found
  prewrite_mutations req ms p

abbrev verdict_of : Progress → Verdict PrewriteResponse
verdict_of (t, []) = submit t (record { errors = [] })
verdict_of (t, e ∷ es) = answer (record { errors = e ∷ es })

unfoldable pub kv_prewrite {ℓ} :
    {S : Type ℓ} → Engine S → PrewriteRequest → Latches → S → Handled PrewriteResponse S
unfolding prewrite_mutations
kv_prewrite e req =
    latched e (mutation_keys req.mutations) req.start_version
      λ t. prewrite_mutations req req.mutations (t, []) >>= λ p. ok (verdict_of p)
