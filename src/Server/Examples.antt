-- ===== src/Server/Examples.antt =====
-- The theorems about src/server/transaction_api.rs at a concrete store, a list of the writes it took.
use aegisdb_core.Prelude.{
  if◌then◌else◌, add64, ◌*◌, ◌^◌, ◌≡◌, refl, List, [], ◌∷◌, ◌++◌, Option, none, some, ok,
}
use aegisdb_core.Prelude.Assoc.{lookup, insert, remove}
use aegisdb_core.Prelude.Bytes.{Bytes, bytes_beq}
use aegisdb_core.Latches.{Latches, wait_for_latches, acquire_latches, release_latches}
use aegisdb_core.Latches.Exclusion.{holder}
use aegisdb_core.Mvcc.Records
use aegisdb_core.Mvcc.Records.{Lock, lock_to_bytes, parse_lock}
use aegisdb_core.Mvcc.Txn
use aegisdb_core.Mvcc.Txn.{
  Modify, get_lock, most_recent_write, find_write, put_lock, put_value, put_write, delete_lock,
  delete_value, current_write, Item,
}
use aegisdb_core.Server.Types
use aegisdb_core.Server.Types.{
  Engine, Mutation, PrewriteRequest, PrewriteResponse, CommitRequest, CommitResponse, locked_error,
  KeyError, BatchRollbackRequest, CheckTxnStatusRequest, rolled_back, ttl_expire_rollback,
}
use aegisdb_core.Server.Latched.{latched}
use aegisdb_core.Server.Prewrite.{kv_prewrite, new_lock, lock_info}
use aegisdb_core.Server.Commit.{kv_commit}
use aegisdb_core.Server.Prewrite.Atomic.{planned, Prewritten, prewrite_all_or_nothing}
use aegisdb_core.Server.Prewrite.Conflicts.{NoConflict, prewrite-NoConflict}
use aegisdb_core.Server.Rollback.{kv_batch_rollback, put_rollback}
use aegisdb_core.Server.Rollback.Atomic.{rollback_one, RolledBack, rollback_all_or_nothing}
use aegisdb_core.Server.CheckTxn.{kv_check_txn_status}
use aegisdb_core.Server.CheckTxn.Status.{Checked, check_txn_status_lem}
use aegisdb_core.Server.Resolve.{kv_resolve_lock}
use aegisdb_core.Server.Resolve.Batch.{Resolved, resolve_lock_lem}
use aegisdb_core.Mvcc.Codec.{
  physical_time, encode_bytes, decode_bytes, encode_key, decode_user_key, decode_timestamp,
}
use aegisdb_core.Mvcc.Scanner.{next}
use aegisdb_core.Server.Read.{kv_scan}
use aegisdb_core.Server.Read.Pairs.{scan_lem, Answers}
use aegisdb_core.Prelude.{All, u64_max, ◌≤◌}
use aegisdb_core.Server.Types.{ScanRequest, new_pair}
use aegisdb_core.Mvcc.Txn.{Cf, Reader, new_txn}
use aegisdb_core.Mvcc.Records.{write_to_bytes, parse_write}
use aegisdb_core.Server.Commit.Atomic.{commit_one, Committed, commit_all_or_nothing}

abbrev key : Bytes
key = 107 ∷ 49 ∷ []

abbrev open_latches : Latches
open_latches = record { latch_map = []; next_notify = 0 }

abbrev used_latches : Latches
used_latches = record { latch_map = []; next_notify = 1 }

-- A store whose reads all find `cell`.
abbrev engine : Option Bytes → Engine (List Modify)
engine cell = record {
  reader = λ s. ok (record { get_cf = λ cf k. ok cell; seek = λ cf k. [] });
  write = λ ws s. (ok tt, s ++ ws);
}

abbrev prewrite_one : PrewriteRequest
prewrite_one = record {
  mutations = record { op = Types.put; key = key; value = 118 ∷ [] } ∷ [];
  primary_lock = key;
  start_version = 5;
  lock_ttl = 3000;
}

abbrev commit_request : CommitRequest
commit_request = record { start_version = 5; keys = key ∷ []; commit_version = 8 }

abbrev own_lock : Lock
own_lock = new_lock prewrite_one Records.put

prewrite_example :
    Prewritten
      (engine none)
      prewrite_one
      (record { errors = [] })
      []
      (planned 5 prewrite_one prewrite_one.mutations)
    × ((k : Bytes) → holder k used_latches ≡ holder k open_latches)
unfolding kv_prewrite latched wait_for_latches acquire_latches lookup get_lock most_recent_write
    find_write put_lock release_latches put_value remove insert bytes_beq
prewrite_example =
    prewrite_all_or_nothing (engine none) prewrite_one open_latches used_latches []
      (planned 5 prewrite_one prewrite_one.mutations) (record { errors = [] }) refl

commit_example :
    Committed
      (engine (some (lock_to_bytes own_lock)))
      commit_request
      (record { error = none })
      []
      (commit_one commit_request key (some own_lock))
    × ((k : Bytes) → holder k used_latches ≡ holder k open_latches)
unfolding kv_commit latched wait_for_latches acquire_latches lookup get_lock parse_lock
    lock_to_bytes delete_lock release_latches put_write remove insert bytes_beq
commit_example =
    commit_all_or_nothing (engine (some (lock_to_bytes own_lock))) commit_request open_latches
      used_latches [] (commit_one commit_request key (some own_lock)) (record { error = none }) refl

abbrev other_lock : Lock
other_lock = record own_lock { ts = 4 }

-- The key locked by another transaction.
conflicts_example : NoConflict (locked_error (lock_info key other_lock) ∷ [])
unfolding kv_prewrite latched wait_for_latches acquire_latches lookup get_lock parse_lock
    lock_to_bytes release_latches remove insert bytes_beq
conflicts_example =
    prewrite-NoConflict (engine (some (lock_to_bytes other_lock))) prewrite_one open_latches
      used_latches [] [] (record { errors = locked_error (lock_info key other_lock) ∷ [] }) refl

abbrev rollback_request : BatchRollbackRequest
rollback_request = record { start_version = 5; keys = key ∷ [] }

abbrev rolled : List Modify
rolled = Txn.delete key Txn.lock ∷ rollback_one 5 key

rollback_example :
    RolledBack
      (engine (some (lock_to_bytes own_lock)))
      rollback_request
      (record { error = none })
      []
      rolled
    × ((k : Bytes) → holder k used_latches ≡ holder k open_latches)
unfolding kv_batch_rollback latched wait_for_latches acquire_latches lookup get_lock parse_lock
    lock_to_bytes delete_lock release_latches put_write put_rollback delete_value remove insert
    bytes_beq current_write
rollback_example =
    rollback_all_or_nothing (engine (some (lock_to_bytes own_lock))) rollback_request open_latches
      used_latches [] rolled (record { error = none }) refl

-- The lock has run out.
abbrev check_request : CheckTxnStatusRequest
check_request = record { primary_key = key; lock_ts = 5; current_ts = 3001 * 2 ^ 16 }

check_example :
    Checked
      (engine (some (lock_to_bytes own_lock)))
      check_request
      (rolled_back ttl_expire_rollback)
      []
      rolled
    × ((k : Bytes) → holder k used_latches ≡ holder k open_latches)
unfolding kv_check_txn_status latched wait_for_latches acquire_latches lookup get_lock parse_lock
    lock_to_bytes delete_lock release_latches put_write put_rollback delete_value remove insert
    bytes_beq physical_time add64
check_example =
    check_txn_status_lem (engine (some (lock_to_bytes own_lock))) check_request open_latches
      used_latches [] rolled (rolled_back ttl_expire_rollback) refl

-- A store with one lock.
abbrev one_lock : Engine (List Modify)
one_lock = record {
  reader = λ s. ok (record {
    get_cf = λ cf k. ok (some (lock_to_bytes own_lock));
    seek = λ cf k. record { key = key; value = ok (lock_to_bytes own_lock) } ∷ [];
  });
  write = λ ws s. (ok tt, s ++ ws);
}

resolve_example :
    (◌≡◌ {A = Option KeyError} none none)
    × Resolved one_lock (record { start_version = 5; commit_version = 0 }) [] rolled
    × ((k : Bytes) → holder k used_latches ≡ holder k open_latches)
unfolding kv_resolve_lock latched wait_for_latches acquire_latches lookup get_lock parse_lock
    lock_to_bytes delete_lock release_latches put_write put_rollback delete_value remove insert
    bytes_beq
resolve_example =
    resolve_lock_lem one_lock (record { start_version = 5; commit_version = 0 }) open_latches
      used_latches [] rolled (record { error = none }) refl

-- A store with one put of the key, committed at 3.
abbrev value_of : Cf → Option Bytes
value_of cf = if bytes_beq cf Txn.default then some (118 ∷ []) else none

abbrev put_reader : Reader
put_reader = record {
  get_cf = λ cf k. ok (value_of cf);
  seek = λ cf k.
      record {
        key = encode_key key 3;
        value = ok (write_to_bytes (record { start_ts = 2; kind = Records.put }));
      }
      ∷ [];
}

abbrev one_put : Engine (List Modify)
one_put = record { reader = λ s. ok put_reader; write = λ ws s. (ok tt, s ++ ws) }

abbrev scan_request : ScanRequest
scan_request = record { start_key = key; limit = 2; version = 5 }

scan_example :
    (reader : Reader) × (one_put.reader [] ≡ ok reader)
    × (1 ≤ 2)
    × All
        (Answers scan_request (reader.seek Txn.write (encode_key key u64_max)) (new_txn reader 5))
        (new_pair key (118 ∷ []) ∷ [])
unfolding kv_scan next encode_key decode_user_key decode_timestamp parse_write write_to_bytes
    get_lock bytes_beq encode_bytes decode_bytes Txn.default Txn.lock
scan_example =
    scan_lem one_put scan_request [] (record { pairs = new_pair key (118 ∷ []) ∷ [] }) refl
