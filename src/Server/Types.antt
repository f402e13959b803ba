-- ===== src/Server/Types.antt =====
-- src/proto/kvrpcpb.rs: the requests and answers of the two-phase commit, less the fields for regions,
-- which src/server/transaction_api.rs neither reads nor sets; and the storage below it.
use aegisdb_core.Prelude.{ℕ, Bool, true, false, [], List, Option, none, some, Result}
use aegisdb_core.Prelude.Bytes.{Bytes}
use Prim.Native.String.{String}
use aegisdb_core.Mvcc.Txn.{Reader, Modify}

pub data Op : Type 0 where
  put del rollback : Op

pub record Mutation : Type 0 where
  pub op : Op
  pub key : Bytes
  pub value : Bytes

pub record PrewriteRequest : Type 0 where
  pub mutations : List Mutation
  pub primary_lock : Bytes
  pub start_version : ℕ
  pub lock_ttl : ℕ

pub record CommitRequest : Type 0 where
  pub start_version : ℕ
  pub keys : List Bytes
  pub commit_version : ℕ

pub record LockInfo : Type 0 where
  pub primary_lock : Bytes
  pub lock_version : ℕ
  pub key : Bytes
  pub lock_ttl : ℕ

pub record WriteConflict : Type 0 where
  pub start_ts : ℕ
  pub conflict_ts : ℕ
  pub key : Bytes
  pub primary : Bytes

pub record KeyError : Type 0 where
  pub locked : Option LockInfo
  pub retryable : Option String
  pub abort : Option String
  pub conflict : Option WriteConflict

-- `KeyError::locked`, `KeyError::abort` and `KeyError::conflict`
abbrev pub locked_error : LockInfo → KeyError
locked_error i = record { locked = some i; retryable = none; abort = none; conflict = none }

abbrev pub abort_error : String → KeyError
abort_error m = record { locked = none; retryable = none; abort = some m; conflict = none }

abbrev pub conflict_error : WriteConflict → KeyError
conflict_error c = record { locked = none; retryable = none; abort = none; conflict = some c }

pub record PrewriteResponse : Type 0 where
  pub errors : List KeyError

pub record CommitResponse : Type 0 where
  pub error : Option KeyError

pub record BatchRollbackRequest : Type 0 where
  pub start_version : ℕ
  pub keys : List Bytes

pub record BatchRollbackResponse : Type 0 where
  pub error : Option KeyError

-- A commit version of 0 asks for a rollback.
pub record ResolveLockRequest : Type 0 where
  pub start_version : ℕ
  pub commit_version : ℕ

pub record ResolveLockResponse : Type 0 where
  pub error : Option KeyError

pub data Action : Type 0 where
  no_action ttl_expire_rollback lock_not_exist_rollback : Action

pub record CheckTxnStatusRequest : Type 0 where
  pub primary_key : Bytes
  pub lock_ts : ℕ
  pub current_ts : ℕ

pub record CheckTxnStatusResponse : Type 0 where
  pub lock_ttl : ℕ
  pub commit_version : ℕ
  pub action : Action

-- `CheckTxnStatusResponse::locked`, `committed` and `rolled_back`
abbrev pub locked : ℕ → CheckTxnStatusResponse
locked ttl = record { lock_ttl = ttl; commit_version = 0; action = no_action }

abbrev pub committed : ℕ → CheckTxnStatusResponse
committed version = record { lock_ttl = 0; commit_version = version; action = no_action }

abbrev pub rolled_back : Action → CheckTxnStatusResponse
rolled_back action = record { lock_ttl = 0; commit_version = 0; action = action }

pub record GetRequest : Type 0 where
  pub key : Bytes
  pub version : ℕ

pub record GetResponse : Type 0 where
  pub error : Option KeyError
  pub value : Option Bytes
  pub not_found : Bool

-- `GetResponse::ok` and `GetResponse::with_key_error`
abbrev pub got : Option Bytes → GetResponse
got value = record {
  error = none;
  value = value;
  not_found = elim value [ none ↦ true | some v ↦ false ];
}

abbrev pub get_failed : KeyError → GetResponse
get_failed e = record { error = some e; value = none; not_found = false }

pub record ScanRequest : Type 0 where
  pub start_key : Bytes
  pub limit : ℕ
  pub version : ℕ

pub record KvPair : Type 0 where
  pub error : Option KeyError
  pub key : Bytes
  pub value : Bytes

-- `KvPair::new` and `KvPair::with_error`
abbrev pub new_pair : Bytes → Bytes → KvPair
new_pair key value = record { error = none; key = key; value = value }

abbrev pub failed_pair : Bytes → KeyError → KvPair
failed_pair key e = record { error = some e; key = key; value = [] }

pub record ScanResponse : Type 0 where
  pub pairs : List KvPair

-- The trait `Storage`: a reader of the store, and a batch of writes.
pub record Engine {ℓ} (S : Type ℓ) : Type ℓ where
  pub reader : S → Result Reader
  pub write : List Modify → S → Result (Unit {0}) × S
