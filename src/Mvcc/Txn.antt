-- ===== src/Mvcc/Txn.antt =====
-- src/transaction/mvcc/transaction.rs: a transaction reads at its start time and collects its writes.
-- The storage below it is a parameter: what a lookup gives, and the items from a sought key on.
pub mod Visible
pub mod Current
use aegisdb_core.Prelude.{
  ℕ, ◌+◌, Bool, true, false, not, ◌&&◌, List, [], ◌∷◌, ◌++◌, Option, none, some, Result, ok, err,
  panic, ◌>>=◌, leb, ◌==◌, if◌then◌else◌, u64_max,
}
use aegisdb_core.Prelude.Bytes.{Bytes, bytes_beq}
use aegisdb_core.Mvcc.Codec.{encode_bytes, encode_key, decode_user_key, decode_timestamp}
use aegisdb_core.Mvcc.Records
use aegisdb_core.Mvcc.Records.{
  WriteKind, Lock, parse_lock, lock_to_bytes, parse_write, write_to_bytes,
}

-- A column family is any text: `String`, as bytes.
abbrev pub Cf : Type 0
Cf = Bytes

-- `CF_DEFAULT`, `CF_WRITE` and `CF_LOCK`
unfoldable pub default : Cf
default = b'd' ∷ b'e' ∷ b'f' ∷ b'a' ∷ b'u' ∷ b'l' ∷ b't' ∷ []

unfoldable pub write : Cf
write = b'w' ∷ b'r' ∷ b'i' ∷ b't' ∷ b'e' ∷ []

unfoldable pub lock : Cf
lock = b'l' ∷ b'o' ∷ b'c' ∷ b'k' ∷ []

-- `Modify`, with `Put` and `Delete`
pub data Modify : Type 0 where
  put : Bytes → Bytes → Cf → Modify
  delete : Bytes → Cf → Modify

-- What `DBIterator` gives at a position: a key, and the value or an error.
pub record Item : Type 0 where
  pub key : Bytes
  pub value : Result Bytes

-- `StorageReader`: `get_cf`, and the items that `seek` and `next` run through.
pub record Reader : Type 0 where
  pub get_cf : Cf → Bytes → Result (Option Bytes)
  pub seek : Cf → Bytes → List Item

pub record MvccTxn : Type 0 where
  pub start_ts : ℕ
  pub reader : Reader
  pub writes : List Modify

abbrev pub new_txn : Reader → ℕ → MvccTxn
new_txn reader start_ts = record { start_ts = start_ts; reader = reader; writes = [] }

abbrev record_write : MvccTxn → Modify → MvccTxn
record_write t m = record t { writes = t.writes ++ (m ∷ []) }

unfoldable pub put_write : Bytes → ℕ → Records.Write → MvccTxn → MvccTxn
put_write key ts w t = record_write t (put (encode_key key ts) (write_to_bytes w) write)

unfoldable pub put_lock : Bytes → Lock → MvccTxn → MvccTxn
put_lock key l t = record_write t (put key (lock_to_bytes l) lock)

unfoldable pub delete_lock : Bytes → MvccTxn → MvccTxn
delete_lock key t = record_write t (delete key lock)

unfoldable pub put_value : Bytes → Bytes → MvccTxn → MvccTxn
put_value key value t = record_write t (put (encode_key key t.start_ts) value default)

unfoldable pub delete_value : Bytes → MvccTxn → MvccTxn
delete_value key t = record_write t (delete (encode_key key t.start_ts) default)

-- An error of the parser comes under another message.
relabel {ℓ} : {A : Type ℓ} → Result A → Result A
relabel (ok a) = ok a
relabel (err e) = err "failed to parse"
relabel panic = panic

unfoldable pub get_lock : Bytes → MvccTxn → Result (Option Lock)
unfolding relabel
get_lock key t = do
  found ← t.reader.get_cf lock key
  elim found [ none ↦ ok none | some value ↦ relabel (parse_lock value) >>= λ l. ok (some l) ]

-- The answer for no write.
abbrev pub no_write : Option Records.Write × ℕ
no_write = (none, 0)

at_item : MvccTxn → Bytes → List Item → Result (Option Records.Write × ℕ)
unfolding relabel
at_item t key [] = ok no_write
at_item t key (item ∷ _) = do
  user_key ← decode_user_key item.key
  if not (bytes_beq user_key key) then ok no_write else do
    commit_ts ← decode_timestamp item.key
    if not (commit_ts == t.start_ts)
        then ok no_write
        else do value ← item.value; w ← relabel (parse_write value); ok (w, commit_ts)

-- `current_write`: the write of `key` whose commit time is the start time of the transaction
unfoldable pub current_write : Bytes → MvccTxn → Result (Option Records.Write × ℕ)
unfolding at_item
current_write key t = at_item t key (t.reader.seek write (encode_key key t.start_ts))

-- The value of an item whose commit time is not after the start: a write, or the search goes on.
take_write :
    Result Bytes → ℕ → Result (Option Records.Write × ℕ) → Result (Option Records.Write × ℕ)
unfolding relabel
take_write value commit_ts more = do
  v ← value
  w ← relabel (parse_write v)
  elim w [ some x ↦ ok (some x, commit_ts) | none ↦ more ]

at_version : ℕ → Item → ℕ → Result (Option Records.Write × ℕ) → Result (Option Records.Write × ℕ)
unfolding take_write
at_version start_ts item commit_ts more =
    if leb commit_ts start_ts then take_write item.value commit_ts more else more

-- `on_key` where an item's key does not decode, `continue` is the rest of the loop.
or_skip {ℓ κ} : {A : Type ℓ} {B : Type κ} → Result A → Result B → (A → Result B) → Result B
or_skip (ok a) more f = f a
or_skip (err e) more f = more
or_skip panic more f = panic

-- The loop of `most_recent_write`: the first write of `key` that is not after `start_ts`
unfoldable pub find_write : ℕ → Bytes → List Item → Result (Option Records.Write × ℕ)
unfolding or_skip at_version
find_write start_ts key [] = ok no_write
find_write start_ts key (item ∷ items) =
    let more = find_write start_ts key items in
    or_skip (decode_user_key item.key) more λ user_key.
      if not (bytes_beq user_key key)
      then ok no_write
      else or_skip (decode_timestamp item.key) more
          λ commit_ts. at_version start_ts item commit_ts more

-- The second `seek`, made where the first finds nothing.
seek_again : MvccTxn → Bytes → List Item → List Item
seek_again t key [] = t.reader.seek write (encode_bytes key)
seek_again t key (item ∷ items) = item ∷ items

unfoldable pub most_recent_write : Bytes → MvccTxn → Result (Option Records.Write × ℕ)
unfolding seek_again
most_recent_write key t =
    find_write t.start_ts key (seek_again t key (t.reader.seek write (encode_key key u64_max)))

read_version : Bytes → MvccTxn → Option Records.Write → Result (Option Bytes)
read_version key t none = ok none
read_version key t (some w) = elim w.kind [
  | Records.put ↦ t.reader.get_cf default (encode_key key w.start_ts)
  | Records.delete ↦ ok none
  | Records.rollback ↦ ok none
]

unless_locked : MvccTxn → Option Lock → Result (Option Bytes) → Result (Option Bytes)
unless_locked t none value = value
unless_locked t (some l) value =
    if not (l.ts == t.start_ts) then err "key is locked by another transaction" else value

unfoldable pub get_value : Bytes → MvccTxn → Result (Option Bytes)
unfolding read_version unless_locked
get_value key t = do
  l ← get_lock key t
  unless_locked t l (most_recent_write key t >>= λ found. read_version key t found.0)
