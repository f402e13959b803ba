-- ===== src/Mvcc/Records.antt =====
-- src/transaction/mvcc/write.rs and lock.rs: the records of the `write` and `lock` column families.
pub mod Roundtrip
use aegisdb_core.Prelude.{
  ℕ, ◌+◌, ◌-◌, Bool, true, false, List, [], ◌∷◌, ◌++◌, Option, none, some, Result, ok, err, panic,
  ◌>>=◌, leb, ◌==◌, if◌then◌else◌, length, take, drop,
}
use aegisdb_core.Prelude.Bytes.{Bytes}
use aegisdb_core.Mvcc.Codec.{to_be_bytes, from_be_bytes}

pub data WriteKind : Type 0 where
  put delete rollback : WriteKind

-- `kind as u8`
abbrev pub kind_byte : WriteKind → ℕ
kind_byte put = 1
kind_byte delete = 2
kind_byte rollback = 3

-- `WriteKind::from`, which panics on another byte
unfoldable pub kind_of_byte : ℕ → Result WriteKind
kind_of_byte b =
    if b == 1 then ok put else if b == 2 then ok delete else if b == 3 then ok rollback else panic

pub record Write : Type 0 where
  pub start_ts : ℕ
  pub kind : WriteKind

unfoldable pub write_to_bytes : Write → Bytes
write_to_bytes w = kind_byte w.kind ∷ to_be_bytes w.start_ts

-- `Write::parse`
unfoldable pub parse_write : Bytes → Result (Option Write)
unfolding kind_of_byte
parse_write [] = ok none
parse_write (b ∷ bs) =
    if length bs == 8
    then (do
      kind ← kind_of_byte b
      ok (some (record { start_ts = from_be_bytes 0 bs; kind = kind })))
    else err "value is incorrect length"

pub record Lock : Type 0 where
  pub primary : Bytes
  pub ts : ℕ
  pub ttl : ℕ
  pub kind : WriteKind

unfoldable pub lock_to_bytes : Lock → Bytes
lock_to_bytes l = l.primary ++ (kind_byte l.kind ∷ (to_be_bytes l.ts ++ to_be_bytes l.ttl))

-- The seventeen bytes behind the primary key.
parse_tail : Bytes → Bytes → Result Lock
unfolding kind_of_byte
parse_tail primary [] = panic
parse_tail primary (b ∷ bs) = do
  kind ← kind_of_byte b
  ok (record {
    primary = primary;
    ts = from_be_bytes 0 (take 8 bs);
    ttl = from_be_bytes 0 (take 8 (drop 8 bs));
    kind = kind;
  })

-- `Lock::parse`
unfoldable pub parse_lock : Bytes → Result Lock
unfolding parse_tail
parse_lock input =
    let primary_len = length input - 17 in
    if leb (length input) 17
    then err "not enough input"
    else parse_tail (take primary_len input) (drop primary_len input)

-- `Lock::is_locked_for`
unfoldable pub is_locked_for : Lock → ℕ → Bool
is_locked_for l txn_start_ts = leb l.ts txn_start_ts
