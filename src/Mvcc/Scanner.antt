-- ===== src/Mvcc/Scanner.antt =====
-- src/transaction/mvcc/scanner.rs: a scanner over the keys that a transaction sees. The iterator is the
-- list of the items that are left.
pub mod Sound
use aegisdb_core.Prelude.{
  ℕ, ◌+◌, ◌-◌, ◌%◌, ◌^◌, Bool, true, false, not, ◌||◌, List, [], ◌∷◌, Option, none, some, Result,
  ok, err, panic, ltb, leb, ◌==◌, if◌then◌else◌, u64_max,
}
use aegisdb_core.Prelude.Bytes.{Bytes, bytes_beq}
use aegisdb_core.Prelude.Order.{bytes_geb}
use aegisdb_core.Mvcc.Codec.{encode_key, decode_user_key, decode_timestamp}
use aegisdb_core.Mvcc.Records
use aegisdb_core.Mvcc.Records.{WriteKind, parse_write}
use aegisdb_core.Mvcc.Txn.{MvccTxn, Item, default, write}

pub record Scanner : Type 0 where
  pub txn : MvccTxn
  pub start_key : Bytes
  pub end_key : Option Bytes
  pub limit : ℕ
  pub count : ℕ
  pub current_key : Option Bytes
  pub write_iter : List Item
  pub exhausted : Bool

-- `Scanner::new`
abbrev pub new_scanner : Bytes → MvccTxn → Scanner
new_scanner start_key txn = record {
  txn = txn;
  start_key = start_key;
  end_key = none;
  limit = 2 ^ 32 - 1;
  count = 0;
  current_key = none;
  write_iter = txn.reader.seek write (encode_key start_key u64_max);
  exhausted = false;
}

abbrev pub set_end_key : Option Bytes → Scanner → Scanner
set_end_key key sc = record sc { end_key = key }

abbrev pub set_limit : ℕ → Scanner → Scanner
set_limit limit sc = record sc { limit = limit }

abbrev past_end : Bytes → Option Bytes → Bool
past_end key none = false
past_end key (some end) = bytes_geb key end

abbrev is_current : Bytes → Option Bytes → Bool
is_current key none = false
is_current key (some current) = bytes_beq key current

-- A result, and the scanner after it.
abbrev pub Next : Type 0
Next = Result (Option (Bytes × Bytes)) × Scanner

-- The loop at an item, with `items` behind it and `rest` for `continue`.
module _ (item : Item) (items : List Item) (rest : Scanner → Next) where
  -- The iterator is not moved where the loop is left.
  abbrev stopped : Scanner → Scanner
  stopped sc = record sc { write_iter = item ∷ items }

  take_value : Bytes → Scanner → Result (Option Bytes) → Next
  take_value key sc (ok (some value)) = (
    ok (some (key, value)),
    record (stopped sc) { current_key = some key; count = (sc.count + 1) % 2 ^ 32 },
  )
  take_value key sc (ok none) = rest sc
  take_value key sc (err e) = (err e, stopped sc)
  take_value key sc panic = (panic, stopped sc)

  at_kind : Bytes → Scanner → ℕ → WriteKind → Next
  unfolding take_value
  at_kind key sc start Records.put =
      take_value key sc (sc.txn.reader.get_cf default (encode_key key start))
  at_kind key sc start Records.delete = rest (record sc { current_key = some key })
  at_kind key sc start Records.rollback = rest (record sc { current_key = some key })

  at_write : Bytes → Scanner → Result (Option Records.Write) → Next
  unfolding at_kind
  at_write key sc (ok (some w)) = at_kind key sc w.start_ts w.kind
  at_write key sc (ok none) = rest sc
  at_write key sc (err e) = rest sc
  at_write key sc panic = (panic, stopped sc)

  at_value : Bytes → Scanner → Result Bytes → Next
  unfolding at_write
  at_value key sc (ok value) = at_write key sc (parse_write value)
  at_value key sc (err e) = rest sc
  at_value key sc panic = (panic, stopped sc)

  at_time : Bytes → Scanner → Result ℕ → Next
  unfolding at_value
  at_time key sc (ok commit_ts) =
      if ltb sc.txn.start_ts commit_ts then rest sc else at_value key sc item.value
  at_time key sc (err e) = rest sc
  at_time key sc panic = (panic, stopped sc)

  at_key : Scanner → Result Bytes → Next
  unfolding at_time
  at_key sc (ok key) =
      if past_end key sc.end_key
      then (ok none, record (stopped sc) { exhausted = true })
      else if is_current key sc.current_key
      then rest sc
      else at_time key sc (decode_timestamp item.key)
  at_key sc (err e) = rest sc
  at_key sc panic = (panic, stopped sc)

scan_items : List Item → Scanner → Next
unfolding at_key
scan_items [] sc = (ok none, record sc { write_iter = []; exhausted = true })
scan_items (item ∷ items) sc = at_key item items (scan_items items) sc (decode_user_key item.key)

unfoldable pub next : Scanner → Next
unfolding scan_items
next sc =
    if sc.exhausted || leb sc.limit sc.count then (ok none, sc) else scan_items sc.write_iter sc
