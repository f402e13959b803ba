-- ===== src/Mvcc/Examples.antt =====
-- The theorems about src/transaction/mvcc at a concrete storage.
use aegisdb_core.Prelude.{
  ℕ, ◌+◌, ◌≡◌, refl, List, [], ◌∷◌, ◌++◌, Option, none, some, Result, ok, arith, length,
  if◌then◌else◌,
}
use aegisdb_core.Prelude.Bytes.{Bytes, bytes_beq}
use aegisdb_core.Mvcc.Codec.{encode_bytes, decode_bytes}
use aegisdb_core.Mvcc.Codec.Roundtrip.{decode-encode}
use aegisdb_core.Mvcc.Records
use aegisdb_core.Mvcc.Records.{Lock, parse_lock, lock_to_bytes, parse_write, write_to_bytes}
use aegisdb_core.Mvcc.Txn.{Reader, Cf, default, lock, new_txn, most_recent_write, get_value}
use aegisdb_core.Mvcc.Txn.Visible.{
  Version, items_of, newest, Holds, IsNewest, most_recent_write_lem, snapshot_read,
}

abbrev key : Bytes
key = 107 ∷ 49 ∷ []

abbrev put_at : ℕ → Version
put_at ts = (ts + 1, record { start_ts = ts; kind = Records.put })

abbrev cell : Cf → Result (Option Bytes)
cell cf = if bytes_beq cf default then ok (some (118 ∷ [])) else ok none

-- A storage that holds the versions of the one key.
abbrev reader_of : List Version → Reader
reader_of vs = record { get_cf = λ cf k. cell cf; seek = λ cf k. items_of key vs }

abbrev two_puts : List Version
two_puts = put_at 8 ∷ put_at 3 ∷ []

decode-encode_example :
    decode_bytes (encode_bytes key ++ (1 ∷ [])) ≡ ok (key, length (encode_bytes key))
decode-encode_example = decode-encode key (1 ∷ [])

two-Holds : Holds key two_puts (new_txn (reader_of two_puts) 7)
two-Holds = record {
  rest = [];
  timed = ((omega arith, omega arith), ((omega arith, omega arith), tt));
  falling = ((omega arith, tt), (tt, tt));
  ends = tt;
  sought = refl;
  sought_again = refl;
}

most_recent_write_example :
    most_recent_write key (new_txn (reader_of two_puts) 7) ≡ ok (newest 7 two_puts)
most_recent_write_example =
    most_recent_write_lem key two_puts (new_txn (reader_of two_puts) 7) two-Holds

snapshot_read_example :
    (get_value key (new_txn (reader_of two_puts) 7) ≡ ok (some (118 ∷ []))) × IsNewest 7 4 two_puts
unfolding bytes_beq default lock
snapshot_read_example =
    snapshot_read key two_puts (new_txn (reader_of two_puts) 7) ((put_at 3).1) 4 two-Holds refl refl
      refl
