-- ===== src/Mvcc/Txn/Visible.antt =====
-- What a transaction sees of a key's versions.
use aegisdb_core.Prelude.{
  ℕ, ◌≤◌, ◌<◌, ◌≡◌, refl, ap, ◌∙◌, ◌⊎◌, inl, inr, false, List, [], ◌∷◌, ◌++◌, Option, none, some,
  ok, arith, leb, if◌then◌else◌, All, u64_mod, u64_max, Bool-cases,
}
use aegisdb_core.Prelude.Bytes.{Bytes, bytes_beq, bytes_beq_iff}
use aegisdb_core.Mvcc.Codec.{encode_key, encode_bytes, decode_user_key}
use aegisdb_core.Mvcc.Codec.Roundtrip.{user_key_lem, timestamp_lem}
use aegisdb_core.Mvcc.Records
use aegisdb_core.Mvcc.Records.{write_to_bytes, parse_write}
use aegisdb_core.Mvcc.Records.Roundtrip.{write_roundtrip}
use aegisdb_core.Mvcc.Txn.{
  Item, MvccTxn, default, write, lock, find_write, no_write, most_recent_write, seek_again,
  get_value, get_lock, read_version,
}

-- A committed version: its commit time and its record.
abbrev pub Version : Type 0
Version = ℕ × Records.Write

-- The items of a key's versions in the write column family.
abbrev pub items_of : Bytes → List Version → List Item
items_of key [] = []
items_of key ((ts, w) ∷ vs) =
    record { key = encode_key key ts; value = ok (write_to_bytes w) } ∷ items_of key vs

-- The first version that is not after `start`.
abbrev pub newest : ℕ → List Version → Option Records.Write × ℕ
newest start [] = no_write
newest start ((ts, w) ∷ vs) = if leb ts start then (some w, ts) else newest start vs

-- The times are words.
abbrev pub Timed : Version → Type 0
Timed v = (v.0 < u64_mod) × (v.1.start_ts < u64_mod)

-- The commit times fall.
abbrev pub Falling : List Version → Type 0
Falling [] = Unit {0}
Falling (v ∷ vs) = All (λ (u : Version). u.0 < v.0) vs × Falling vs

-- No item, or an item of another key.
abbrev pub Ends : Bytes → List Item → Type 0
Ends key [] = Unit {0}
Ends key (item ∷ items) =
    (k : Bytes) × (decode_user_key item.key ≡ ok k) × (bytes_beq k key ≡ false)

find_write-stops :
    (start : ℕ) (key : Bytes) (rest : List Item)
    → Ends key rest
    → find_write start key rest ≡ ok no_write
unfolding find_write
find_write-stops start key [] h = refl
find_write-stops start key (item ∷ items) (k, e, other) = rw (e, other) refl

find_write_lem :
    (start : ℕ) (key : Bytes) (vs : List Version) (rest : List Item)
    → All Timed vs
    → Ends key rest
    → find_write start key (items_of key vs ++ rest) ≡ ok (newest start vs)
unfolding find_write
find_write_lem start key [] rest h k = find_write-stops start key rest k
find_write_lem start key ((ts, w) ∷ vs) rest h k =
    rw
      (
        user_key_lem key ts,
        (bytes_beq_iff key key).1 refl,
        timestamp_lem key ts h.0.0,
        write_roundtrip w h.0.1,
      )
      (elim (Bool-cases (leb ts start)) [
        | inl e ↦ rw e refl
        | inr e ↦ rw e (find_write_lem start key vs rest h.1 k)
      ])

-- A version at `ts` is the last one that a reader at `start` may see.
abbrev pub IsNewest : ℕ → ℕ → List Version → Type 0
IsNewest start ts vs = (ts ≤ start) × All (λ (u : Version). (start < u.0) ⊎ (u.0 ≤ ts)) vs

older :
    (start ts : ℕ) (vs : List Version)
    → All (λ (u : Version). u.0 < ts) vs
    → All (λ (u : Version). (start < u.0) ⊎ (u.0 ≤ ts)) vs
older start ts [] h = tt
older start ts (v ∷ vs) h = (inr (omega arith), older start ts vs h.1)

newest-IsNewest :
    (start : ℕ) (vs : List Version) (w : Records.Write) (ts : ℕ)
    → Falling vs
    → newest start vs ≡ (some w, ts)
    → IsNewest start ts vs
newest-IsNewest start [] w ts f e = cc
newest-IsNewest start ((t, x) ∷ vs) w ts f e = elim (Bool-cases (leb t start)) [
  | inl h ↦
      let same : t ≡ ts = ground arith in
      (ground arith, (inr (omega arith), older start ts vs (rw same at (f.0))))
  | inr h ↦
      let (le, rest) = newest-IsNewest start vs w ts f.1 (ground arith) in
      (le, (inl (ground arith), rest))
]

-- What the storage holds of a key: its versions in falling order of time, with no second copy of the
-- other keys in front, and no lock of another transaction.
pub record Holds (key : Bytes) (vs : List Version) (t : MvccTxn) : Type 0 where
  pub rest : List Item
  pub timed : All Timed vs
  pub falling : Falling vs
  pub ends : Ends key rest
  pub sought : t.reader.seek write (encode_key key u64_max) ≡ items_of key vs ++ rest
  pub sought_again : t.reader.seek write (encode_bytes key) ≡ items_of key vs ++ rest

seek_again_lem :
    (t : MvccTxn) (key : Bytes) (items : List Item)
    → t.reader.seek write (encode_bytes key) ≡ items
    → seek_again t key items ≡ items
unfolding seek_again
seek_again_lem t key [] h = h
seek_again_lem t key (x ∷ xs) h = refl

-- In a store that holds the key's versions newest first, `most_recent_write` finds the newest
-- version that is not after the start of the transaction, or none where there is none.
pub most_recent_write_lem :
    (key : Bytes) (vs : List Version) (t : MvccTxn)
    → Holds key vs t
    → most_recent_write key t ≡ ok (newest t.start_ts vs)
unfolding most_recent_write
most_recent_write_lem key vs t h =
    rw (h.sought, seek_again_lem t key (items_of key vs ++ h.rest) h.sought_again)
      (find_write_lem t.start_ts key vs h.rest h.timed h.ends)

get_value-unlocked :
    (key : Bytes) (t : MvccTxn) (found : Option Records.Write × ℕ)
    → t.reader.get_cf lock key ≡ ok none
    → most_recent_write key t ≡ ok found
    → get_value key t ≡ read_version key t found.0
unfolding get_value get_lock
get_value-unlocked key t found free e = rw (free, e) refl

read-put :
    (key : Bytes) (t : MvccTxn) (w : Records.Write)
    → w.kind ≡ Records.put
    → read_version key t (some w) ≡ t.reader.get_cf default (encode_key key w.start_ts)
unfolding read_version
read-put key t w e = ground arith

read-rollback :
    (key : Bytes) (t : MvccTxn) (w : Records.Write)
    → w.kind ≡ Records.rollback
    → read_version key t (some w) ≡ ok none
unfolding read_version
read-rollback key t w e = ground arith

-- A read of a key without a lock, in a store that holds the key's versions newest first, where the
-- newest version not after the start of the transaction is a put: it gives what the store has as the
-- value of the transaction that made the put, and the put's commit time is the newest not after the
-- start.
pub snapshot_read :
    (key : Bytes) (vs : List Version) (t : MvccTxn) (w : Records.Write) (ts : ℕ)
    → Holds key vs t
    → t.reader.get_cf lock key ≡ ok none
    → newest t.start_ts vs ≡ (some w, ts)
    → w.kind ≡ Records.put
    → (get_value key t ≡ t.reader.get_cf default (encode_key key w.start_ts))
      × IsNewest t.start_ts ts vs
snapshot_read key vs t w ts h free found kind = (
  get_value-unlocked key t (some w, ts) free (most_recent_write_lem key vs t h ∙ ap ok found)
      ∙ read-put key t w kind,
  newest-IsNewest t.start_ts vs w ts h.falling found,
)

-- Where the newest version of a key without a lock is a rollback that is not after the start of the
-- transaction, a read finds nothing, whatever older versions there are, a put among them too.
rollback_hides :
    (key : Bytes) (vs : List Version) (t : MvccTxn) (w : Records.Write) (ts : ℕ)
    → Holds key ((ts, w) ∷ vs) t
    → t.reader.get_cf lock key ≡ ok none
    → ts ≤ t.start_ts
    → w.kind ≡ Records.rollback
    → get_value key t ≡ ok none
rollback_hides key vs t w ts h free le kind =
    get_value-unlocked key t (some w, ts) free
      (most_recent_write_lem key ((ts, w) ∷ vs) t h ∙ ground arith)
    ∙ read-rollback key t w kind

-- Whatever the storage holds, no write that the search gives is after `start`.
pub find_write-le :
    (start : ℕ) (key : Bytes) (items : List Item) (w : Records.Write) (ts : ℕ)
    → find_write start key items ≡ ok (some w, ts)
    → ts ≤ start
unfolding find_write
find_write-le start key [] w ts e = cc
find_write-le start key (item ∷ items) w ts e = ground (arith, find_write-le start key items w ts)
