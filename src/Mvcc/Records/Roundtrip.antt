-- ===== src/Mvcc/Records/Roundtrip.antt =====
-- Writing a record and parsing it.
use aegisdb_core.Prelude.{
  ℕ, ◌+◌, ◌-◌, ◌<◌, ◌≡◌, ◌≢◌, refl, [], ◌∷◌, ◌++◌, some, ok, err, arith, length, u64_mod,
  take-append, drop-append, length-append, leb, false,
}
use aegisdb_core.Prelude.Bytes.{Bytes}
use aegisdb_core.Mvcc.Codec.{to_be_bytes}
use aegisdb_core.Mvcc.Codec.Roundtrip.{be_bytes_lem}
use aegisdb_core.Mvcc.Records.{
  WriteKind, put, delete, rollback, kind_byte, kind_of_byte, Write, write_to_bytes, parse_write,
  Lock, lock_to_bytes, parse_lock, parse_tail,
}

kind_lem : (k : WriteKind) → kind_of_byte (kind_byte k) ≡ ok k
unfolding kind_of_byte
kind_lem put = refl
kind_lem delete = refl
kind_lem rollback = refl

-- A commit record whose start time is below 2^64 is parsed to what was written.
pub write_roundtrip :
    (w : Write) → w.start_ts < u64_mod → parse_write (write_to_bytes w) ≡ ok (some w)
unfolding parse_write write_to_bytes
write_roundtrip w h = rw (kind_lem w.kind, be_bytes_lem w.start_ts h) refl

tail_lem :
    (l : Lock)
    → l.ts < u64_mod
    → l.ttl < u64_mod
    → parse_tail l.primary (kind_byte l.kind ∷ (to_be_bytes l.ts ++ to_be_bytes l.ttl)) ≡ ok l
unfolding parse_tail
tail_lem l h k = rw (kind_lem l.kind, be_bytes_lem l.ts h, be_bytes_lem l.ttl k) refl

-- A lock with a nonempty primary key, and a start time and a time to live below 2^64, is parsed to
-- what was written.
lock_roundtrip :
    (l : Lock)
    → l.primary ≢ []
    → l.ts < u64_mod
    → l.ttl < u64_mod
    → parse_lock (lock_to_bytes l) ≡ ok l
unfolding parse_lock lock_to_bytes
lock_roundtrip l nonempty h k =
    let tail : Bytes = kind_byte l.kind ∷ (to_be_bytes l.ts ++ to_be_bytes l.ttl) in
    let len : length (l.primary ++ tail) - 17 ≡ length l.primary =
      omega (arith, length-append l.primary tail) in
    let long : leb (length (l.primary ++ tail)) 17 ≡ false =
      more l.primary nonempty (length (l.primary ++ tail)) (length-append l.primary tail) in
    rw (long, len, take-append l.primary tail, drop-append l.primary tail) (tail_lem l h k)
  where
    more : (p : Bytes) → p ≢ [] → (n : ℕ) → n ≡ length p + 17 → leb n 17 ≡ false
    more [] h n e = absurd (h refl)
    more (x ∷ p) h n e = ground arith

-- A lock with an empty primary key cannot be read back: the parser says that the input is too short.
lock_empty_primary :
    (l : Lock) → l.primary ≡ [] → parse_lock (lock_to_bytes l) ≡ err "not enough input"
unfolding parse_lock lock_to_bytes
lock_empty_primary l e = rw e refl
