-- ===== src/Mvcc/Codec/Roundtrip.antt =====
-- src/transaction/mvcc/codec.rs: encoding and then decoding.
use aegisdb_core.Prelude.{
  ℕ, ◌+◌, ◌<◌, ◌≡◌, refl, ap, ◌∷◌, ◌++◌, ok, arith, length, u64_mod, drop-append, length-append,
  ltb, le→ltb, false,
}
use aegisdb_core.Prelude.Bytes.{Bytes}
use aegisdb_core.Mvcc.Codec.{
  encode_bytes, decode_bytes, encode_key, decode_user_key, decode_timestamp, to_be_bytes,
  from_be_bytes, invert,
}

-- Encoded bytes are read back whole, whatever follows them, and the decoder stops behind them.
pub decode-encode :
    (bytes rest : Bytes)
    → decode_bytes (encode_bytes bytes ++ rest) ≡ ok (bytes, length (encode_bytes bytes))
unfolding decode_bytes encode_bytes
decode-encode (a ∷ b ∷ c ∷ d ∷ e ∷ f ∷ g ∷ h ∷ tail) rest =
    rw (decode-encode tail rest) (ground arith)
decode-encode _ rest = refl

pub be_bytes_lem : (n : ℕ) → n < u64_mod → from_be_bytes 0 (to_be_bytes n) ≡ n
be_bytes_lem n h = omega arith

-- The user key of a version's key is the one it was made from.
pub user_key_lem : (key : Bytes) (ts : ℕ) → decode_user_key (encode_key key ts) ≡ ok key
unfolding decode_user_key encode_key
user_key_lem key ts = rw (decode-encode key (to_be_bytes (invert ts))) refl

-- The time in an encoded key is read back, for every time below 2^64.
pub timestamp_lem :
    (key : Bytes) (ts : ℕ) → ts < u64_mod → decode_timestamp (encode_key key ts) ≡ ok ts
unfolding decode_timestamp encode_key
timestamp_lem key ts h =
    let e = decode-encode key (to_be_bytes (invert ts)) in
    let d = drop-append (encode_bytes key) (to_be_bytes (invert ts)) in
    let n = length-append (encode_bytes key) (to_be_bytes (invert ts)) in
    let not_less : ltb (length (encode_bytes key) + 8) (length (encode_bytes key) + 8) ≡ false =
      le→ltb _ _ (omega arith) in
    rw (e, d, n, not_less, be_bytes_lem (invert ts) (omega arith)) (ap ok (omega arith))
