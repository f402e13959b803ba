-- ===== src/Mvcc/Codec.antt =====
-- src/transaction/mvcc/codec.rs: the bytes of keys and of versions of keys.
pub mod Roundtrip
pub mod Padding
pub mod Order
use aegisdb_core.Prelude.{
  ℕ, ◌+◌, ◌-◌, ◌*◌, ◌/◌, ◌%◌, ◌^◌, Bool, true, ◌&&◌, List, [], ◌∷◌, ◌++◌, Result, ok, err, ◌>>=◌,
  ltb, ◌==◌, if◌then◌else◌, length, take, drop, replicate, u64_max,
}
use aegisdb_core.Prelude.Bytes.{Bytes}

abbrev pub group_size : ℕ
group_size = 8

abbrev pub marker_full : ℕ
marker_full = 0xFF

abbrev pub pad_byte : ℕ
pad_byte = 0x00

-- A last group: the rest of the data, zeros, and a marker that tells how many zeros.
pad_group : Bytes → Bytes
pad_group short =
    let pad = group_size - length short in
    short ++ (replicate pad pad_byte ++ ((marker_full - pad) ∷ []))

-- A group of eight bytes each time the loop finds as many.
unfoldable pub encode_bytes : Bytes → Bytes
unfolding pad_group
encode_bytes (a ∷ b ∷ c ∷ d ∷ e ∷ f ∷ g ∷ h ∷ rest) =
    a ∷ b ∷ c ∷ d ∷ e ∷ f ∷ g ∷ h ∷ marker_full ∷ encode_bytes rest
encode_bytes short = pad_group short

all_pad : Bytes → Bool
all_pad [] = true
all_pad (v ∷ vs) = v == pad_byte && all_pad vs

-- The last group, `pad` of whose bytes are padding.
unpad_group : Bytes → ℕ → Result (Bytes × ℕ)
unfolding all_pad
unpad_group group pad =
    if all_pad (drop (group_size - pad) group)
    then ok (take (group_size - pad) group, group_size + 1)
    else err "invalid padding byte"

-- The data and the number of bytes read.
unfoldable pub decode_bytes : Bytes → Result (Bytes × ℕ)
unfolding unpad_group
decode_bytes (a ∷ b ∷ c ∷ d ∷ e ∷ f ∷ g ∷ h ∷ marker ∷ rest) =
    let pad = marker_full - marker in
    let group = a ∷ b ∷ c ∷ d ∷ e ∷ f ∷ g ∷ h ∷ [] in
    let more = decode_bytes rest >>= λ r. ok (group ++ r.0, group_size + 1 + r.1) in
    if ltb group_size pad
    then err "invalid marker byte"
    else if pad == 0
    then more
    else unpad_group group pad
decode_bytes _ = err "insufficient bytes to decode value"

-- `u64::to_be_bytes`
abbrev pub to_be_bytes : ℕ → Bytes
to_be_bytes n =
    (n / 2 ^ 56 % 256)
    ∷ (n / 2 ^ 48 % 256)
    ∷ (n / 2 ^ 40 % 256)
    ∷ (n / 2 ^ 32 % 256)
    ∷ (n / 2 ^ 24 % 256)
    ∷ (n / 2 ^ 16 % 256)
    ∷ (n / 2 ^ 8 % 256)
    ∷ (n % 256)
    ∷ []

-- `u64::from_be_bytes`, from the value of the bytes read so far
abbrev pub from_be_bytes : ℕ → Bytes → ℕ
from_be_bytes n [] = n
from_be_bytes n (b ∷ bs) = from_be_bytes (n * 256 + b) bs

-- `!ts` of a `u64`
abbrev pub invert : ℕ → ℕ
invert ts = u64_max - ts

unfoldable pub encode_key : Bytes → ℕ → Bytes
encode_key user_key ts = encode_bytes user_key ++ to_be_bytes (invert ts)

unfoldable pub decode_user_key : Bytes → Result Bytes
decode_user_key encoded = decode_bytes encoded >>= λ r. ok r.0

unfoldable pub decode_timestamp : Bytes → Result ℕ
decode_timestamp encoded = decode_bytes encoded >>= λ r.
    if ltb (length encoded) (r.1 + 8)
    then err "insufficient bytes for timestamp"
    else ok (invert (from_be_bytes 0 (take 8 (drop r.1 encoded))))

unfoldable pub physical_time : ℕ → ℕ
physical_time ts = ts / 2 ^ 16
