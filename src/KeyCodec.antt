-- ===== src/KeyCodec.antt =====
-- src/util/multi_level_key.rs: a key in front of another, as one byte string.
pub mod Roundtrip
use aegisdb_core.Prelude.{
  ℕ, ◌+◌, ◌/◌, ◌%◌, ◌^◌, Bool, true, false, not, ◌||◌, List, [], ◌∷◌, ◌++◌, Option, none, some,
  Result, ok, err, panic, ltb, ◌==◌, if◌then◌else◌, length, take, drop, get_elem?,
}
use aegisdb_core.Prelude.Bytes.{Bytes}
use aegisdb_core.Mvcc.Codec.{to_be_bytes, from_be_bytes}

abbrev separator : ℕ
separator = 255

-- `u32::to_be_bytes`
abbrev pub u32_to_be_bytes : ℕ → Bytes
u32_to_be_bytes n = (n / 2 ^ 24 % 256) ∷ (n / 2 ^ 16 % 256) ∷ (n / 2 ^ 8 % 256) ∷ (n % 256) ∷ []

unfoldable pub encode_multi_level_key : Bytes → Bytes → Bytes
encode_multi_level_key primary secondary =
    u32_to_be_bytes (length primary % 2 ^ 32) ++ (primary ++ (separator ∷ secondary))

-- The separator and the secondary key, where the primary key has the length `n`.
decode_rest : ℕ → Bytes → Result (Bytes × Bytes)
decode_rest n encoded =
    if ltb (length encoded) (n + 6)
    then err "Invalid separator in encoded key"
    else elim (get_elem? encoded (n + 4)) [
      | none ↦ panic
      | some b ↦
          if not (b == separator)
          then err "Invalid separator in encoded key"
          else ok (take n (drop 4 encoded), drop (n + 5) encoded)
    ]

decode_sized : ℕ → Bytes → Result (Bytes × Bytes)
unfolding decode_rest
decode_sized n encoded =
    if ltb (length encoded) (n + 5) then err "Invalid encoded key format" else decode_rest n encoded

unfoldable pub decode_multi_level_key : Bytes → Result (Bytes × Bytes)
unfolding decode_sized
decode_multi_level_key encoded =
    if ltb (length encoded) 5
    then err "Encoded key too short"
    else decode_sized (from_be_bytes 0 (take 4 encoded)) encoded

unfoldable pub primary_key_from_region_id : ℕ → Bytes
primary_key_from_region_id region_id = to_be_bytes region_id

unfoldable pub region_id_from_primary_key : Bytes → Result ℕ
region_id_from_primary_key primary =
    if not (length primary == 8)
    then err "Invalid primary key length for region_id"
    else ok (from_be_bytes 0 primary)
