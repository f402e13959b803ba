-- ===== src/RaftStore/Meta/Keys.antt =====
-- src/raftstore/meta/keys.rs: the keys of what a store keeps of a region.
use aegisdb_core.Prelude.{
  ℕ, ◌<◌, ◌≡◌, ◌||◌, not, ap, sym, ◌∙◌, [], ◌∷◌, ◌++◌, none, some, Result, ok, err, panic, ltb,
  ◌==◌, if◌then◌else◌, length, take, drop, get_elem?, u64_mod,
}
use aegisdb_core.Prelude.Bytes.{Bytes}
use aegisdb_core.Mvcc.Codec.{to_be_bytes, from_be_bytes}
use aegisdb_core.Mvcc.Codec.Roundtrip.{be_bytes_lem}

abbrev pub region_meta_prefix : ℕ
region_meta_prefix = 0x01

abbrev raft_state_prefix : ℕ
raft_state_prefix = 0x02

abbrev raft_log_prefix : ℕ
raft_log_prefix = 0x03

abbrev apply_state_prefix : ℕ
apply_state_prefix = 0x04

abbrev region_state_suffix : ℕ
region_state_suffix = 0x01

abbrev pub region_state_key : ℕ → Bytes
region_state_key region_id =
    region_meta_prefix ∷ (to_be_bytes region_id ++ (region_state_suffix ∷ []))

-- The first and the tenth byte are there where the length is at least ten.
unfoldable pub decode_region_meta_key : Bytes → Result (ℕ × ℕ)
decode_region_meta_key key = elim key [
  | [] ↦ err "invalid region meta key"
  | first ∷ rest ↦
      if ltb (length rest) 9 || not (first == region_meta_prefix)
      then err "invalid region meta key"
      else elim (get_elem? rest 8) [
        | none ↦ panic
        | some suffix ↦ ok (from_be_bytes 0 (take 8 rest), suffix)
      ]
]

abbrev pub raft_state_key : ℕ → Bytes
raft_state_key region_id = raft_state_prefix ∷ to_be_bytes region_id

abbrev pub raft_log_key : ℕ → ℕ → Bytes
raft_log_key region_id index = raft_log_prefix ∷ (to_be_bytes region_id ++ to_be_bytes index)

abbrev pub apply_state_key : ℕ → Bytes
apply_state_key region_id = apply_state_prefix ∷ to_be_bytes region_id

-- The key of a region's state is decoded to its id and the suffix, for every id below 2^64.
pub region_key_lem :
    (region_id : ℕ)
    → region_id < u64_mod
    → decode_region_meta_key (region_state_key region_id) ≡ ok (region_id, 1)
unfolding decode_region_meta_key
region_key_lem region_id h = ap (λ n. ok (n, 1)) (be_bytes_lem region_id h)

-- Entries of the log at different indices have different keys.
pub raft_log_key-inj :
    (region_id i j : ℕ)
    → i < u64_mod
    → j < u64_mod
    → raft_log_key region_id i ≡ raft_log_key region_id j
    → i ≡ j
raft_log_key-inj region_id i j hi hj e =
    sym (be_bytes_lem i hi) ∙ ap (λ k. from_be_bytes 0 (drop 9 k)) e ∙ be_bytes_lem j hj
