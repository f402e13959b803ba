-- ===== src/KeyCodec/Roundtrip.antt =====
-- src/util/multi_level_key.rs: encoding and then decoding.
use aegisdb_core.Prelude.{
  ℕ, suc, ◌+◌, ◌%◌, ◌^◌, ◌<◌, ◌≡◌, refl, ap, ◌∙◌, arith, Bool, true, false, [], ◌∷◌, ◌++◌, some,
  Result, ok, err, ltb, if◌then◌else◌, length, drop, get_elem?, take-append, length-append, u64_mod,
}
use aegisdb_core.Prelude.Bytes.{Bytes}
use aegisdb_core.Mvcc.Codec.{from_be_bytes}
use aegisdb_core.Mvcc.Codec.Roundtrip.{be_bytes_lem}
use aegisdb_core.KeyCodec.{
  encode_multi_level_key, decode_multi_level_key, decode_rest, decode_sized,
  primary_key_from_region_id, region_id_from_primary_key, u32_to_be_bytes,
}

get_elem?-append :
    (xs : Bytes) (y : ℕ) (ys : Bytes) → get_elem? (xs ++ (y ∷ ys)) (length xs) ≡ some y
get_elem?-append [] y ys = refl
get_elem?-append (x ∷ xs) y ys = get_elem?-append xs y ys

drop_behind : (xs : Bytes) (y : ℕ) (ys : Bytes) → drop (suc (length xs)) (xs ++ (y ∷ ys)) ≡ ys
drop_behind [] y ys = refl
drop_behind (x ∷ xs) y ys = drop_behind xs y ys

u32_lem : (n : ℕ) → n < 2 ^ 32 → from_be_bytes 0 (u32_to_be_bytes (n % 2 ^ 32)) ≡ n
u32_lem n h = omega arith

four : (n : ℕ) → n + 4 ≡ suc (suc (suc (suc n)))
four n = omega arith

five : (n : ℕ) → n + 5 ≡ suc (suc (suc (suc (suc n))))
five n = omega arith

-- What is read back: a secondary key that is empty is taken for a missing separator.
abbrev pub read_back : Bytes → Bytes → Result (Bytes × Bytes)
read_back primary [] = err "Invalid separator in encoded key"
read_back primary (b ∷ bs) = ok (primary, b ∷ bs)

rest_lem :
    (a b c d : ℕ) (primary secondary : Bytes)
    → decode_rest (length primary) (a ∷ b ∷ c ∷ d ∷ (primary ++ (255 ∷ secondary)))
      ≡ read_back primary secondary
unfolding decode_rest
rest_lem a b c d primary [] =
    let short : ltb (length (a ∷ b ∷ c ∷ d ∷ (primary ++ (255 ∷ [])))) (length primary + 6) ≡ true =
      ground (arith, length-append primary (255 ∷ [])) in
    rw short refl
rest_lem a b c d primary (x ∷ xs) =
    let rest = 255 ∷ x ∷ xs in
    let long : ltb (length (a ∷ b ∷ c ∷ d ∷ (primary ++ rest))) (length primary + 6) ≡ false =
      ground (arith, length-append primary rest) in
    let sep : get_elem? (a ∷ b ∷ c ∷ d ∷ (primary ++ rest)) (length primary + 4) ≡ some 255 =
      ap (get_elem? (a ∷ b ∷ c ∷ d ∷ (primary ++ rest))) (four (length primary))
      ∙ get_elem?-append primary 255 (x ∷ xs) in
    let behind : drop (length primary + 5) (a ∷ b ∷ c ∷ d ∷ (primary ++ rest)) ≡ x ∷ xs =
      ap (λ n. drop n (a ∷ b ∷ c ∷ d ∷ (primary ++ rest))) (five (length primary))
      ∙ drop_behind primary 255 (x ∷ xs) in
    rw (long, sep, behind, take-append primary rest) refl

if_false {ℓ} : {A : Type ℓ} (b : Bool) (x y : A) → b ≡ false → (if b then x else y) ≡ y
if_false b x y e = rw e refl

sized_lem :
    (a b c d : ℕ) (primary secondary : Bytes)
    → decode_sized (length primary) (a ∷ b ∷ c ∷ d ∷ (primary ++ (255 ∷ secondary)))
      ≡ read_back primary secondary
unfolding decode_sized
sized_lem a b c d primary secondary =
    let all = a ∷ b ∷ c ∷ d ∷ (primary ++ (255 ∷ secondary)) in
    let in_range : ltb (length all) (length primary + 5) ≡ false =
      ground (arith, length-append primary (255 ∷ secondary)) in
    if_false _ _ _ in_range ∙ rest_lem a b c d primary secondary

decode_lem :
    (a b c d : ℕ) (primary secondary : Bytes)
    → from_be_bytes 0 (a ∷ b ∷ c ∷ d ∷ []) ≡ length primary
    → decode_multi_level_key (a ∷ b ∷ c ∷ d ∷ (primary ++ (255 ∷ secondary)))
      ≡ read_back primary secondary
unfolding decode_multi_level_key
decode_lem a b c d primary secondary n =
    let all = a ∷ b ∷ c ∷ d ∷ (primary ++ (255 ∷ secondary)) in
    let not_short : ltb (length all) 5 ≡ false =
      ground (arith, length-append primary (255 ∷ secondary)) in
    if_false _ _ _ not_short ∙ ap (λ k. decode_sized k all) n ∙ sized_lem a b c d primary secondary

-- A primary key shorter than 2^32 bytes and a secondary key are read back from their encoding, unless
-- the secondary key is empty: then the decoder gives an error.
multi_level_roundtrip :
    (primary secondary : Bytes)
    → length primary < 2 ^ 32
    → decode_multi_level_key (encode_multi_level_key primary secondary)
      ≡ read_back primary secondary
unfolding decode_multi_level_key encode_multi_level_key
multi_level_roundtrip primary secondary h =
    decode_lem _ _ _ _ primary secondary (u32_lem (length primary) h)

-- A region's id is read back from its primary key.
pub region_id_lem :
    (id : ℕ) → id < u64_mod → region_id_from_primary_key (primary_key_from_region_id id) ≡ ok id
unfolding region_id_from_primary_key primary_key_from_region_id
region_id_lem id h = rw (be_bytes_lem id h) refl
