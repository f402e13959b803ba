-- ===== src/Mvcc/Codec/Order.antt =====
-- src/transaction/mvcc/codec.rs: the order of encoded keys.
use aegisdb_core.Prelude.{
  ℕ, zero, suc, ◌+◌, ◌*◌, ◌≤◌, ◌<◌, ◌≡◌, refl, sym, ap, ◌∙◌, inl, inr, [], ◌∷◌, ◌++◌, arith, length,
  ltb, leb, ◌==◌, if◌then◌else◌, Bool-cases, All, u64_mod, length-append,
}
use aegisdb_core.Prelude.Bytes.{Bytes, bytes_beq}
use aegisdb_core.Prelude.Order.{bytes_geb}
use aegisdb_core.Mvcc.Codec.{
  encode_bytes, pad_group, encode_key, to_be_bytes, from_be_bytes, invert,
}
use aegisdb_core.Mvcc.Codec.Roundtrip.{be_bytes_lem}
use aegisdb_core.Mvcc.Codec.Padding.{padded, padded-geb, geb-append, beq-append, longer, shorter}

-- A last group, or a full group with what is encoded behind it.
data Shape (a : Bytes) : Type 0 where
  last_group : length a ≤ 7 → ((x : Bytes) → encode_bytes a ++ x ≡ padded 8 a x) → Shape a
  full_group :
      (g r : Bytes)
      → length g ≡ 8
      → a ≡ g ++ r
      → ((x : Bytes) → encode_bytes a ++ x ≡ padded 8 g (encode_bytes r ++ x))
      → Shape a

shape : (a : Bytes) → Shape a
unfolding encode_bytes pad_group padded
shape (a ∷ b ∷ c ∷ d ∷ e ∷ f ∷ g ∷ h ∷ rest) =
    full_group (a ∷ b ∷ c ∷ d ∷ e ∷ f ∷ g ∷ h ∷ []) rest refl refl (λ x. refl)
shape _ = last_group (omega arith) (λ x. refl)

-- What is to be shown of two byte strings.
abbrev IsOrdered : Bytes → Bytes → Type 0
IsOrdered a b =
    (x y : Bytes)
    → bytes_geb (encode_bytes a ++ x) (encode_bytes b ++ y)
      ≡ (if bytes_beq a b then bytes_geb x y else bytes_geb a b)

module _ (a b : Bytes) where
  both_last :
      length a ≤ 7
      → length b ≤ 7
      → ((x : Bytes) → encode_bytes a ++ x ≡ padded 8 a x)
      → ((y : Bytes) → encode_bytes b ++ y ≡ padded 8 b y)
      → IsOrdered a b
  both_last p q e f x y =
      rw (e x, f y) (padded-geb 8 a b x y (omega arith) (omega arith) (omega arith))

  last_and_full :
      (g r : Bytes)
      → length a ≤ 7
      → length g ≡ 8
      → b ≡ g ++ r
      → ((x : Bytes) → encode_bytes a ++ x ≡ padded 8 a x)
      → ((y : Bytes) → encode_bytes b ++ y ≡ padded 8 g (encode_bytes r ++ y))
      → IsOrdered a b
  last_and_full g r p q split e f x y =
      let (same_geb, apart, apart_g) = shorter a g r (omega arith) in
      let groups =
        padded-geb 8 a g x (encode_bytes r ++ y) (omega arith) (omega arith) (omega arith) in
      rw (e x, f y, groups, split, apart_g, apart, same_geb) refl

  full_and_last :
      (g r : Bytes)
      → length g ≡ 8
      → length b ≤ 7
      → a ≡ g ++ r
      → ((x : Bytes) → encode_bytes a ++ x ≡ padded 8 g (encode_bytes r ++ x))
      → ((y : Bytes) → encode_bytes b ++ y ≡ padded 8 b y)
      → IsOrdered a b
  full_and_last g r p q split e f x y =
      let (same_geb, apart, apart_g) = longer g b r (omega arith) in
      let groups =
        padded-geb 8 g b (encode_bytes r ++ x) y (omega arith) (omega arith) (omega arith) in
      rw (e x, f y, groups, split, apart_g, apart, same_geb) refl

  both_full :
      (g r g' r' : Bytes)
      → length g ≡ 8
      → length g' ≡ 8
      → a ≡ g ++ r
      → b ≡ g' ++ r'
      → ((x : Bytes) → encode_bytes a ++ x ≡ padded 8 g (encode_bytes r ++ x))
      → ((y : Bytes) → encode_bytes b ++ y ≡ padded 8 g' (encode_bytes r' ++ y))
      → IsOrdered r r'
      → IsOrdered a b
  both_full g r g' r' p q split split' e f ih x y =
      let groups =
        padded-geb 8 g g' (encode_bytes r ++ x) (encode_bytes r' ++ y) (omega arith) (omega arith)
          (omega arith) in
      let gebs = geb-append g g' r r' (omega arith) in
      let beqs = beq-append g g' r r' (omega arith) in
      rw (e x, f y, groups, split, split', gebs, beqs, ih x y) (ground arith)

  IsOrdered-step : ((r r' : Bytes) → length r + 8 ≤ length a → IsOrdered r r') → IsOrdered a b
  IsOrdered-step ih = elim (shape a) [
    | last_group p e ↦ elim (shape b) [
      | last_group q f ↦ both_last p q e f
      | full_group g r q split f ↦ last_and_full g r p q split e f
    ]
    | full_group g r p split e ↦ elim (shape b) [
      | last_group q f ↦ full_and_last g r p q split e f
      | full_group g' r' q split' f ↦
          let size : length a ≡ length g + length r = ap length split ∙ length-append g r in
          both_full g r g' r' p q split split' e f (ih r r' (omega arith))
    ]
  ]

encoded-geb : (n : ℕ) (a b : Bytes) → length a ≤ n → IsOrdered a b
encoded-geb zero a b h = IsOrdered-step a b (λ r r' k. absurd (omega arith))
encoded-geb (suc n) a b h = IsOrdered-step a b (λ r r' k. encoded-geb n r r' (omega arith))

-- The value of bytes of the same number is in their order.
below_after :
    (p q : Bytes) (i j : ℕ)
    → length p ≡ length q
    → All (λ b. b < 256) p
    → All (λ b. b < 256) q
    → i < j
    → from_be_bytes i p < from_be_bytes j q
below_after [] [] i j e u v h = h
below_after [] (d ∷ q) i j e u v h = absurd (omega arith)
below_after (c ∷ p) [] i j e u v h = absurd (omega arith)
below_after (c ∷ p) (d ∷ q) i j e (cu, u) (dv, v) h =
    below_after p q (i * 256 + c) (j * 256 + d) (omega arith) u v (omega arith)

value-geb :
    (p q : Bytes) (n : ℕ)
    → length p ≡ length q
    → All (λ b. b < 256) p
    → All (λ b. b < 256) q
    → bytes_geb p q ≡ leb (from_be_bytes n q) (from_be_bytes n p)
unfolding bytes_geb
value-geb [] [] n e u v = ground arith
value-geb [] (d ∷ q) n e u v = absurd (omega arith)
value-geb (c ∷ p) [] n e u v = absurd (omega arith)
value-geb (c ∷ p) (d ∷ q) n e (cu, u) (dv, v) =
    let size : length p ≡ length q = omega arith in
    elim (Bool-cases (ltb d c)) [
      | inl above ↦
          let low = below_after q p (n * 256 + d) (n * 256 + c) (sym size) v u (ground arith) in
          ground (arith, above)
      | inr not_above ↦ elim (Bool-cases (c == d)) [
        | inl same ↦
            let eq : c ≡ d = ground arith in
            let ih = value-geb p q (n * 256 + d) size u v in rw (not_above, same) (rw eq ih)
        | inr other ↦
            let low = below_after p q (n * 256 + c) (n * 256 + d) size u v (ground arith) in
            ground arith
      ]
    ]

be_bytes-bytes : (n : ℕ) → All (λ b. b < 256) (to_be_bytes n)
be_bytes-bytes n = omega arith

-- Big-endian bytes of numbers below 2^64 are in the order of the numbers.
be_bytes-geb :
    (i j : ℕ) → i < u64_mod → j < u64_mod → bytes_geb (to_be_bytes i) (to_be_bytes j) ≡ leb j i
be_bytes-geb i j hi hj =
    value-geb (to_be_bytes i) (to_be_bytes j) 0 refl (be_bytes-bytes i) (be_bytes-bytes j)
    ∙ (λ k. leb (be_bytes_lem j hj k) (be_bytes_lem i hi k))

-- The encoded keys of versions are in the order of their user keys, and for one user key the later
-- version comes first: for times below 2^64, an encoded key is at or above another exactly if its user key
-- is the same and its time not later, or its user key is above the other.
pub key_order_lem :
    (key other : Bytes) (ts other_ts : ℕ)
    → ts < u64_mod
    → other_ts < u64_mod
    → bytes_geb (encode_key key ts) (encode_key other other_ts)
      ≡ (if bytes_beq key other then leb ts other_ts else bytes_geb key other)
unfolding encode_key
key_order_lem key other ts other_ts h k =
    encoded-geb (length key) key other (omega arith) (to_be_bytes (invert ts))
      (to_be_bytes (invert other_ts))
    ∙ ap (λ b. if bytes_beq key other then b else bytes_geb key other)
        (be_bytes-geb (invert ts) (invert other_ts) (omega arith) (omega arith) ∙ ground arith)
