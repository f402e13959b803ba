-- ===== src/Mvcc/Codec/Padding.antt =====
-- src/transaction/mvcc/codec.rs: comparing groups of bytes that are filled up with zeros.
use aegisdb_core.Prelude.{
  ℕ, zero, suc, ◌-◌, ◌≤◌, ◌<◌, ◌≡◌, refl, ap, true, false, ◌&&◌, [], ◌∷◌, ◌++◌, arith, length,
  replicate, if◌then◌else◌,
}
use aegisdb_core.Prelude.Bytes.{Bytes, bytes_beq}
use aegisdb_core.Prelude.Order.{bytes_geb, geb-prefix}

-- Bytes filled up to `n` with zeros, the marker, and what follows.
unfoldable pub padded : ℕ → Bytes → Bytes → Bytes
padded n a x = a ++ (replicate (n - length a) 0 ++ ((255 - (n - length a)) ∷ x))

padded_cons : (n b : ℕ) (a x : Bytes) → padded (suc n) (b ∷ a) x ≡ b ∷ padded n a x
unfolding padded
padded_cons n b a x = ap (λ k. b ∷ (a ++ (replicate k 0 ++ ((255 - k) ∷ x)))) (omega arith)

padded_nil : (n : ℕ) (x : Bytes) → padded n [] x ≡ replicate n 0 ++ ((255 - n) ∷ x)
unfolding padded
padded_nil n x = ap (λ k. replicate k 0 ++ ((255 - k) ∷ x)) (omega arith)

-- Zeros with a low marker are below padded bytes with a higher one.
low_marker :
    (n m : ℕ) (b x y : Bytes)
    → length b ≤ n
    → m < 255 - (n - length b)
    → bytes_geb (replicate n 0 ++ (m ∷ x)) (padded n b y) ≡ false
unfolding bytes_geb
low_marker n m [] x y h low =
    rw (padded_nil n y, geb-prefix (replicate n 0) (m ∷ x) ((255 - n) ∷ y)) (ground arith)
low_marker zero m (d ∷ b) x y h low = absurd (omega arith)
low_marker (suc k) m (d ∷ b) x y h low =
    rw (padded_cons k d b y) (ground (arith, low_marker k m b x y (omega arith) (omega arith)))

high_marker :
    (n m : ℕ) (a x y : Bytes)
    → length a ≤ n
    → m < 255 - (n - length a)
    → bytes_geb (padded n a x) (replicate n 0 ++ (m ∷ y)) ≡ true
unfolding bytes_geb
high_marker n m [] x y h low =
    rw (padded_nil n x, geb-prefix (replicate n 0) ((255 - n) ∷ x) (m ∷ y)) (ground arith)
high_marker zero m (c ∷ a) x y h low = absurd (omega arith)
high_marker (suc k) m (c ∷ a) x y h low =
    rw (padded_cons k c a x) (ground (arith, high_marker k m a x y (omega arith) (omega arith)))

-- Padded bytes are in the order of the bytes; only if these are the same, what follows decides.
pub padded-geb :
    (n : ℕ) (a b x y : Bytes)
    → n ≤ 8
    → length a ≤ n
    → length b ≤ n
    → bytes_geb (padded n a x) (padded n b y)
      ≡ (if bytes_beq a b then bytes_geb x y else bytes_geb a b)
unfolding bytes_geb bytes_beq
padded-geb n [] [] x y s p q =
    rw (padded_nil n x, padded_nil n y, geb-prefix (replicate n 0) ((255 - n) ∷ x) ((255 - n) ∷ y))
      (ground arith)
padded-geb zero [] (d ∷ b) x y s p q = absurd (omega arith)
padded-geb (suc k) [] (d ∷ b) x y s p q =
    rw (padded_nil (suc k) x) (low_marker (suc k) (255 - suc k) (d ∷ b) x y q (omega arith))
padded-geb zero (c ∷ a) b x y s p q = absurd (omega arith)
padded-geb (suc k) (c ∷ a) [] x y s p q =
    rw (padded_nil (suc k) y) (high_marker (suc k) (255 - suc k) (c ∷ a) x y p (omega arith))
padded-geb (suc k) (c ∷ a) (d ∷ b) x y s p q =
    rw (padded_cons k c a x, padded_cons k d b y)
      (ground (arith, padded-geb k a b x y (omega arith) (omega arith) (omega arith)))

-- Two starts of the same length decide before what follows them.
pub geb-append :
    (p q x y : Bytes)
    → length p ≡ length q
    → bytes_geb (p ++ x) (q ++ y) ≡ (if bytes_beq p q then bytes_geb x y else bytes_geb p q)
unfolding bytes_geb bytes_beq
geb-append [] [] x y e = refl
geb-append [] (d ∷ q) x y e = absurd (omega arith)
geb-append (c ∷ p) [] x y e = absurd (omega arith)
geb-append (c ∷ p) (d ∷ q) x y e = ground (arith, geb-append p q x y (omega arith))

pub beq-append :
    (p q x y : Bytes)
    → length p ≡ length q
    → bytes_beq (p ++ x) (q ++ y) ≡ (bytes_beq p q && bytes_beq x y)
unfolding bytes_beq
beq-append [] [] x y e = refl
beq-append [] (d ∷ q) x y e = absurd (omega arith)
beq-append (c ∷ p) [] x y e = absurd (omega arith)
beq-append (c ∷ p) (d ∷ q) x y e = ground (arith, beq-append p q x y (omega arith))

-- What follows a longer start does not count beside shorter bytes.
pub longer :
    (p b x : Bytes)
    → length b < length p
    → (bytes_geb (p ++ x) b ≡ bytes_geb p b)
      × (bytes_beq (p ++ x) b ≡ false)
      × (bytes_beq p b ≡ false)
unfolding bytes_geb bytes_beq
longer [] b x h = absurd (omega arith)
longer (c ∷ p) [] x h = (refl, refl, refl)
longer (c ∷ p) (d ∷ b) x h =
    let (g, e, f) = longer p b x (omega arith) in
    (ground (arith, g), ground (arith, e), ground (arith, f))

pub shorter :
    (a q y : Bytes)
    → length a < length q
    → (bytes_geb a (q ++ y) ≡ bytes_geb a q)
      × (bytes_beq a (q ++ y) ≡ false)
      × (bytes_beq a q ≡ false)
unfolding bytes_geb bytes_beq
shorter a [] y h = absurd (omega arith)
shorter [] (d ∷ q) y h = (refl, refl, refl)
shorter (c ∷ a) (d ∷ q) y h =
    let (g, e, f) = shorter a q y (omega arith) in
    (ground (arith, g), ground (arith, e), ground (arith, f))
