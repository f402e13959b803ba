-- ===== src/Prelude/Order.antt =====
-- The order of byte strings, `Ord` of `[u8]`: lexicographic, a prefix before what extends it.
use mathlib.Core.Path.{◌≡◌, refl}
use mathlib.Core.Bool.{Bool, true, false}
use mathlib.Core.List.{[], ◌∷◌, ◌++◌}
use native.Mathlib.Omega.{arith}
use aegisdb_core.Prelude.Tests.{ltb, ◌==◌, if◌then◌else◌}
use aegisdb_core.Prelude.Bytes.{Bytes}

-- `a >= b`
unfoldable pub bytes_geb : Bytes → Bytes → Bool
bytes_geb a [] = true
bytes_geb [] (y ∷ ys) = false
bytes_geb (x ∷ xs) (y ∷ ys) =
    let rest = bytes_geb xs ys in if ltb y x then true else if x == y then rest else false

pub geb_refl : (a : Bytes) → bytes_geb a a ≡ true
unfolding bytes_geb
geb_refl [] = refl
geb_refl (x ∷ xs) = ground (arith, geb_refl xs)

pub geb_trans : (a b c : Bytes) → bytes_geb a b ≡ true → bytes_geb b c ≡ true → bytes_geb a c ≡ true
unfolding bytes_geb
geb_trans a b [] p q = refl
geb_trans a [] (z ∷ zs) p q = cc
geb_trans [] (y ∷ ys) (z ∷ zs) p q = cc
geb_trans (x ∷ xs) (y ∷ ys) (z ∷ zs) p q = ground (arith, geb_trans xs ys zs)

pub geb_total : (a b : Bytes) → bytes_geb a b ≡ false → bytes_geb b a ≡ true
unfolding bytes_geb
geb_total [] [] p = refl
geb_total a [] p = cc
geb_total [] (y ∷ ys) p = refl
geb_total (x ∷ xs) (y ∷ ys) p = ground (arith, geb_total xs ys)

pub geb_antisym : (a b : Bytes) → bytes_geb a b ≡ true → bytes_geb b a ≡ true → a ≡ b
unfolding bytes_geb
geb_antisym [] [] p q = refl
geb_antisym [] (y ∷ ys) p q = cc
geb_antisym (x ∷ xs) [] p q = cc
geb_antisym (x ∷ xs) (y ∷ ys) p q = ground (arith, geb_antisym xs ys)

-- What is below the one is below what is above it.
pub geb_below :
    (a b c : Bytes) → bytes_geb a b ≡ true → bytes_geb a c ≡ false → bytes_geb b c ≡ false
geb_below a b c p q = ground (arith, geb_trans a b c)

-- A common start does not count.
pub geb-prefix : (p x y : Bytes) → bytes_geb (p ++ x) (p ++ y) ≡ bytes_geb x y
unfolding bytes_geb
geb-prefix [] x y = refl
geb-prefix (c ∷ p) x y = ground (arith, geb-prefix p x y)
