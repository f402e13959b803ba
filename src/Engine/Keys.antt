-- ===== src/Engine/Keys.antt =====
-- src/engine_util/util.rs: when keys of different column families differ.
use aegisdb_core.Prelude.{ℕ, ◌≡◌, ◌≢◌, refl, [], ◌∷◌, ◌++◌, arith, All}
use aegisdb_core.Prelude.Bytes.{Bytes}
use aegisdb_core.Engine.{key_with_cf}
use aegisdb_core.Mvcc.Txn.{Cf, default}

-- A name without the separator.
abbrev pub IsPlain : ℕ → Bytes → Type 0
IsPlain separator = All (λ b. b ≢ separator)

-- Two names without the separator, each with the separator and a key behind it, agree only where name
-- and key do.
pub joined-inj :
    (separator : ℕ) (name other key key' : Bytes)
    → IsPlain separator name
    → IsPlain separator other
    → name ++ (separator ∷ key) ≡ other ++ (separator ∷ key')
    → (name ≡ other) × (key ≡ key')
joined-inj sep [] [] key key' p q e = (refl, cc)
joined-inj sep [] (y ∷ ys) key key' p (ne, q) e = absurd (ne (cc))
joined-inj sep (x ∷ xs) [] key key' (ne, p) q e = absurd (ne (cc))
joined-inj sep (x ∷ xs) (y ∷ ys) key key' (ne, p) (ne', q) e =
    let (same, rest) = joined-inj sep xs ys key key' p q (cc) in (cc, rest)

-- A name of a column family with neither of the separators of the two kinds of keys.
abbrev pub IsFamily : Cf → Type 0
IsFamily cf = IsPlain b'_' cf × IsPlain b':' cf

pub default-IsFamily : IsFamily default
unfolding default
default-IsFamily = omega arith

-- No two keys of such column families share an encoded key.
pub key_with_cf-inj :
    (cf other : Cf) (key key' : Bytes)
    → IsFamily cf
    → IsFamily other
    → key_with_cf cf key ≡ key_with_cf other key'
    → (cf ≡ other) × (key ≡ key')
key_with_cf-inj cf other key key' f g e = joined-inj b'_' cf other key key' f.0 g.0 e

-- Nor do two texts share a key of the cache.
pub colon-inj :
    (cf other : Cf) (text text' : Bytes)
    → IsFamily cf
    → IsFamily other
    → cf ++ (b':' ∷ text) ≡ other ++ (b':' ∷ text')
    → (cf ≡ other) × (text ≡ text')
colon-inj cf other text text' f g e = joined-inj b':' cf other text text' f.1 g.1 e
