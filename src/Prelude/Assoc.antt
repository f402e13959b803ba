-- ===== src/Prelude/Assoc.antt =====
-- `HashMap` as an association list, in the order in which an iteration meets the entries.
use mathlib.Core.Path.{◌≡◌, refl}
use mathlib.Core.Logic.{◌↔◌, ◌⊎◌}
use mathlib.Core.Bool.{Bool, true}
use mathlib.Core.Option.{Option, none, some}
use mathlib.Core.List.{List, [], ◌∷◌}
use Prim.Native.Nat.{ℕ}
use native.Mathlib.Omega.{arith}
use aegisdb_core.Prelude.Tests.{if◌then◌else◌, ◌==◌, ==_iff}

pub record Eq {ℓ} (A : Type ℓ) : Type ℓ where
  pub beq : A → A → Bool
  pub beq_iff : (a b : A) → (beq a b ≡ true) ↔ (a ≡ b)

abbrev nat_beq : ℕ → ℕ → Bool
nat_beq a b = a == b

instance abbrev pub nat_eq : Eq ℕ
nat_eq = record { beq = nat_beq; beq_iff = ==_iff }

abbrev pub Assoc {ℓ κ} : Type ℓ → Type κ → Type (ℓ ⊔ κ)
Assoc K V = List (K × V)

module _ {ℓ κ} {K : Type ℓ} {V : Type κ} ⦃e : Eq K⦄ where
  -- `HashMap::get`
  unfoldable pub lookup : K → Assoc K V → Option V
  lookup k [] = none
  lookup k ((j, v) ∷ l) = if e.beq j k then some v else lookup k l

  -- `HashMap::insert`
  unfoldable pub insert : K → V → Assoc K V → Assoc K V
  insert k v [] = (k, v) ∷ []
  insert k v ((j, w) ∷ l) = if e.beq j k then (k, v) ∷ l else (j, w) ∷ insert k v l

  -- `HashMap::remove`
  unfoldable pub remove : K → Assoc K V → Assoc K V
  remove k [] = []
  remove k ((j, w) ∷ l) = let rest = remove k l in if e.beq j k then rest else (j, w) ∷ rest

  pub lookup-insert :
      (k j : K) (v : V) (l : Assoc K V)
      → lookup j (insert k v l) ≡ (if e.beq k j then some v else lookup j l)
  unfolding lookup insert
  lookup-insert k j v [] = refl
  lookup-insert k j v ((i, w) ∷ l) =
      ground (arith, e.beq_iff k j, e.beq_iff i k, e.beq_iff i j, lookup-insert k j v l)

  pub lookup-remove :
      (k j : K) (l : Assoc K V) → lookup j (remove k l) ≡ (if e.beq k j then none else lookup j l)
  unfolding lookup remove
  lookup-remove k j [] = ground arith
  lookup-remove k j ((i, w) ∷ l) =
      ground (arith, e.beq_iff k j, e.beq_iff i k, e.beq_iff i j, lookup-remove k j l)

module _ {ℓ κ} {K : Type ℓ} {V : Type κ} ⦃e : Eq K⦄ where
  -- What a lookup after an insertion finds is the new value, or was there before.
  pub lookup-insert_cases :
      (k j : K) (v w : V) (l : Assoc K V)
      → lookup j (insert k v l) ≡ some w
      → ((k ≡ j) × (v ≡ w)) ⊎ (lookup j l ≡ some w)
  lookup-insert_cases k j v w l h = ground (arith, lookup-insert k j v l, e.beq_iff k j)

  pub lookup-remove_left :
      (k j : K) (w : V) (l : Assoc K V) → lookup j (remove k l) ≡ some w → lookup j l ≡ some w
  lookup-remove_left k j w l h = ground (arith, lookup-remove k j l)

module _ {ℓ κ} {K : Type ℓ} {V : Type κ} where
  abbrev pub keys : Assoc K V → List K
  keys [] = []
  keys ((k, v) ∷ l) = k ∷ keys l

  abbrev pub values : Assoc K V → List V
  values [] = []
  values ((k, v) ∷ l) = v ∷ values l

  abbrev pub map_values : (V → V) → Assoc K V → Assoc K V
  map_values f [] = []
  map_values f ((k, v) ∷ l) = (k, f v) ∷ map_values f l
