-- ===== src/Scheduler/Sorting.antt =====
-- `sort_by` of a slice, which is stable, as it stands in src/scheduler/schedulers and src/raftstore.
use aegisdb_core.Prelude.{
  refl, sym, subst, inl, inr, ◌≡◌, ◌⊎◌, Bool, true, false, List, [], ◌∷◌, if◌then◌else◌, Bool-cases,
  All,
}
use mathlib.Core.List.{Memᴰ}

module _ {ℓ} {A : Type ℓ} where
  pub mem_cons : (a x : A) (xs : List A) → Memᴰ a (x ∷ xs) → (a ≡ x) ⊎ Memᴰ a xs
  mem_cons a x xs (Memᴰ.head e) = inl e
  mem_cons a x xs (Memᴰ.tail m) = inr m

  pub all_mem : (P : A → Type 0) (l : List A) (t : A) → All P l → Memᴰ t l → P t
  all_mem P [] t all m = elim m [ ]
  all_mem P (x ∷ l) t (p, all) (Memᴰ.head e) = subst P (sym e) p
  all_mem P (x ∷ l) t (p, all) (Memᴰ.tail m) = all_mem P l t all m

  swapped : (a x y : A) (ys : List A) → Memᴰ a (x ∷ ys) → Memᴰ a (x ∷ y ∷ ys)
  swapped a x y ys (Memᴰ.head e) = Memᴰ.head e
  swapped a x y ys (Memᴰ.tail m) = Memᴰ.tail (Memᴰ.tail m)

  sorted_first :
      (a x : A) (xs : List A) {ys : List A}
      → (Memᴰ a ys → Memᴰ a xs)
      → Memᴰ a (x ∷ ys)
      → Memᴰ a (x ∷ xs)
  sorted_first a x xs more (Memᴰ.head e) = Memᴰ.head e
  sorted_first a x xs more (Memᴰ.tail m) = Memᴰ.tail (more m)

module _ {ℓ} {A : Type ℓ} (stays : A → A → Bool) where
  -- `stays x y`: `x` need not move behind `y`.
  pub insert_by : A → List A → List A
  insert_by x [] = x ∷ []
  insert_by x (y ∷ ys) = let rest = insert_by x ys in if stays x y then x ∷ y ∷ ys else y ∷ rest

  unfoldable pub sort_by : List A → List A
  unfolding insert_by
  sort_by [] = []
  sort_by (x ∷ xs) = insert_by x (sort_by xs)

  behind :
      (a x y : A) (ys : List A)
      → (Memᴰ a (insert_by x ys) → Memᴰ a (x ∷ ys))
      → Memᴰ a (y ∷ insert_by x ys)
      → Memᴰ a (x ∷ y ∷ ys)
  behind a x y ys more (Memᴰ.head e) = Memᴰ.tail (Memᴰ.head e)
  behind a x y ys more (Memᴰ.tail m) = swapped a x y ys (more m)

  mem-insert_by : (a x : A) (ys : List A) → Memᴰ a (insert_by x ys) → Memᴰ a (x ∷ ys)
  unfolding insert_by
  mem-insert_by a x [] m = m
  mem-insert_by a x (y ∷ ys) m = elim (Bool-cases (stays x y)) [
    | inl first ↦ subst (Memᴰ a) (rw first refl) m
    | inr later ↦ behind a x y ys (mem-insert_by a x ys) (subst (Memᴰ a) (rw later refl) m)
  ]

  pub mem-sort_by : (a : A) (xs : List A) → Memᴰ a (sort_by xs) → Memᴰ a xs
  unfolding sort_by
  mem-sort_by a [] m = m
  mem-sort_by a (x ∷ xs) m =
      sorted_first a x xs (mem-sort_by a xs) (mem-insert_by a x (sort_by xs) m)

  first_of : (x y : A) (ys : List A) → Memᴰ x (x ∷ y ∷ ys)
  first_of x y ys = Memᴰ.head refl

  insert_by-first : (x : A) (ys : List A) → Memᴰ x (insert_by x ys)
  unfolding insert_by
  insert_by-first x [] = Memᴰ.head refl
  insert_by-first x (y ∷ ys) = elim (Bool-cases (stays x y)) [
    | inl first ↦ subst (Memᴰ x) (rw first refl) (first_of x y ys)
    | inr later ↦ subst (Memᴰ x) (rw later refl) (Memᴰ.tail {x = y} (insert_by-first x ys))
  ]

  insert_by-rest : (a x : A) (ys : List A) → Memᴰ a ys → Memᴰ a (insert_by x ys)
  unfolding insert_by
  insert_by-rest a x [] m = elim m [ ]
  insert_by-rest a x (y ∷ ys) m = elim (Bool-cases (stays x y)) [
    | inl first ↦ subst (Memᴰ a) (rw first refl) (Memᴰ.tail {x = x} m)
    | inr later ↦
        subst (Memᴰ a) (rw later refl)
          (sorted_first a y (insert_by x ys) {ys = ys} (insert_by-rest a x ys) m)
  ]

  -- Sorting loses nothing.
  pub sort_by-mem : (a : A) (xs : List A) → Memᴰ a xs → Memᴰ a (sort_by xs)
  unfolding sort_by
  sort_by-mem a [] m = elim m [ ]
  sort_by-mem a (x ∷ xs) (Memᴰ.head e) =
      subst (λ t. Memᴰ t (insert_by x (sort_by xs))) (sym e) (insert_by-first x (sort_by xs))
  sort_by-mem a (x ∷ xs) (Memᴰ.tail m) = insert_by-rest a x (sort_by xs) (sort_by-mem a xs m)

  -- No item stands behind one that should not stay in front of it.
  abbrev pub IsSorted : List A → Type 0
  IsSorted [] = Unit
  IsSorted (x ∷ xs) = All (λ y. stays x y ≡ true) xs × IsSorted xs

  All-insert_by : (P : A → Type 0) (x : A) (ys : List A) → P x → All P ys → All P (insert_by x ys)
  unfolding insert_by
  All-insert_by P x [] p all = (p, all)
  All-insert_by P x (y ∷ ys) p (q, all) = elim (Bool-cases (stays x y)) [
    | inl first ↦ rw first (p, (q, all))
    | inr later ↦ rw later (q, All-insert_by P x ys p all)
  ]

  module _ (total : (x y : A) → stays x y ≡ false → stays y x ≡ true)
      (trans : (x y z : A) → stays x y ≡ true → stays y z ≡ true → stays x z ≡ true) where
    All-trans :
        (x y : A) (ys : List A)
        → stays x y ≡ true
        → All (λ z. stays y z ≡ true) ys
        → All (λ z. stays x z ≡ true) ys
    All-trans x y [] p all = all
    All-trans x y (z ∷ zs) p (q, all) = (trans x y z p q, All-trans x y zs p all)

    insert_by-IsSorted : (x : A) (ys : List A) → IsSorted ys → IsSorted (insert_by x ys)
    unfolding insert_by
    insert_by-IsSorted x [] s = (tt, tt)
    insert_by-IsSorted x (y ∷ ys) (all, s) = elim (Bool-cases (stays x y)) [
      | inl first ↦ rw first ((first, All-trans x y ys first all), (all, s))
      | inr later ↦ rw later (
        All-insert_by (λ z. stays y z ≡ true) x ys (total x y later) all,
        insert_by-IsSorted x ys s,
      )
    ]

    pub sort_by-IsSorted : (xs : List A) → IsSorted (sort_by xs)
    unfolding sort_by
    sort_by-IsSorted [] = tt
    sort_by-IsSorted (x ∷ xs) = insert_by-IsSorted x (sort_by xs) (sort_by-IsSorted xs)
