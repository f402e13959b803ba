-- ===== src/Scheduler/Filter.antt =====
-- src/scheduler/filter/filters.rs: which stores an operator may take from and give to.
use aegisdb_core.Prelude.{
  ℕ, ◌≡◌, refl, ap, ◌∙◌, subst, inl, inr, Bool, true, false, not, ◌&&◌, ◌||◌, List, [], ◌∷◌, ltb,
  if◌then◌else◌, Bool-cases,
}
use mathlib.Core.List.{Memᴰ}
use aegisdb_core.Scheduler.Store.{StoreInfo, is_up, down_time}

-- The trait `Filter`: each test says that a store is left out.
pub record Filter : Type 0 where
  pub source : StoreInfo → Bool
  pub target : StoreInfo → Bool

-- The store is not up, blocked, or has not been heard of for too long.
abbrev pub is_out : ℕ → ℕ → StoreInfo → Bool
is_out now max_down_time s = not (is_up s) || s.blocked || ltb max_down_time (down_time now s)

abbrev pub state_filter : ℕ → ℕ → Filter
state_filter now max_down_time = record {
  source = is_out now max_down_time;
  target = is_out now max_down_time;
}

-- `filters.iter().all(|filter| !filter.source(store))`, and so for `target`
abbrev pub may_give : List Filter → StoreInfo → Bool
may_give [] s = true
may_give (f ∷ fs) s = not (f.source s) && may_give fs s

abbrev pub may_take : List Filter → StoreInfo → Bool
may_take [] s = true
may_take (f ∷ fs) s = not (f.target s) && may_take fs s

keep : (StoreInfo → Bool) → List StoreInfo → List StoreInfo
keep f [] = []
keep f (s ∷ ss) = let rest = keep f ss in if f s then s ∷ rest else rest

unfoldable pub select_source_stores : List StoreInfo → List Filter → List StoreInfo
unfolding keep
select_source_stores stores filters = keep (may_give filters) stores

unfoldable pub select_target_stores : List StoreInfo → List Filter → List StoreInfo
unfolding keep
select_target_stores stores filters = keep (may_take filters) stores

not_out : (b : Bool) → (not b && true) ≡ true → b ≡ false
not_out true h = cc h
not_out false h = refl

keep_first :
    (f : StoreInfo → Bool) (x s : StoreInfo) (ss : List StoreInfo)
    → (Memᴰ x (keep f ss) → Memᴰ x ss × (f x ≡ true))
    → f s ≡ true
    → Memᴰ x (s ∷ keep f ss)
    → Memᴰ x (s ∷ ss) × (f x ≡ true)
keep_first f x s ss more good (Memᴰ.head e) = (Memᴰ.head e, ap f e ∙ good)
keep_first f x s ss more good (Memᴰ.tail m) = let (i, h) = more m in (Memᴰ.tail i, h)

keep_lem :
    (f : StoreInfo → Bool) (x : StoreInfo) (ss : List StoreInfo)
    → Memᴰ x (keep f ss)
    → Memᴰ x ss × (f x ≡ true)
unfolding keep
keep_lem f x [] m = elim m [ ]
keep_lem f x (s ∷ ss) m = elim (Bool-cases (f s)) [
  | inr out ↦ let (i, h) = keep_lem f x ss (subst (Memᴰ x) (rw out refl) m) in (Memᴰ.tail i, h)
  | inl good ↦ keep_first f x s ss (keep_lem f x ss) good (subst (Memᴰ x) (rw good refl) m)
]

-- A source is one of the stores and up, not blocked, and heard of in time; so is a target.
pub source_lem :
    (now max_down_time : ℕ) (x : StoreInfo) (ss : List StoreInfo)
    → Memᴰ x (select_source_stores ss (state_filter now max_down_time ∷ []))
    → Memᴰ x ss × (is_out now max_down_time x ≡ false)
unfolding select_source_stores
source_lem now max_down_time x ss m =
    let (i, h) = keep_lem (may_give (state_filter now max_down_time ∷ [])) x ss m in
    (i, not_out (is_out now max_down_time x) h)

pub target_lem :
    (now max_down_time : ℕ) (x : StoreInfo) (ss : List StoreInfo)
    → Memᴰ x (select_target_stores ss (state_filter now max_down_time ∷ []))
    → Memᴰ x ss × (is_out now max_down_time x ≡ false)
unfolding select_target_stores
target_lem now max_down_time x ss m =
    let (i, h) = keep_lem (may_take (state_filter now max_down_time ∷ [])) x ss m in
    (i, not_out (is_out now max_down_time x) h)
