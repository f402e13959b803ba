-- ===== src/RaftStore/StoreMeta/Indexed.antt =====
-- src/raftstore/store_meta.rs: storing and removing regions keep the list of starts in step.
use aegisdb_core.Prelude.{
  ℕ, ◌≡◌, ◌≢◌, ◌⊎◌, refl, sym, ap, subst, inl, inr, true, false, List, [], ◌∷◌, ◌++◌, some,
  if◌then◌else◌, Bool-cases, arith, ◌==◌, ◌∙◌, All,
}
use aegisdb_core.Prelude.Assoc.{lookup, nat_eq, lookup-insert, lookup-remove}
use aegisdb_core.Prelude.Order.{geb_total, geb_trans}
use aegisdb_core.RaftStore.Range.{key_in_region, IsInhabited, AreDisjoint}
use aegisdb_core.RaftStore.StoreMeta.{
  Start, StoreMeta, new_store_meta, retain_others, starts_before, set_region, remove_region,
}
use aegisdb_core.RaftStore.StoreMeta.Find.{IsIndexed}
use aegisdb_core.Scheduler.Region.{Region}
use aegisdb_core.Scheduler.Sorting.{
  mem_cons, sort_by, mem-sort_by, sort_by-mem, IsSorted, sort_by-IsSorted,
}
use mathlib.Core.List.{Memᴰ}

AreDisjoint-sym : (q r : Region) → AreDisjoint q r → AreDisjoint r q
AreDisjoint-sym q r h key in_r = elim (Bool-cases (key_in_region key q)) [
  | inl in_q ↦ absurd (let f = h key in_q in cc)
  | inr out ↦ out
]

mem-append_left : (s : Start) (l t : List Start) → Memᴰ s l → Memᴰ s (l ++ t)
mem-append_left s [] t m = elim m [ ]
mem-append_left s (x ∷ l) t (Memᴰ.head e) = Memᴰ.head e
mem-append_left s (x ∷ l) t (Memᴰ.tail m) = Memᴰ.tail (mem-append_left s l t m)

mem_last : (s : Start) (l : List Start) → Memᴰ s (l ++ (s ∷ []))
mem_last s [] = Memᴰ.head refl
mem_last s (x ∷ l) = Memᴰ.tail (mem_last s l)

mem-append_one : (s t : Start) (l : List Start) → Memᴰ s (l ++ (t ∷ [])) → Memᴰ s l ⊎ (s ≡ t)
mem-append_one s t [] (Memᴰ.head e) = inr e
mem-append_one s t [] (Memᴰ.tail m) = elim m [ ]
mem-append_one s t (x ∷ l) (Memᴰ.head e) = inl (Memᴰ.head e)
mem-append_one s t (x ∷ l) (Memᴰ.tail m) = elim (mem-append_one s t l m) [
  | inl n ↦ inl (Memᴰ.tail n)
  | inr e ↦ inr e
]

-- What is retained was in the list and belongs to another region.
mem-retain_others :
    (id : ℕ) (s : Start) (l : List Start) → Memᴰ s (retain_others id l) → Memᴰ s l × (id ≢ s.1)
unfolding retain_others
mem-retain_others id s [] m = elim m [ ]
mem-retain_others id s ((start, other) ∷ l) m = elim (Bool-cases (other == id)) [
  | inl mine ↦
      let found = mem-retain_others id s l (subst (Memᴰ s) (rw mine refl) m) in
      (Memᴰ.tail found.0, found.1)
  | inr his ↦ elim (mem_cons s (start, other) _ (subst (Memᴰ s) (rw his refl) m)) [
    | inl e ↦ (Memᴰ.head e, λ p. ground (arith, ap (λ (t : Start). t.1) e))
    | inr n ↦ (Memᴰ.tail (mem-retain_others id s l n).0, (mem-retain_others id s l n).1)
  ]
]

retain_others-mem :
    (id : ℕ) (s : Start) (l : List Start) → Memᴰ s l → id ≢ s.1 → Memᴰ s (retain_others id l)
unfolding retain_others
retain_others-mem id s [] m other = elim m [ ]
retain_others-mem id s ((start, o) ∷ l) m other = elim (mem_cons s (start, o) l m) [
  | inl e ↦
      let kept : (o == id) ≡ false = ground (arith, ap (λ (t : Start). t.1) e) in
      rw kept (Memᴰ.head e)
  | inr n ↦ elim (Bool-cases (o == id)) [
    | inl mine ↦ rw mine (retain_others-mem id s l n other)
    | inr his ↦ rw his (Memᴰ.tail (retain_others-mem id s l n other))
  ]
]

sort-IsSorted : (l : List Start) → IsSorted starts_before (sort_by starts_before l)
sort-IsSorted =
    sort_by-IsSorted starts_before (λ x y. geb_total y.0 x.0)
      (λ x y z p q. geb_trans z.0 y.0 x.0 q p)

new_ranges : Region → StoreMeta → List Start
new_ranges r m = retain_others r.id m.region_ranges ++ ((r.start_key, r.id) ∷ [])

mem-new_ranges :
    (r : Region) (m : StoreMeta) (s : Start)
    → Memᴰ s (set_region r m).region_ranges
    → (Memᴰ s m.region_ranges × (r.id ≢ s.1)) ⊎ (s ≡ (r.start_key, r.id))
unfolding set_region new_ranges
mem-new_ranges r m s h =
    elim (mem-append_one s (r.start_key, r.id) (retain_others r.id m.region_ranges)
      (mem-sort_by starts_before s (new_ranges r m) h)) [
        | inl old ↦ inl (mem-retain_others r.id s m.region_ranges old)
        | inr new ↦ inr new
      ]

set_region-own :
    (r : Region) (m : StoreMeta) → Memᴰ (r.start_key, r.id) (set_region r m).region_ranges
unfolding set_region new_ranges
set_region-own r m =
    sort_by-mem starts_before (r.start_key, r.id) (new_ranges r m)
      (mem_last (r.start_key, r.id) (retain_others r.id m.region_ranges))

set_region-kept :
    (r : Region) (m : StoreMeta) (s : Start)
    → Memᴰ s m.region_ranges
    → r.id ≢ s.1
    → Memᴰ s (set_region r m).region_ranges
unfolding set_region new_ranges
set_region-kept r m s h other = sort_by-mem starts_before s (new_ranges r m) (
    mem-append_left s (retain_others r.id m.region_ranges) ((r.start_key, r.id) ∷ [])
      (retain_others-mem r.id s m.region_ranges h other))

-- A stored region after `set_region` is the one set, or another that was stored before.
pub set_region_cases :
    (r q : Region) (m : StoreMeta) (id : ℕ)
    → lookup id (set_region r m).regions ≡ some q
    → ((r.id ≡ id) × (r ≡ q)) ⊎ ((r.id ≢ id) × (lookup id m.regions ≡ some q))
unfolding set_region
set_region_cases r q m id h = ground (arith, lookup-insert r.id id r m.regions)

pub set_region-lookup :
    (r : Region) (m : StoreMeta) (id : ℕ)
    → lookup id (set_region r m).regions ≡ (if r.id == id then some r else lookup id m.regions)
unfolding set_region
set_region-lookup r m id = lookup-insert r.id id r m.regions

module _ (r : Region) (m : StoreMeta) (h : IsIndexed m) where
  set_listed :
      (id : ℕ) (q : Region)
      → lookup id (set_region r m).regions ≡ some q
      → Memᴰ (q.start_key, id) (set_region r m).region_ranges
  set_listed id q e = elim (set_region_cases r q m id e) [
    | inl (mine, is_new) ↦
        subst (λ (t : Start). Memᴰ t (set_region r m).region_ranges)
          (λ i. ((is_new i).start_key, mine i)) (set_region-own r m)
    | inr (his, old) ↦ set_region-kept r m (q.start_key, id) (h.listed id q old) his
  ]

  set_stored :
      (s : Start)
      → Memᴰ s (set_region r m).region_ranges
      → (q : Region) × (lookup s.1 (set_region r m).regions ≡ some q) × (q.start_key ≡ s.0)
  set_stored s found = elim (mem-new_ranges r m s found) [
    | inl (old, other) ↦
        let (q, there, start) = h.stored s old in
        (q, ground (arith, set_region-lookup r m s.1, there), start)
    | inr e ↦
        let own : s.1 ≡ r.id = ap (λ (t : Start). t.1) e in
        (r, ground (arith, set_region-lookup r m s.1), sym (ap (λ (t : Start). t.0) e))
  ]

  set_disjoint :
      ((id : ℕ) (q : Region) → r.id ≢ id → lookup id m.regions ≡ some q → AreDisjoint r q)
      → (id other : ℕ) (p q : Region) → id ≢ other
      → lookup id (set_region r m).regions ≡ some p
      → lookup other (set_region r m).regions ≡ some q
      → AreDisjoint p q
  set_disjoint apart id other p q ne e f = elim (set_region_cases r p m id e) [
    | inl (mine, p_new) ↦ elim (set_region_cases r q m other f) [
      | inl (mine_too, q_new) ↦ absurd (ne (sym mine ∙ mine_too))
      | inr (his, old) ↦ subst (λ t. AreDisjoint t q) p_new (apart other q his old)
    ]
    | inr (his, old) ↦ elim (set_region_cases r q m other f) [
      | inl (mine, q_new) ↦
          subst (λ t. AreDisjoint p t) q_new (AreDisjoint-sym r p (apart id p his old))
      | inr (his_too, old_too) ↦ h.disjoint id other p q ne old old_too
    ]
  ]

  -- Setting a region that has a key and shares none with the other regions keeps the store indexed.
  pub set_region-IsIndexed :
      IsInhabited r
      → ((id : ℕ) (q : Region) → r.id ≢ id → lookup id m.regions ≡ some q → AreDisjoint r q)
      → IsIndexed (set_region r m)
  set_region-IsIndexed inhabited apart = record {
    own_id = λ id q e. elim (set_region_cases r q m id e) [
      | inl (mine, is_new) ↦ subst (λ t. t.id ≡ id) is_new mine
      | inr (his, old) ↦ h.own_id id q old
    ];
    listed = set_listed;
    stored = set_stored;
    sorted =
        unfold set_region in
        sort-IsSorted (retain_others r.id m.region_ranges ++ ((r.start_key, r.id) ∷ []));
    inhabited = λ id q e. elim (set_region_cases r q m id e) [
      | inl (mine, is_new) ↦ subst (λ t. IsInhabited t) is_new inhabited
      | inr (his, old) ↦ h.inhabited id q old
    ];
    disjoint = set_disjoint apart;
  }

-- The empty store is indexed.
pub new_store_meta-IsIndexed : IsIndexed new_store_meta
unfolding lookup
new_store_meta-IsIndexed = record {
  own_id = λ id r e. cc;
  listed = λ id r e. cc;
  stored = λ s m. elim m [ ];
  sorted = tt;
  inhabited = λ id r e. cc;
  disjoint = λ id other r q ne e f. cc;
}

remove-lookup :
    (gone id : ℕ) (r : Region) (m : StoreMeta)
    → lookup id (remove_region gone m).regions ≡ some r
    → (gone ≢ id) × (lookup id m.regions ≡ some r)
unfolding remove_region
remove-lookup gone id r m e = ground (arith, lookup-remove gone id m.regions)

retain-All : (P : Start → Type 0) (id : ℕ) (l : List Start) → All P l → All P (retain_others id l)
unfolding retain_others
retain-All P id [] all = all
retain-All P id ((s, o) ∷ l) (p, all) = elim (Bool-cases (o == id)) [
  | inl mine ↦ rw mine (retain-All P id l all)
  | inr his ↦ rw his (p, retain-All P id l all)
]

retain-IsSorted :
    (id : ℕ) (l : List Start)
    → IsSorted starts_before l
    → IsSorted starts_before (retain_others id l)
unfolding retain_others
retain-IsSorted id [] srt = srt
retain-IsSorted id ((s, o) ∷ l) (all, srt) = elim (Bool-cases (o == id)) [
  | inl mine ↦ rw mine (retain-IsSorted id l srt)
  | inr his ↦
      rw his (retain-All (λ t. starts_before (s, o) t ≡ true) id l all, retain-IsSorted id l srt)
]

-- Removing a region keeps the store indexed.
pub remove_region-IsIndexed :
    (gone : ℕ) (m : StoreMeta) → IsIndexed m → IsIndexed (remove_region gone m)
remove_region-IsIndexed gone m h = record {
  own_id = λ id r e. h.own_id id r (remove-lookup gone id r m e).1;
  listed = λ id r e.
      let (other, old) = remove-lookup gone id r m e in
      unfold remove_region in
      retain_others-mem gone (r.start_key, id) m.region_ranges (h.listed id r old) other;
  stored = λ s found.
      let (old, other) = mem-retain_others gone s m.region_ranges (unfold remove_region in found) in
      let (r, there, start) = h.stored s old in
      (r, unfold remove_region in ground (arith, lookup-remove gone s.1 m.regions, there), start);
  sorted = unfold remove_region in retain-IsSorted gone m.region_ranges h.sorted;
  inhabited = λ id r e. h.inhabited id r (remove-lookup gone id r m e).1;
  disjoint = λ id other r q ne e f.
      h.disjoint id other r q ne (remove-lookup gone id r m e).1 (remove-lookup gone other q m f).1;
}
