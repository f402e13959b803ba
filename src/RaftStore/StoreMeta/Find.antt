-- ===== src/RaftStore/StoreMeta/Find.antt =====
-- src/raftstore/store_meta.rs: a key finds the region that holds it.
use aegisdb_core.Prelude.{
  ℕ, ◌≡◌, ◌≢◌, refl, sym, subst, inl, inr, Bool, true, false, List, [], ◌∷◌, Option, none, some,
  ◌↔◌, if◌then◌else◌, Bool-cases, Option-cases, All, arith, ◌==◌, ==_iff,
}
use aegisdb_core.Prelude.Assoc.{lookup, nat_eq}
use aegisdb_core.Prelude.Bytes.{Bytes}
use aegisdb_core.Prelude.Order.{bytes_geb, geb_refl}
use aegisdb_core.RaftStore.Range.{
  key_in_region, IsInhabited, AreDisjoint, in_region-start, in_region_between,
}
use aegisdb_core.RaftStore.StoreMeta.{
  Start, StoreMeta, starts_before, last_start, find_region_by_key, found_at,
}
use aegisdb_core.Scheduler.Region.{Region}
use aegisdb_core.Scheduler.Sorting.{IsSorted, all_mem}
use mathlib.Core.List.{Memᴰ}

-- The list of starts belongs to the map of regions; no region is empty and no two share a key.
pub record IsIndexed (m : StoreMeta) : Type 0 where
  pub own_id : (id : ℕ) (r : Region) → lookup id m.regions ≡ some r → r.id ≡ id
  pub listed :
      (id : ℕ) (r : Region) → lookup id m.regions ≡ some r → Memᴰ (r.start_key, id) m.region_ranges
  pub stored :
      (s : Start)
      → Memᴰ s m.region_ranges
      → (r : Region) × (lookup s.1 m.regions ≡ some r) × (r.start_key ≡ s.0)
  pub sorted : IsSorted starts_before m.region_ranges
  pub inhabited : (id : ℕ) (r : Region) → lookup id m.regions ≡ some r → IsInhabited r
  pub disjoint :
      (id other : ℕ) (r q : Region)
      → id ≢ other
      → lookup id m.regions ≡ some r
      → lookup other m.regions ≡ some q
      → AreDisjoint r q

-- What `last_start` finds is in the list, not above the key, and above every such start.
pub record IsLast (key : Bytes) (l : List Start) (s : Start) : Type 0 where
  pub member : Memᴰ s l
  pub reached : bytes_geb key s.0 ≡ true
  pub highest : (t : Start) → Memᴰ t l → bytes_geb key t.0 ≡ true → bytes_geb s.0 t.0 ≡ true

abbrev Last : Bytes → List Start → Option Start → Type 0
Last key l none = (t : Start) → Memᴰ t l → bytes_geb key t.0 ≡ false
Last key l (some s) = IsLast key l s

abbrev next_last : Bytes → Start → Option Start → Option Start
next_last key s o = elim o [
  | some found ↦ some found
  | none ↦ if bytes_geb key s.0 then some s else none
]

next-Last-none :
    (key : Bytes) (s : Start) (l : List Start)
    → All (λ t. starts_before s t ≡ true) l
    → Last key l none
    → (b : Bool) → bytes_geb key s.0 ≡ b
    → Last key (s ∷ l) (if b then some s else none)
next-Last-none key s l all h true e = record {
  member = Memᴰ.head refl;
  reached = e;
  highest = λ t m below. elim m [
    | Memᴰ.head p ↦ subst (λ u. bytes_geb s.0 u.0 ≡ true) (sym p) (geb_refl s.0)
    | Memᴰ.tail n ↦ absurd (let f = h t n in cc)
  ];
}
next-Last-none key s l all h false e = λ t m. elim m [
  | Memᴰ.head p ↦ subst (λ u. bytes_geb key u.0 ≡ false) (sym p) e
  | Memᴰ.tail n ↦ h t n
]

next_last-Last :
    (key : Bytes) (s : Start) (l : List Start)
    → All (λ t. starts_before s t ≡ true) l
    → (o : Option Start) → Last key l o
    → Last key (s ∷ l) (next_last key s o)
next_last-Last key s l all none h = next-Last-none key s l all h (bytes_geb key s.0) refl
next_last-Last key s l all (some f) h = record {
  member = Memᴰ.tail h.member;
  reached = h.reached;
  highest = λ t m below. elim m [
    | Memᴰ.head p ↦
        subst (λ u. bytes_geb f.0 u.0 ≡ true) (sym p)
          (all_mem (λ u. starts_before s u ≡ true) l f all h.member)
    | Memᴰ.tail n ↦ h.highest t n below
  ];
}

last_start-Last :
    (key : Bytes) (l : List Start) → IsSorted starts_before l → Last key l (last_start key l)
unfolding last_start
last_start-Last key [] srt = λ t m. elim m [ ]
last_start-Last key ((start, id) ∷ l) (all, srt) =
    next_last-Last key (start, id) l all (last_start key l) (last_start-Last key l srt)

-- A region found is stored under its id and holds the key.
found_at_sound :
    (m : StoreMeta) (key : Bytes) (r : Region) (o : Option Start)
    → IsIndexed m
    → found_at key o m ≡ some r
    → (lookup r.id m.regions ≡ some r) × (key_in_region key r ≡ true)
found_at_sound m key r none h e = cc
found_at_sound m key r (some s) h e = elim (Option-cases (lookup s.1 m.regions)) [
  | inl missing ↦ absurd (ground (arith, missing))
  | inr (q, there) ↦
      let same : q ≡ r = ground (arith, there) in
      let holds : key_in_region key q ≡ true = ground (arith, there) in
      let own = h.own_id s.1 q there in
      (
        subst (λ t. lookup t.id m.regions ≡ some t) same
            (subst (λ i. lookup i m.regions ≡ some q) (sym own) there),
        subst (λ t. key_in_region key t ≡ true) same holds,
      )
]

same_region :
    (m : StoreMeta) (key : Bytes) (r q : Region) (s : Start)
    → IsIndexed m
    → lookup r.id m.regions ≡ some r
    → key_in_region key r ≡ true
    → IsLast key m.region_ranges s
    → lookup s.1 m.regions ≡ some q
    → q.start_key ≡ s.0
    → r.id ≡ s.1
same_region m key r q s h there holds last found start = elim (Bool-cases (r.id == s.1)) [
  | inl same ↦ (==_iff r.id s.1).0 same
  | inr other ↦ absurd (
      let apart : r.id ≢ s.1 = λ e. ground (arith, e, other) in
      let above =
        last.highest (r.start_key, r.id) (h.listed r.id r there) (in_region-start key r holds) in
      let mine = in_region_between s.0 key r holds last.reached above in
      let not_his = h.disjoint r.id s.1 r q apart there found s.0 mine in
      let his = subst (λ k. key_in_region k q ≡ true) start (h.inhabited s.1 q found) in cc)
]

found_at_complete :
    (m : StoreMeta) (key : Bytes) (r : Region) (o : Option Start)
    → IsIndexed m
    → Last key m.region_ranges o
    → lookup r.id m.regions ≡ some r
    → key_in_region key r ≡ true
    → found_at key o m ≡ some r
found_at_complete m key r none h last there holds = absurd (
    let below = last (r.start_key, r.id) (h.listed r.id r there) in
    let above = in_region-start key r holds in cc)
found_at_complete m key r (some s) h last there holds =
    let (q, found, start) = h.stored s last.member in
    let same = same_region m key r q s h there holds last found start in
    rw (← same, there, holds) refl

-- In an indexed store a key finds exactly the stored region whose range holds the key.
pub find_region_lem :
    (m : StoreMeta) (key : Bytes) (r : Region)
    → IsIndexed m
    → (find_region_by_key key m ≡ some r)
      ↔ ((lookup r.id m.regions ≡ some r) × (key_in_region key r ≡ true))
unfolding find_region_by_key
find_region_lem m key r h = (
  found_at_sound m key r (last_start key m.region_ranges) h,
  λ p.
      found_at_complete m key r (last_start key m.region_ranges) h
        (last_start-Last key m.region_ranges h.sorted) p.0 p.1,
)
