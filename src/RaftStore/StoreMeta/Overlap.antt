-- ===== src/RaftStore/StoreMeta/Overlap.antt =====
-- src/raftstore/store_meta.rs: the regions that overlap a region.
use aegisdb_core.Prelude.{
  ◌≡◌, ◌↔◌, ◌⊎◌, refl, some, sym, subst, inl, inr, true, ap, Option, none, List, [], ◌∷◌,
  Bool-cases, arith, ℕ,
}
use aegisdb_core.Prelude.Assoc.{Assoc, lookup, nat_eq}
use aegisdb_core.Prelude.Bytes.{Bytes}
use aegisdb_core.Prelude.Order.{bytes_geb, geb_total}
use aegisdb_core.RaftStore.Range.{key_in_region, IsInhabited, in_region-start, in_region_between}
use aegisdb_core.RaftStore.StoreMeta.{
  Start, StoreMeta, regions_overlap, add_overlap, overlapping, get_overlap_regions,
}
use aegisdb_core.RaftStore.StoreMeta.Find.{IsIndexed}
use aegisdb_core.Scheduler.Region.{Region}
use aegisdb_core.Scheduler.Sorting.{mem_cons}
use mathlib.Core.List.{Memᴰ}

-- A key that two regions hold.
abbrev pub SharedKey : Region → Region → Type 0
SharedKey a b = (key : Bytes) × (key_in_region key a ≡ true) × (key_in_region key b ≡ true)

overlap-shared :
    (a b : Region) → IsInhabited a → IsInhabited b → regions_overlap a b ≡ true → SharedKey a b
unfolding regions_overlap
overlap-shared a b ia ib h = elim (Bool-cases (key_in_region a.start_key b)) [
  | inl a_in_b ↦ (a.start_key, ia, a_in_b)
  | inr out ↦ (b.start_key, ground (arith, out), ib)
]

shared-overlap : (a b : Region) → SharedKey a b → regions_overlap a b ≡ true
unfolding regions_overlap
shared-overlap a b (key, in_a, in_b) = elim (Bool-cases (bytes_geb a.start_key b.start_key)) [
  | inl above ↦
      let here = in_region_between a.start_key key b in_b (in_region-start key a in_a) above in
      ground (arith, here)
  | inr below ↦
      let above = geb_total a.start_key b.start_key below in
      let here = in_region_between b.start_key key a in_a (in_region-start key b in_b) above in
      ground (arith, here)
]

-- A listed region that overlaps.
abbrev Found : Region → Region → Assoc ℕ Region → List Start → Type 0
Found r q regions l =
    (t : Start) × Memᴰ t l × (lookup t.1 regions ≡ some q) × (regions_overlap r q ≡ true)

later :
    (r q : Region) (regions : Assoc ℕ Region) (l : List Start) (s : Start)
    → Found r q regions l
    → Found r q regions (s ∷ l)
later r q regions l s (t, mem, there, over) = (t, Memᴰ.tail mem, there, over)

add_overlap_sound :
    (r q : Region) (o : Option Region) (rest : List Region)
    → Memᴰ q (add_overlap r o rest)
    → ((o ≡ some q) × (regions_overlap r q ≡ true)) ⊎ Memᴰ q rest
add_overlap_sound r q none rest m = inr m
add_overlap_sound r q (some p) rest m = elim (Bool-cases (regions_overlap r p)) [
  | inl over ↦ elim (mem_cons q p rest (rw over at m)) [
    | inl e ↦ inl (ap some (sym e), rw e over)
    | inr n ↦ inr n
  ]
  | inr apart ↦ inr (rw apart at m)
]

add_overlap-own :
    (r q : Region) (rest : List Region)
    → regions_overlap r q ≡ true
    → Memᴰ q (add_overlap r (some q) rest)
add_overlap-own r q rest over = rw over (Memᴰ.head refl)

add_overlap-rest :
    (r q : Region) (o : Option Region) (rest : List Region)
    → Memᴰ q rest
    → Memᴰ q (add_overlap r o rest)
add_overlap-rest r q none rest m = m
add_overlap-rest r q (some p) rest m = elim (Bool-cases (regions_overlap r p)) [
  | inl over ↦ rw over (Memᴰ.tail m)
  | inr apart ↦ rw apart m
]

overlapping_sound :
    (r q : Region) (regions : Assoc ℕ Region) (l : List Start)
    → Memᴰ q (overlapping r regions l)
    → Found r q regions l
unfolding overlapping
overlapping_sound r q regions [] m = elim m [ ]
overlapping_sound r q regions ((start, id) ∷ l) m =
    elim (add_overlap_sound r q (lookup id regions) (overlapping r regions l) m) [
      | inl (there, over) ↦ ((start, id), Memᴰ.head refl, there, over)
      | inr n ↦ later r q regions l (start, id) (overlapping_sound r q regions l n)
    ]

overlapping-complete :
    (r q : Region) (regions : Assoc ℕ Region) (l : List Start) (s : Start)
    → Memᴰ s l
    → lookup s.1 regions ≡ some q
    → regions_overlap r q ≡ true
    → Memᴰ q (overlapping r regions l)
unfolding overlapping
overlapping-complete r q regions [] s m there over = elim m [ ]
overlapping-complete r q regions ((start, id) ∷ l) s (Memᴰ.head e) there over =
    let here : lookup id regions ≡ some q =
      subst (λ (t : Start). lookup t.1 regions ≡ some q) e there in
    subst (λ o. Memᴰ q (add_overlap r o (overlapping r regions l))) (sym here)
      (add_overlap-own r q (overlapping r regions l) over)
overlapping-complete r q regions ((start, id) ∷ l) s (Memᴰ.tail m) there over =
    add_overlap-rest r q (lookup id regions) (overlapping r regions l)
      (overlapping-complete r q regions l s m there over)

-- In an indexed store, the regions reported as overlapping an inhabited region are exactly the stored
-- regions that share a key with it.
pub overlap_regions_lem :
    (m : StoreMeta) (r q : Region)
    → IsIndexed m
    → IsInhabited r
    → Memᴰ q (get_overlap_regions r m) ↔ ((lookup q.id m.regions ≡ some q) × SharedKey r q)
unfolding get_overlap_regions
overlap_regions_lem m r q h inhabited = (
  (λ mem.
      let (s, listed, there, over) = overlapping_sound r q m.regions m.region_ranges mem in
      let own = h.own_id s.1 q there in
      (
        subst (λ i. lookup i m.regions ≡ some q) (sym own) there,
        overlap-shared r q inhabited (h.inhabited s.1 q there) over,
      )),
  (λ p.
      overlapping-complete r q m.regions m.region_ranges (q.start_key, q.id) (h.listed q.id q p.0)
        p.0 (shared-overlap r q p.1)),
)
