-- ===== src/RaftStore/Recovery/Complete.antt =====
-- src/raftstore/recovery.rs: the regions that a store finds again.
use aegisdb_core.Prelude.{
  ℕ, ◌<◌, ◌≡◌, ◌↔◌, ◌%◌, refl, sym, ap, subst, ◌∙◌, ◌⊎◌, inl, inr, true, false, List, [], ◌∷◌,
  Option, none, some, ok, ◌>>=◌, drop, u64_mod, arith, Bool-cases, bind-ok, Option-cases,
}
use aegisdb_core.Prelude.Bytes.{Bytes}
use aegisdb_core.Prelude.Order.{bytes_geb}
use aegisdb_core.Engine.{Db, key_with_cf}
use aegisdb_core.RaftStore.Meta.{Encoding, decoded, RegionLocalState, get_region_local_state}
use aegisdb_core.RaftStore.Meta.Keys.{decode_region_meta_key, region_state_key, region_key_lem}
use aegisdb_core.RaftStore.RegionTask.{Pair, Scan, key_before}
use aegisdb_core.RaftStore.Recovery.{
  recovery_key, is_region_meta, is_beyond, with_region, read_region, recover_items, recover_regions,
}
use aegisdb_core.Scheduler.Region.{Region}
use aegisdb_core.Scheduler.Sorting.{IsSorted, mem_cons, all_mem}
use mathlib.Core.List.{Memᴰ}
use aegisdb_core.RaftStore.Recovery.Own.{
  IsOwn, IsReadable, own_region_complete, read_region_sound, read_total, wrapped-IsOwn,
  decode_total,
}

with_region_found :
    (r : Region) (found : Option Region) (rs : List Region)
    → found ≡ some r
    → Memᴰ r (with_region found rs)
with_region_found r none rs e = cc
with_region_found r (some x) rs e = Memᴰ.head cc

with_region_rest :
    (r : Region) (found : Option Region) (rs : List Region)
    → Memᴰ r rs
    → Memᴰ r (with_region found rs)
with_region_rest r none rs m = m
with_region_rest r (some x) rs m = Memᴰ.tail m

mem-with_region :
    (r : Region) (found : Option Region) (rs : List Region)
    → Memᴰ r (with_region found rs)
    → (found ≡ some r) ⊎ Memᴰ r rs
mem-with_region r none rs m = inr m
mem-with_region r (some x) rs m = elim (mem_cons r x rs m) [
  | inl e ↦ inl (ap (λ t. some t) (sym e))
  | inr later ↦ inr later
]

-- Behind a key beyond the keys of regions there is none of them.
none_beyond :
    (a k : Bytes)
    → is_beyond a ≡ true
    → bytes_geb a recovery_key ≡ true
    → bytes_geb k a ≡ true
    → is_region_meta k ≡ false
unfolding bytes_geb
none_beyond [] k beyond above later = cc
none_beyond (x ∷ xs) [] beyond above later = cc
none_beyond (x ∷ xs) (y ∷ []) beyond above later = refl
none_beyond (x ∷ xs) (y ∷ z ∷ ys) beyond above later = ground arith

above_recovery :
    (region_id : ℕ) → bytes_geb (key_with_cf [] (region_state_key region_id)) recovery_key ≡ true
unfolding bytes_geb
above_recovery region_id = refl

module _ (kv : Db) (scan : Scan kv) (bytes : Encoding Region)
    (local : Encoding RegionLocalState) where
  -- The three ways of a step of the loop.
  abbrev Step : ℕ → kv.State → Bytes → List Pair → List Region → Type 0
  Step store_id s k l rs =
      ((found : Option Region) × (regions : List Region) × (is_region_meta k ≡ true)
        × (read_region kv scan bytes local store_id s (decode_region_meta_key (drop 1 k))
            ≡ ok found)
        × (recover_items kv scan bytes local store_id s l ≡ ok regions)
        × (rs ≡ with_region found regions))
      ⊎ (((is_region_meta k ≡ false) × (is_beyond k ≡ true) × (rs ≡ []))
          ⊎ ((is_region_meta k ≡ false) × (recover_items kv scan bytes local store_id s l ≡ ok rs)))

  Step-cases :
      (store_id : ℕ) (s : kv.State) (k v : Bytes) (l : List Pair) (rs : List Region)
      → recover_items kv scan bytes local store_id s ((k, v) ∷ l) ≡ ok rs
      → Step store_id s k l rs
  unfolding recover_items
  Step-cases store_id s k v l rs h = elim (Bool-cases (is_region_meta k)) [
    | inl meta ↦
        let read = read_region kv scan bytes local store_id s (decode_region_meta_key (drop 1 k)) in
        let rest = recover_items kv scan bytes local store_id s l in
        let (found, reads, h1) =
          bind-ok read (λ found. rest >>= λ regions. ok (with_region found regions)) rs
            (ground (arith, h, meta)) in
        let (regions, rests, h2) = bind-ok rest (λ regions. ok (with_region found regions)) rs h1 in
        inl (found, regions, meta, reads, rests, (cc))
    | inr other ↦ elim (Bool-cases (is_beyond k)) [
      | inl beyond ↦ inr (inl (other, beyond, (ground (arith, h, other, beyond))))
      | inr within ↦ inr (inr (other, (ground (arith, h, other, within))))
    ]
  ]

  recover_items_sound :
      (store_id : ℕ) (s : kv.State) (r : Region) (l : List Pair) (rs : List Region)
      → recover_items kv scan bytes local store_id s l ≡ ok rs
      → Memᴰ r rs
      → (region_id : ℕ) × IsOwn kv scan bytes local store_id s region_id r
  unfolding recover_items
  recover_items_sound store_id s r [] rs h m =
      absurd (let e : rs ≡ [] = cc in elim (subst (Memᴰ r) e m) [ ])
  recover_items_sound store_id s r ((k, v) ∷ l) rs h m = elim (Step-cases store_id s k v l rs h) [
    | inl (found, regions, meta, reads, rests, e) ↦
        elim (mem-with_region r found regions (subst (Memᴰ r) e m)) [
          | inl here ↦
              read_region_sound kv scan bytes local store_id s r (decode_region_meta_key (drop 1 k))
                (reads ∙ ap (λ t. ok t) here)
          | inr later ↦ recover_items_sound store_id s r l regions rests later
        ]
    | inr (inl (other, beyond, e)) ↦ elim (subst (Memᴰ r) e m) [ ]
    | inr (inr (other, rests)) ↦ recover_items_sound store_id s r l rs rests m
  ]

  recover_items_total :
      (store_id : ℕ) (s : kv.State) (l : List Pair)
      → IsReadable kv scan bytes local s
      → (rs : List Region) × (recover_items kv scan bytes local store_id s l ≡ ok rs)
  unfolding recover_items
  recover_items_total store_id s [] readable = ([], refl)
  recover_items_total store_id s ((k, v) ∷ l) readable =
      let (rs, rests) = recover_items_total store_id s l readable in
      let (found, reads) =
        read_total kv scan bytes local store_id s (decode_region_meta_key (drop 1 k))
          (decode_total (drop 1 k)) readable in
      elim (Bool-cases (is_region_meta k)) [
        | inl meta ↦ (with_region found rs, rw (meta, reads, rests) refl)
        | inr other ↦ elim (Bool-cases (is_beyond k)) [
          | inl beyond ↦ ([], rw (other, beyond) refl)
          | inr within ↦ (rs, rw (other, within) rests)
        ]
      ]

  abbrev state_key : ℕ → Bytes
  state_key region_id = key_with_cf [] (region_state_key region_id)

  found_own :
      (store_id region_id : ℕ) (s : kv.State) (r : Region) (found : Option Region)
      → region_id < u64_mod
      → IsOwn kv scan bytes local store_id s region_id r
      → read_region kv scan bytes local store_id s
          (decode_region_meta_key (region_state_key region_id))
        ≡ ok found
      → found ≡ some r
  found_own store_id region_id s r found small own h =
      let full = own_region_complete kv scan bytes local store_id region_id s r own in
      let read =
        subst (λ x. read_region kv scan bytes local store_id s x ≡ ok found)
          (region_key_lem region_id small) h in
      cc

  not_other : (region_id : ℕ) (k : Bytes) → state_key region_id ≡ k → is_region_meta k ≡ true
  not_other region_id k e = subst (λ j. is_region_meta j ≡ true) e refl

  recover_items_complete :
      (store_id region_id : ℕ) (s : kv.State) (r : Region) (w : Bytes) (l : List Pair)
      (rs : List Region)
      → region_id < u64_mod
      → IsOwn kv scan bytes local store_id s region_id r
      → recover_items kv scan bytes local store_id s l ≡ ok rs
      → IsSorted key_before l
      → ((j v : Bytes) → Memᴰ (j, v) l → bytes_geb j recovery_key ≡ true)
      → Memᴰ (state_key region_id, w) l
      → Memᴰ r rs
  unfolding recover_items
  recover_items_complete store_id region_id s r w [] rs small own h srt above m = elim m [ ]
  recover_items_complete store_id region_id s r w ((k, v) ∷ l) rs small own h (all, srt) above m =
      let step = Step-cases store_id s k v l rs h in
      let above_rest : (j v : Bytes) → Memᴰ (j, v) l → bytes_geb j recovery_key ≡ true =
        λ j v m. above j v (Memᴰ.tail m) in
      elim (mem_cons (state_key region_id, w) (k, v) l m) [
        | inl same ↦
            let e = ap (λ (p : Pair). p.0) same in
            elim step [
              | inl (found, regions, meta, reads, rests, is) ↦
                  let here =
                    subst
                      (λ j.
                        read_region kv scan bytes local store_id s
                          (decode_region_meta_key (drop 1 j))
                        ≡ ok found)
                      (sym e) reads in
                  subst (Memᴰ r) (sym is) (
                    with_region_found r found regions
                      (found_own store_id region_id s r found small own here))
              | inr (inl (other, beyond, is)) ↦ absurd (let f = not_other region_id k e in cc)
              | inr (inr (other, rest)) ↦ absurd (let f = not_other region_id k e in cc)
            ]
        | inr later ↦ elim step [
          | inl (found, regions, meta, reads, rests, is) ↦ subst (Memᴰ r) (sym is) (
              with_region_rest r found regions (
                recover_items_complete store_id region_id s r w l regions small own rests srt
                  above_rest later))
          | inr (inl (other, beyond, is)) ↦ absurd (
              let at =
                all_mem (λ p. key_before (k, v) p ≡ true) l (state_key region_id, w) all later in
              let f = none_beyond k (state_key region_id) beyond (above k v (Memᴰ.head refl)) at in
              let g : is_region_meta (state_key region_id) ≡ true = refl in cc)
          | inr (inr (other, rests)) ↦
              recover_items_complete store_id region_id s r w l rs small own rests srt above_rest
                later
        ]
      ]

  -- A state that is read is stored.
  stored_state :
      (region_id : ℕ) (s : kv.State) (state : RegionLocalState)
      → get_region_local_state kv local region_id s ≡ ok (some state)
      → (w : Bytes) × (kv.view s (state_key region_id) ≡ some w)
  unfolding get_region_local_state
  stored_state region_id s state h =
      let (read, gets, decodes) =
        bind-ok (kv.get s (state_key region_id)) (decoded local) (some state) h in
      let there = kv.get_lem s (state_key region_id) read gets in
      elim (Option-cases read) [
        | inl missing ↦ absurd (ground (arith, decodes, missing))
        | inr (w, found) ↦ (w, sym there ∙ found)
      ]

  -- Where reading a state does not panic and the region of each state that is read can be decoded,
  -- recovery succeeds, and it gives a region just when the state of some id can be read and holds that
  -- region, is no tombstone, and a peer of the region is on the store.
  pub recover_regions_lem :
      (store_id : ℕ) (s : kv.State)
      → IsReadable kv scan bytes local s
      → (r : Region)
      → (rs : List Region) × (recover_regions kv scan bytes local store_id s ≡ ok rs)
        × (Memᴰ r rs ↔ ((region_id : ℕ) × IsOwn kv scan bytes local store_id s region_id r))
  unfolding recover_regions
  recover_regions_lem store_id s readable r =
      let l = scan.seek s recovery_key in
      let (rs, h) = recover_items_total store_id s l readable in
      (
        rs,
        h,
        (
          recover_items_sound store_id s r l rs h,
          (λ (region_id, any).
              let own = wrapped-IsOwn kv scan bytes local store_id region_id s r any in
              let id = region_id % u64_mod in
              let (w, there) = stored_state id s own.0 own.1 in
              recover_items_complete store_id id s r w l rs (omega arith) own h
                (scan.seek-IsSorted s recovery_key)
                (λ j v m. ((scan.seek_lem s recovery_key j v).0 m).1)
                ((scan.seek_lem s recovery_key (state_key id) w).1 (there, above_recovery id))),
        ),
      )
