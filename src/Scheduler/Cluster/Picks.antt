-- ===== src/Scheduler/Cluster/Picks.antt =====
-- src/scheduler/cluster/basic_cluster.rs: what the random choices of a region give.
use aegisdb_core.Prelude.{
  ℕ, zero, suc, ◌≡◌, refl, sym, ap, ◌∙◌, ◌⊎◌, inl, inr, arith, Bool, true, List, [], ◌∷◌, some,
  get_elem?, subst, Option-cases, Bool-cases,
}
use aegisdb_core.Prelude.Assoc.{Assoc, lookup, nat_eq}
use mathlib.Core.List.{Memᴰ}
use aegisdb_core.Raft.State.{Rand}
use aegisdb_core.Scheduler.Region.{RegionInfo, has_store, leads_on, is_healthy}
use aegisdb_core.Scheduler.Cluster.{
  BasicCluster, member, filter_regions, pick, rand_region, rand_pending_region,
  rand_follower_region, rand_leader_region,
}
use aegisdb_core.Scheduler.Cluster.Index.{IsIndexed, at, on_store, led_on}

mem-get_elem? : {A : Type 0} (xs : List A) (i : ℕ) (x : A) → get_elem? xs i ≡ some x → Memᴰ x xs
mem-get_elem? [] i x h = cc h
mem-get_elem? (y ∷ ys) zero x h = Memᴰ.head (cc h)
mem-get_elem? (y ∷ ys) (suc i) x h = Memᴰ.tail (mem-get_elem? ys i x h)

mem_member : (k : ℕ) (ks : List ℕ) → Memᴰ k ks → member k ks ≡ true
mem_member k [] m = elim m [ ]
mem_member k (x ∷ xs) (Memᴰ.head e) = ground (arith, e)
mem_member k (x ∷ xs) (Memᴰ.tail m) = ground (arith, mem_member k xs m)

-- A known region of the set, which passes the test.
abbrev Picked : (RegionInfo → Bool) → Assoc ℕ RegionInfo → List ℕ → RegionInfo → Type 0
Picked f regions ids r = (id : ℕ) × Memᴰ id ids × (lookup id regions ≡ some r) × (f r ≡ true)

more_ids :
    (f : RegionInfo → Bool) (regions : Assoc ℕ RegionInfo) (id : ℕ) (ids : List ℕ) (r : RegionInfo)
    → Picked f regions ids r
    → Picked f regions (id ∷ ids) r
more_ids f regions id ids r (i, m, l, h) = (i, Memᴰ.tail m, l, h)

first_or_more :
    (f : RegionInfo → Bool) (regions : Assoc ℕ RegionInfo) (id : ℕ) (ids : List ℕ)
    (r x : RegionInfo) {rs : List RegionInfo}
    → lookup id regions ≡ some x
    → f x ≡ true
    → (Memᴰ r rs → Picked f regions ids r)
    → Memᴰ r (x ∷ rs)
    → Picked f regions (id ∷ ids) r
first_or_more f regions id ids r x known good more (Memᴰ.head e) =
    (id, Memᴰ.head refl, known ∙ ap some (sym e), ap f e ∙ good)
first_or_more f regions id ids r x known good more (Memᴰ.tail m) =
    more_ids f regions id ids r (more m)

filter_regions_lem :
    (f : RegionInfo → Bool) (regions : Assoc ℕ RegionInfo) (ids : List ℕ) (r : RegionInfo)
    → Memᴰ r (filter_regions f regions ids)
    → Picked f regions ids r
unfolding filter_regions
filter_regions_lem f regions [] r m = elim m [ ]
filter_regions_lem f regions (id ∷ ids) r m = elim (Option-cases (lookup id regions)) [
  | inl unknown ↦
      let same : filter_regions f regions (id ∷ ids) ≡ filter_regions f regions ids =
        ground arith in
      more_ids f regions id ids r (filter_regions_lem f regions ids r (subst (Memᴰ r) same m))
  | inr (x, known) ↦ elim (Bool-cases (f x)) [
    | inr bad ↦
        let same : filter_regions f regions (id ∷ ids) ≡ filter_regions f regions ids =
          ground arith in
        more_ids f regions id ids r (filter_regions_lem f regions ids r (subst (Memᴰ r) same m))
    | inl good ↦
        let same : filter_regions f regions (id ∷ ids) ≡ x ∷ filter_regions f regions ids =
          ground arith in
        first_or_more f regions id ids r x known good (filter_regions_lem f regions ids r)
          (subst (Memᴰ r) same m)
  ]
]

-- Where a region was chosen for a store: it is known, and has a peer or its leader there.
abbrev pub Chosen : BasicCluster → ℕ → RegionInfo → Type 0
Chosen c store r =
    (id : ℕ) × (lookup id c.regions ≡ some r)
    × ((has_store store r.region.peers ≡ true) ⊎ (leads_on store r ≡ true))

module _ (rand : Rand) where
  pick_lem :
      (seed : ℕ) (rs : List RegionInfo) (r : RegionInfo)
      → (pick rand seed rs).0 ≡ some r
      → Memᴰ r rs
  unfolding pick
  pick_lem seed [] r h = cc h
  pick_lem seed (x ∷ rs) r h = mem-get_elem? (x ∷ rs) _ r h

  rand_region_lem :
      (f : RegionInfo → Bool) (store : ℕ) (index : Assoc ℕ (List ℕ)) (c : BasicCluster) (seed : ℕ)
      (r : RegionInfo)
      → (rand_region rand f store index c seed).0 ≡ some r
      → (id : ℕ) × (member id (at store index) ≡ true)
        × (lookup id c.regions ≡ some r)
        × (f r ≡ true)
  unfolding rand_region
  rand_region_lem f store index c seed r h = elim (Option-cases (lookup store index)) [
    | inl empty ↦ absurd (ground arith)
    | inr (ids, e) ↦
        let same : rand_region rand f store index c seed
            ≡ pick rand seed (filter_regions f c.regions ids) =
          ground arith in
        let (id, m, known, good) =
          filter_regions_lem f c.regions ids r
            (pick_lem seed (filter_regions f c.regions ids) r (sym (ap (λ x. x.0) same) ∙ h)) in
        let here : at store index ≡ ids = ground arith in
        (id, ap (member id) here ∙ mem_member id ids m, known, good)
  ]

  module _ (c : BasicCluster) (v : IsIndexed c) (store seed : ℕ) (r : RegionInfo) where
    on_peers :
        (f : RegionInfo → Bool)
        → (rand_region rand f store c.store_regions c seed).0 ≡ some r
        → Chosen c store r
    on_peers f h =
        let (id, m, known, _) = rand_region_lem f store c.store_regions c seed r h in
        let here : on_store id store c.regions ≡ true = sym (v.peers id store) ∙ m in
        (id, known, inl (ground arith))

    pub pending_Chosen : (rand_pending_region rand store c seed).0 ≡ some r → Chosen c store r
    unfolding rand_pending_region
    pending_Chosen h = on_peers _ h

    pub follower_Chosen : (rand_follower_region rand store c seed).0 ≡ some r → Chosen c store r
    unfolding rand_follower_region
    follower_Chosen h = on_peers _ h

    pub leader_leads :
        (rand_leader_region rand store c seed).0 ≡ some r
        → (id : ℕ) × (lookup id c.regions ≡ some r) × (leads_on store r ≡ true)
    unfolding rand_leader_region
    leader_leads h =
        let (id, m, known, _) = rand_region_lem is_healthy store c.store_leaders c seed r h in
        let here : led_on id store c.regions ≡ true = sym (v.leaders id store) ∙ m in
        (id, known, ground arith)
