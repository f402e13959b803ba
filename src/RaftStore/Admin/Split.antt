-- ===== src/RaftStore/Admin/Split.antt =====
-- src/raftstore/admin.rs: a split of a region divides its keys and no others.
use aegisdb_core.Prelude.{
  ℕ, ◌≡◌, ◌≢◌, ◌⊎◌, sym, subst, inl, inr, true, false, List, [], ◌∷◌, none, some, Result, ok, ap,
  if◌then◌else◌, Bool-cases, Option-cases, arith, ==_ne, ==_refl, ◌∙◌,
}
use aegisdb_core.Prelude.Assoc.{lookup, nat_eq}
use aegisdb_core.Prelude.Bytes.{Bytes}
use aegisdb_core.Prelude.Order.{bytes_geb, geb_refl}
use aegisdb_core.RaftStore.Admin.{
  SplitRequest, update_region_range, split_off, peers_for, execute_split, created, store_split,
}
use aegisdb_core.RaftStore.Range.{key_in_region, is_empty, IsInhabited, AreDisjoint}
use aegisdb_core.RaftStore.StoreMeta.{StoreMeta, set_region, find_region_by_key}
use aegisdb_core.RaftStore.StoreMeta.Find.{IsIndexed, find_region_lem}
use aegisdb_core.RaftStore.StoreMeta.Indexed.{
  set_region_cases, set_region-lookup, set_region-IsIndexed,
}
use aegisdb_core.Scheduler.Region.{Region, Peer}
use aegisdb_core.RaftStore.Admin.Parts.{not_empty, lower_part, upper_part, in_range_lem}

-- What a split leaves of a region: the updated region and the new one, both stored.
abbrev pub after_split : Region → SplitRequest → List Peer → StoreMeta → StoreMeta
after_split region request peers m =
    set_region (split_off region request peers)
      (set_region (update_region_range region request.split_key) m)

module _ (m : StoreMeta) (region : Region) (request : SplitRequest) (peers : List Peer)
    (indexed : IsIndexed m) (stored : lookup region.id m.regions ≡ some region)
    (fresh : lookup request.new_region_id m.regions ≡ none)
    (inside : key_in_region request.split_key region ≡ true)
    (above : bytes_geb region.start_key request.split_key ≡ false) where
  abbrev updated : Region
  updated = update_region_range region request.split_key

  abbrev new_part : Region
  new_part = split_off region request peers

  abbrev middle : StoreMeta
  middle = set_region updated m

  full : is_empty request.split_key ≡ false
  full = not_empty region.start_key request.split_key above

  updated-IsInhabited : IsInhabited updated
  updated-IsInhabited = ground (
    arith,
    lower_part region request.split_key region.start_key inside full,
    indexed.inhabited region.id region stored,
    above,
  )

  new_part-IsInhabited : IsInhabited new_part
  new_part-IsInhabited = ground (
    arith,
    upper_part region request peers request.split_key inside,
    geb_refl request.split_key,
    inside,
  )

  middle-IsIndexed : IsIndexed middle
  middle-IsIndexed =
      set_region-IsIndexed updated m indexed updated-IsInhabited (λ id q ne there key lies.
        indexed.disjoint region.id id region q ne stored there key
          (ground (arith, lower_part region request.split_key key inside full, lies)))

  new_part-apart :
      (id : ℕ) (q : Region)
      → request.new_region_id ≢ id
      → lookup id middle.regions ≡ some q
      → AreDisjoint new_part q
  new_part-apart id q ne there key lies = elim (set_region_cases updated q m id there) [
    | inl (mine, is_updated) ↦
        subst (λ t. key_in_region key t ≡ false) is_updated
          (ground (
            arith,
            lower_part region request.split_key key inside full,
            upper_part region request peers key inside,
            lies,
          ))
    | inr (his, old) ↦
        indexed.disjoint region.id id region q his stored old key
          (ground (arith, upper_part region request peers key inside, lies))
  ]

  after_split-IsIndexed : IsIndexed (after_split region request peers m)
  after_split-IsIndexed =
      set_region-IsIndexed new_part middle middle-IsIndexed new_part-IsInhabited new_part-apart

  new_id : request.new_region_id ≢ region.id
  new_id e =
      let gone : lookup region.id m.regions ≡ none =
        subst (λ i. lookup i m.regions ≡ none) e fresh in
      cc

  after_split-new :
      lookup request.new_region_id (after_split region request peers m).regions ≡ some new_part
  after_split-new = ground (
    arith,
    set_region-lookup new_part middle request.new_region_id,
    ==_refl request.new_region_id,
  )

  after_split-updated : lookup region.id (after_split region request peers m).regions ≡ some updated
  after_split-updated = ground (
    arith,
    set_region-lookup new_part middle region.id,
    set_region-lookup updated m region.id,
    ==_refl region.id,
    ==_ne request.new_region_id region.id new_id,
  )

  after_split-other :
      (id : ℕ) (q : Region)
      → region.id ≢ id
      → lookup id m.regions ≡ some q
      → lookup id (after_split region request peers m).regions ≡ some q
  after_split-other id q ne there =
      let apart : request.new_region_id ≢ id = λ e.
        (let gone : lookup id m.regions ≡ none = subst (λ i. lookup i m.regions ≡ none) e fresh in
          cc) in
      ground (
        arith,
        set_region-lookup new_part middle id,
        set_region-lookup updated m id,
        ==_ne region.id id ne,
        ==_ne request.new_region_id id apart,
        there,
      )

  after_split-left :
      (id : ℕ) (q : Region)
      → lookup id (after_split region request peers m).regions ≡ some q
      → (new_part ≡ q) ⊎ ((updated ≡ q) ⊎ (lookup id m.regions ≡ some q))
  after_split-left id q there = elim (set_region_cases new_part q middle id there) [
    | inl (mine, e) ↦ inl e
    | inr (his, old) ↦ elim (set_region_cases updated q m id old) [
      | inl (mine, e) ↦ inr (inl e)
      | inr (his, older) ↦ inr (inr older)
    ]
  ]

  abbrev after : StoreMeta
  after = after_split region request peers m

  found_upper :
      (key : Bytes)
      → key_in_region key region ≡ true
      → bytes_geb key request.split_key ≡ true
      → find_region_by_key key after ≡ some new_part
  found_upper key lies high =
      (find_region_lem after key new_part after_split-IsIndexed).1
        (after_split-new, ground (arith, upper_part region request peers key inside))

  found_lower :
      (key : Bytes)
      → key_in_region key region ≡ true
      → bytes_geb key request.split_key ≡ false
      → find_region_by_key key after ≡ some updated
  found_lower key lies low =
      (find_region_lem after key updated after_split-IsIndexed).1
        (after_split-updated, ground (arith, lower_part region request.split_key key inside full))

  still_found :
      (key : Bytes) (q : Region)
      → key_in_region key region ≡ false
      → find_region_by_key key m ≡ some q
      → find_region_by_key key after ≡ some q
  still_found key q out found =
      let (there, holds) = (find_region_lem m key q indexed).0 found in
      let other : region.id ≢ q.id = λ e.
        (let same : some region ≡ some q =
            sym stored ∙ (subst (λ i. lookup i m.regions ≡ some q) (sym e) there) in
          let eq : region ≡ q = ground arith in
          let bad = subst (λ t. key_in_region key t ≡ false) eq out in cc) in
      (find_region_lem after key q after_split-IsIndexed).1
        (after_split-other q.id q other there, holds)

  not_found :
      (key : Bytes)
      → key_in_region key region ≡ false
      → find_region_by_key key m ≡ none
      → find_region_by_key key after ≡ none
  not_found key out missing = elim (Option-cases (find_region_by_key key after)) [
    | inl e ↦ e
    | inr (q, found) ↦ absurd (
        let (there, holds) = (find_region_lem after key q after_split-IsIndexed).0 found in
        elim (after_split-left q.id q there) [
          | inl e ↦
              let h = subst (λ t. key_in_region key t ≡ true) (sym e) holds in
              ground (arith, upper_part region request peers key inside, h, out)
          | inr (inl e) ↦
              let h = subst (λ t. key_in_region key t ≡ true) (sym e) holds in
              ground (arith, lower_part region request.split_key key inside full, h, out)
          | inr (inr old) ↦ let f = (find_region_lem m key q indexed).1 (old, holds) in cc
        ])
  ]

  find-after_split :
      (key : Bytes)
      → find_region_by_key key after ≡ (
          if key_in_region key region
          then some (if bytes_geb key request.split_key then new_part else updated)
          else find_region_by_key key m)
  find-after_split key = elim (Bool-cases (key_in_region key region)) [
    | inl lies ↦ elim (Bool-cases (bytes_geb key request.split_key)) [
      | inl high ↦ rw (lies, high) (found_upper key lies high)
      | inr low ↦ rw (lies, low) (found_lower key lies low)
    ]
    | inr out ↦ elim (Option-cases (find_region_by_key key m)) [
      | inl missing ↦ rw (out, missing) (not_found key out missing)
      | inr (q, found) ↦ rw (out, found) (still_found key q out found)
    ]
  ]

-- In an indexed store, a split of a stored region at a key above its start and inside its range, with an
-- unused id for the new region and peers to be had, answers with the two parts and stores them; the store
-- stays indexed. Every key of the region then finds the new part if it is not below the split key and the
-- updated region otherwise, and every other key finds what it found before.
pub split_lem :
    (store_id : ℕ) (allocate_peers : Region → Result (List Peer)) (m : StoreMeta) (region : Region)
    (request : SplitRequest) (peers : List Peer)
    → IsIndexed m
    → lookup region.id m.regions ≡ some region
    → lookup request.new_region_id m.regions ≡ none
    → key_in_region request.split_key region ≡ true
    → bytes_geb region.start_key request.split_key ≡ false
    → peers_for store_id allocate_peers region request.new_peer_ids ≡ ok peers
    → let lower = update_region_range region request.split_key in
      let upper = split_off region request peers in
      let after = after_split region request peers m in
      (execute_split store_id allocate_peers region request m
        ≡ (ok (record { cmd_type = 10; regions = lower ∷ upper ∷ [] }), after))
      × IsIndexed after
      × ((key : Bytes)
          → find_region_by_key key after ≡ (
              if key_in_region key region
              then some (if bytes_geb key request.split_key then upper else lower)
              else find_region_by_key key m))
unfolding execute_split
split_lem store_id allocate_peers m region request peers indexed stored fresh inside above given =
    let full = not_empty region.start_key request.split_key above in
    let in_range = in_range_lem request.split_key region in
    (
      rw (full, in_range, inside)
          (ap (λ o. store_split region request m (created region request o)) given),
      after_split-IsIndexed m region request peers indexed stored fresh inside above,
      find-after_split m region request peers indexed stored fresh inside above,
    )
