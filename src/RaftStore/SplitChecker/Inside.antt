-- ===== src/RaftStore/SplitChecker/Inside.antt =====
-- src/raftstore/split_checker.rs: the key at which a region is split lies in the region.
use aegisdb_core.Prelude.{
  ℕ, zero, suc, ◌≡◌, ◌⊎◌, refl, sym, ap, subst, ◌∙◌, inl, inr, Bool, true, false, not, ◌&&◌, ◌||◌,
  List, [], ◌∷◌, ◌++◌, Option, none, some, ltb, if◌then◌else◌, Bool-cases, arith, length, take,
  drop,
}
use aegisdb_core.Prelude.Bytes.{Bytes, bytes_beq_iff}
use aegisdb_core.Prelude.Order.{bytes_geb, geb-prefix}
use aegisdb_core.Engine.{Db, key_with_cf}
use aegisdb_core.Mvcc.Txn.{Cf, default, write, lock}
use aegisdb_core.RaftStore.Range.{is_empty, exceed_end_key, key_in_region, in_region_lem}
use aegisdb_core.RaftStore.RegionTask.{Pair, Scan}
use aegisdb_core.RaftStore.SplitChecker.{
  starts_with, Scanned, or_key, counted, scan_items, nothing_yet, key_or_empty, if_any, add_family,
  seek_key, scan_cf, scan_families, check_split,
}
use aegisdb_core.Scheduler.Region.{Region}
use mathlib.Core.List.{Memᴰ}

-- A key found so far is good.
abbrev Good : (Bytes → Type 0) → Option Bytes → Type 0
Good P none = Unit
Good P (some k) = P k

or_key-Good :
    (P : Bytes → Type 0) (o : Option Bytes) (over : Bool) (k : Bytes)
    → Good P o
    → P k
    → Good P (or_key o over k)
or_key-Good P (some j) over k g p = g
or_key-Good P none true k g p = p
or_key-Good P none false k g p = tt

choose-Good :
    (P : Bytes → Type 0) (b : Bool) (c d : Scanned)
    → Good P c.split_key
    → Good P d.split_key
    → Good P (if b then c else d).split_key
choose-Good P true c d g h = g
choose-Good P false c d g h = h

-- The key of an item that the loop counts.
abbrev IsCounted : Bytes → Bytes → List Pair → Bytes → Type 0
IsCounted prefix end_key l actual =
    (k : Bytes) × (v : Bytes) × Memᴰ (k, v) l
    × (k ≡ prefix ++ actual)
    × ((not (is_empty end_key) && exceed_end_key actual end_key) ≡ false)

take-drop : (n : ℕ) (k : Bytes) → take n k ++ drop n k ≡ k
take-drop zero k = refl
take-drop (suc n) [] = refl
take-drop (suc n) (b ∷ k) = ap (◌∷◌ b) (take-drop n k)

starts_with-split :
    (prefix k : Bytes) → starts_with prefix k ≡ true → k ≡ prefix ++ drop (length prefix) k
starts_with-split prefix k h =
    sym (take-drop (length prefix) k)
    ∙ ap (λ t. t ++ drop (length prefix) k) ((bytes_beq_iff (take (length prefix) k) prefix).0 h)

module _ (max_size split_size : ℕ) (prefix end_key : Bytes) (P : Bytes → Type 0) where
  scan_items-Good :
      (l : List Pair) (c : Scanned)
      → ((actual : Bytes) → IsCounted prefix end_key l actual → P actual)
      → Good P c.split_key
      → Good P (scan_items max_size split_size prefix end_key l c).split_key
  unfolding scan_items
  scan_items-Good [] c each g = g
  scan_items-Good ((k, v) ∷ l) c each g =
      let actual = drop (length prefix) k in
      let c' = counted split_size actual v c in
      elim (Bool-cases (starts_with prefix k)) [
        | inr other ↦ rw other g
        | inl mine ↦ elim (Bool-cases (not (is_empty end_key) && exceed_end_key actual end_key)) [
          | inl past ↦ rw (mine, past) g
          | inr within ↦
              let good_key =
                each actual (k, v, Memᴰ.head refl, starts_with-split prefix k mine, within) in
              let good = or_key-Good P c.split_key (ltb split_size c'.size) actual g good_key in
              let later =
                scan_items-Good l c' (λ a p. each a (p.0, p.1, Memᴰ.tail p.2, p.3, p.4)) good in
              rw (mine, within)
                (choose-Good P (ltb max_size c'.size) c'
                  (scan_items max_size split_size prefix end_key l c') good later)
        ]
      ]

key_or_empty-Good :
    (region : Region) (o : Option Bytes)
    → Good (λ k. key_in_region k region ≡ true) o
    → (is_empty (key_or_empty o) ≡ true) ⊎ (key_in_region (key_or_empty o) region ≡ true)
key_or_empty-Good region none g = inl refl
key_or_empty-Good region (some k) g = inr g

-- A key that a split may be asked for at: empty, or in the region.
abbrev pub IsUsable : Region → Bytes → Type 0
IsUsable region key = (is_empty key ≡ true) ⊎ (key_in_region key region ≡ true)

within_end :
    (key end_key : Bytes)
    → (not (is_empty end_key) && exceed_end_key key end_key) ≡ false
    → (is_empty end_key || not (bytes_geb key end_key)) ≡ true
within_end key [] h = refl
within_end key (b ∷ bs) h = ground arith

module _ (kv : Db) (scan : Scan kv) (lossy : Bytes → Bytes) (max_size split_size : ℕ)
    (region : Region) (s : kv.State) (text : lossy region.start_key ≡ region.start_key) where
  abbrev sought_key : Bytes → Bytes
  sought_key prefix = seek_key kv scan lossy max_size split_size prefix region.start_key

  seek_key-geb :
      (prefix actual start : Bytes)
      → lossy start ≡ start
      → bytes_geb (prefix ++ actual) (seek_key kv scan lossy max_size split_size prefix start)
        ≡ true
      → bytes_geb actual start ≡ true
  unfolding bytes_geb
  seek_key-geb prefix actual [] plain h = refl
  seek_key-geb prefix actual (b ∷ bs) plain h =
      sym (geb-prefix prefix actual (b ∷ bs))
      ∙ sym (ap (λ t. bytes_geb (prefix ++ actual) (prefix ++ t)) plain)
      ∙ h

  counted-in_region :
      (prefix actual : Bytes)
      → IsCounted prefix region.end_key (scan.seek s (sought_key prefix)) actual
      → key_in_region actual region ≡ true
  counted-in_region prefix actual (k, v, mem, split, within) =
      let above = ((scan.seek_lem s (sought_key prefix) k v).0 mem).1 in
      let above_start =
        seek_key-geb prefix actual region.start_key text
          (subst (λ t. bytes_geb t (sought_key prefix) ≡ true) split above) in
      let below = within_end actual region.end_key within in
      ground (arith, in_region_lem actual region, above_start, below)

  abbrev FamilyGood : Option (ℕ × Bytes) → Type 0
  FamilyGood none = Unit
  FamilyGood (some (size, key)) = IsUsable region key

  if_any-Good :
      (c : Scanned) → Good (λ k. key_in_region k region ≡ true) c.split_key → FamilyGood (if_any c)
  if_any-Good c g = elim (Bool-cases (ltb 0 c.size)) [
    | inr nothing ↦ rw nothing tt
    | inl found ↦ rw found (key_or_empty-Good region c.split_key g)
  ]

  scan_cf-Good :
      (cf : Cf)
      → FamilyGood (scan_cf kv scan lossy max_size split_size cf region.start_key region.end_key s)
  unfolding scan_cf
  scan_cf-Good cf =
      let prefix = key_with_cf cf [] in
      if_any-Good
        (scan_items max_size split_size prefix region.end_key (scan.seek s (sought_key prefix))
          nothing_yet)
        (scan_items-Good max_size split_size prefix region.end_key
          (λ k. key_in_region k region ≡ true) (scan.seek s (sought_key prefix)) nothing_yet
          (counted-in_region prefix) tt)

  add_family-Good :
      (o : Option (ℕ × Bytes)) (c : Scanned)
      → FamilyGood o
      → Good (IsUsable region) c.split_key
      → Good (IsUsable region) (add_family split_size o c).split_key
  add_family-Good none c f g = g
  add_family-Good (some (size, key)) c f g = or_key-Good (IsUsable region) c.split_key _ key g f

  leave-Good :
      (o : Option (ℕ × Bytes)) (c rest : Scanned)
      → Good (IsUsable region) c.split_key
      → Good (IsUsable region) rest.split_key
      → Good
          (IsUsable region)
          (elim o as (λ _. Scanned) [
            | none ↦ rest
            | some p ↦ if ltb max_size c.size then c else rest
          ]).split_key
  leave-Good none c rest g h = h
  leave-Good (some p) c rest g h = choose-Good (IsUsable region) (ltb max_size c.size) c rest g h

  scan_families-Good :
      (cfs : List Cf) (c : Scanned)
      → Good (IsUsable region) c.split_key
      → Good
          (IsUsable region)
          (scan_families kv scan lossy max_size split_size region s cfs c).split_key
  unfolding scan_families
  scan_families-Good [] c g = g
  scan_families-Good (cf ∷ cfs) c g =
      let found = scan_cf kv scan lossy max_size split_size cf region.start_key region.end_key s in
      let c' = add_family split_size found c in
      let good = add_family-Good found c (scan_cf-Good cf) g in
      leave-Good found c' (scan_families kv scan lossy max_size split_size region s cfs c') good
        (scan_families-Good cfs c' good)

  answer-Good :
      (key : Bytes) (b : Bool) (o : Option Bytes)
      → Good (IsUsable region) o
      → (if b then none else o) ≡ some key
      → (b ≡ false) × IsUsable region key
  answer-Good key true o g e = cc
  answer-Good key false none g e = cc
  answer-Good key false (some k) g e = (refl, subst (IsUsable region) (cc) g)

-- Where the start of the region is a byte string that `from_utf8_lossy` leaves as it is: the checker names a
-- split key only if the size that it sends is at least the maximum, and the key is empty or lies in the
-- region.
pub check_split_lem :
    (kv : Db) (scan : Scan kv) (lossy : Bytes → Bytes) (max_size split_size : ℕ) (region : Region)
    (s : kv.State) (key : Bytes)
    → lossy region.start_key ≡ region.start_key
    → (check_split kv scan lossy max_size split_size region s).0 ≡ some key
    → (ltb (check_split kv scan lossy max_size split_size region s).1 max_size ≡ false)
      × ((is_empty key ≡ true) ⊎ (key_in_region key region ≡ true))
unfolding check_split
check_split_lem kv scan lossy max_size split_size region s key text e =
    let c =
      scan_families kv scan lossy max_size split_size region s (default ∷ write ∷ lock ∷ [])
        nothing_yet in
    answer-Good kv scan lossy max_size split_size region s text key (ltb c.size max_size)
      c.split_key
      (scan_families-Good kv scan lossy max_size split_size region s text
        (default ∷ write ∷ lock ∷ []) nothing_yet tt)
      e
