-- ===== src/RaftStore/RegionTask/Destroy.antt =====
-- src/raftstore/region_task.rs: what is left after the range of a region was destroyed.
use aegisdb_core.Prelude.{
  ◌≡◌, refl, sym, ap, subst, ◌∙◌, inl, inr, Bool, true, false, not, ◌&&◌, ◌||◌, List, [], ◌∷◌,
  Option, none, Result, ok, if◌then◌else◌, Bool-cases, Option-cases, arith, All,
}
use aegisdb_core.Prelude.Bytes.{Bytes, bytes_beq, bytes_beq_iff}
use aegisdb_core.Prelude.Order.{bytes_geb, geb_trans, geb_refl}
use aegisdb_core.Engine.{Db, applied}
use aegisdb_core.RaftStore.Range.{is_empty, exceed_end_key}
use aegisdb_core.RaftStore.RegionTask.{
  Pair, key_before, Scan, is_metadata, in_range, deletions, deleted, destroy_range, TaskEncodings,
}
use aegisdb_core.Scheduler.Sorting.{IsSorted}
use mathlib.Core.List.{Memᴰ}

-- The end of a range is not reached.
abbrev before_end : Bytes → Bytes → Bool
before_end key end_key = is_empty end_key || not (bytes_geb key end_key)

-- The keys that are destroyed: in the range, and not metadata.
abbrev pub is_destroyed : Bytes → Bytes → Bytes → Bool
is_destroyed start_key end_key key =
    bytes_geb key start_key
    && ((is_empty end_key || not (bytes_geb key end_key)) && not (is_metadata key))

behind_end_lem :
    (key end_key : Bytes)
    → (not (is_empty end_key) && exceed_end_key key end_key) ≡ not (before_end key end_key)
behind_end_lem key [] = refl
behind_end_lem key (b ∷ bs) = ground arith

has_key : Bytes → List Pair → Bool
has_key k [] = false
has_key k ((j, v) ∷ l) = let rest = has_key k l in if bytes_beq j k then true else rest

-- Deleted keys are gone and the others stay.
deletions-applied :
    (l : List Pair) (k : Bytes) (before : Option Bytes)
    → applied (deletions l) k before ≡ (if has_key k l then none else before)
unfolding applied has_key
deletions-applied [] k before = refl
deletions-applied ((j, v) ∷ l) k before =
    ground (arith, deletions-applied l k (if bytes_beq j k then none else before))

-- The keys behind a sorted head are not below it.
has_key-geb :
    (j v k : Bytes) (l : List Pair)
    → All (λ p. key_before (j, v) p ≡ true) l
    → has_key k l ≡ true
    → bytes_geb k j ≡ true
unfolding has_key
has_key-geb j v k [] all h = cc
has_key-geb j v k ((i, w) ∷ l) (above, all) h = elim (Bool-cases (bytes_beq i k)) [
  | inl same ↦ subst (λ t. bytes_geb t j ≡ true) ((bytes_beq_iff i k).0 same) above
  | inr other ↦ has_key-geb j v k l all (ground (arith, other))
]

-- Behind a key at or past the end there is none before the end.
past-end :
    (j v k end_key : Bytes) (l : List Pair)
    → All (λ p. key_before (j, v) p ≡ true) l
    → before_end j end_key ≡ false
    → (has_key k ((j, v) ∷ l) && (before_end k end_key && not (is_metadata k))) ≡ false
unfolding has_key
past-end j v k end_key l all past = elim (Bool-cases (has_key k ((j, v) ∷ l))) [
  | inr no_key ↦ rw no_key refl
  | inl found ↦
      let above : bytes_geb k j ≡ true = elim (Bool-cases (bytes_beq j k)) [
        | inl same ↦ subst (λ t. bytes_geb t j ≡ true) ((bytes_beq_iff j k).0 same) (geb_refl j)
        | inr other ↦ has_key-geb j v k l all (ground (arith, other))
      ] in
      ground (arith, above, geb_trans k j end_key)
]

has_key-in_range :
    (k end_key : Bytes) (l : List Pair)
    → IsSorted key_before l
    → has_key k (in_range end_key l)
      ≡ (has_key k l && (before_end k end_key && not (is_metadata k)))
unfolding in_range has_key
has_key-in_range k end_key [] srt = refl
has_key-in_range k end_key ((j, v) ∷ l) (all, srt) =
    let ih = has_key-in_range k end_key l srt in
    elim (Bool-cases (before_end j end_key)) [
      | inr past ↦
          let stop = behind_end_lem j end_key ∙ ap not past in
          rw stop (sym (past-end j v k end_key l all past))
      | inl within ↦
          let go = behind_end_lem j end_key ∙ ap not within in
          elim (Bool-cases (bytes_beq j k)) [
            | inl same ↦
                let e = (bytes_beq_iff j k).0 same in
                let within_k = subst (λ t. before_end t end_key ≡ true) e within in
                elim (Bool-cases (is_metadata j)) [
                  | inl meta ↦
                      let meta_k = subst (λ t. is_metadata t ≡ true) e meta in
                      rw (go, meta, ih, same, within_k, meta_k) (ground arith)
                  | inr plain ↦
                      let plain_k = subst (λ t. is_metadata t ≡ false) e plain in
                      rw (go, plain, same, within_k, plain_k) refl
                ]
            | inr other ↦ elim (Bool-cases (is_metadata j)) [
              | inl meta ↦ rw (go, meta, ih, other) refl
              | inr plain ↦ rw (go, plain, other, ih) refl
            ]
          ]
    ]

has_key-mem : (k : Bytes) (l : List Pair) → has_key k l ≡ true → (v : Bytes) × Memᴰ (k, v) l
unfolding has_key
has_key-mem k [] h = absurd (let f : false ≡ true = h in cc)
has_key-mem k ((j, v) ∷ l) h = elim (Bool-cases (bytes_beq j k)) [
  | inl same ↦ (v, Memᴰ.head (ap (λ t. (t, v)) (sym ((bytes_beq_iff j k).0 same))))
  | inr other ↦ let (w, m) = has_key-mem k l (ground (arith, other)) in (w, Memᴰ.tail m)
]

mem-has_key : (k v : Bytes) (l : List Pair) → Memᴰ (k, v) l → has_key k l ≡ true
unfolding has_key
mem-has_key k v [] m = elim m [ ]
mem-has_key k v ((j, w) ∷ l) (Memᴰ.head e) =
    let same = (bytes_beq_iff j k).1 (sym (ap (λ (p : Pair). p.0) e)) in rw same refl
mem-has_key k v ((j, w) ∷ l) (Memᴰ.tail m) = ground (arith, mem-has_key k v l m)

module _ (kv : Db) (scan : Scan kv) (enc : TaskEncodings) where
  sought :
      (s : kv.State) (start_key k : Bytes)
      → has_key k (scan.seek s start_key) ≡ false
      → bytes_geb k start_key ≡ true
      → kv.view s k ≡ none
  sought s start_key k absent above = elim (Option-cases (kv.view s k)) [
    | inl missing ↦ missing
    | inr (v, there) ↦ absurd (
        let found =
          mem-has_key k v (scan.seek s start_key)
            ((scan.seek_lem s start_key k v).1 (there, above)) in
        cc)
  ]

  sought_above :
      (s : kv.State) (start_key k : Bytes)
      → has_key k (scan.seek s start_key) ≡ true
      → bytes_geb k start_key ≡ true
  sought_above s start_key k h =
      let (v, m) = has_key-mem k (scan.seek s start_key) h in
      ((scan.seek_lem s start_key k v).0 m).1

  deleted_lem :
      (l : List Pair) (s s' : kv.State) (k : Bytes)
      → deleted kv scan enc l s ≡ (ok tt, s')
      → kv.view s' k ≡ (if has_key k l then none else kv.view s k)
  unfolding has_key
  deleted_lem [] s s' k h = ap (λ (p : Result (Unit {0}) × kv.State). kv.view p.1 k) (sym h)
  deleted_lem (p ∷ l) s s' k h =
      kv.write_lem s s' (deletions (p ∷ l)) h k ∙ deletions-applied (p ∷ l) k (kv.view s k)

  range_lem :
      (s : kv.State) (start_key end_key k : Bytes)
      → (if has_key k (in_range end_key (scan.seek s start_key)) then none else kv.view s k)
        ≡ (if is_destroyed start_key end_key k then none else kv.view s k)
  range_lem s start_key end_key k =
      let split =
        has_key-in_range k end_key (scan.seek s start_key) (scan.seek-IsSorted s start_key) in
      elim (Bool-cases (has_key k (scan.seek s start_key))) [
        | inl found ↦ let above = sought_above s start_key k found in rw (split, found, above) refl
        | inr absent ↦ elim (Bool-cases (bytes_geb k start_key)) [
          | inr below ↦ rw (split, absent, below) refl
          | inl above ↦
              let missing = sought s start_key k absent above in
              rw (split, absent, missing) (ground arith)
        ]
      ]

-- Destroying a range without an error leaves nothing of a key that, as it stands in the database, is in the
-- range and does not start with a byte below 0x10, and leaves every other key as it was.
pub destroy_range_lem :
    (kv : Db) (scan : Scan kv) (enc : TaskEncodings) (start_key end_key : Bytes) (s s' : kv.State)
    → destroy_range kv scan enc start_key end_key s ≡ (ok tt, s')
    → (k : Bytes) → kv.view s' k ≡ (if is_destroyed start_key end_key k then none else kv.view s k)
unfolding destroy_range
destroy_range_lem kv scan enc start_key end_key s s' h k =
    deleted_lem kv scan enc (in_range end_key (scan.seek s start_key)) s s' k h
    ∙ range_lem kv scan enc s start_key end_key k
