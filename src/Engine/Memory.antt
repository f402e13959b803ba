-- ===== src/Engine/Memory.antt =====
-- Concrete parameters for src/engine_util and src/storage: a database that holds one key and refuses every
-- other write, its iterator, and a cache that never evicts.
use aegisdb_core.Prelude.{
  ◌≡◌, ◌≢◌, refl, sym, ap, subst, ◌∙◌, inl, inr, Bool, true, false, ◌&&◌, List, [], ◌∷◌, Option,
  none, some, Result, ok, err, if◌then◌else◌, Bool-cases, arith,
}
use aegisdb_core.Prelude.Assoc.{Assoc, lookup, insert, remove, lookup-insert, lookup-remove}
use aegisdb_core.Prelude.Bytes.{Bytes, bytes_beq, bytes_beq_iff, bytes_eq}
use aegisdb_core.Prelude.Order.{bytes_geb}
use aegisdb_core.Engine.{BatchEntry, put, delete, applied, Db}
use aegisdb_core.Engine.Standalone.{Cache}
use aegisdb_core.RaftStore.RegionTask.{Pair, Scan, key_before}
use aegisdb_core.Scheduler.Sorting.{IsSorted}
use mathlib.Core.List.{Memᴰ}

abbrev entry_key : BatchEntry → Bytes
entry_key (put k v) = k
entry_key (delete k) = k

abbrev all_at : Bytes → List BatchEntry → Bool
all_at cell [] = true
all_at cell (e ∷ es) = bytes_beq (entry_key e) cell && all_at cell es

abbrev pub cell_view : Bytes → Option Bytes → Bytes → Option Bytes
cell_view cell s k = if bytes_beq cell k then s else none

abbrev cell_write : Bytes → Option Bytes → List BatchEntry → Result (Unit {0}) × Option Bytes
cell_write cell s es = if all_at cell es then (ok tt, applied es cell s) else (err "no such key", s)

applied-other :
    (cell k : Bytes) (es : List BatchEntry) (before : Option Bytes)
    → all_at cell es ≡ true
    → bytes_beq cell k ≡ false
    → applied es k before ≡ before
unfolding applied
applied-other cell k [] before at other = refl
applied-other cell k (put j v ∷ es) before at other =
    let ih = applied-other cell k es before in
    ground (arith, bytes_beq_iff j cell, bytes_beq_iff j k, bytes_beq_iff cell k, ih)
applied-other cell k (delete j ∷ es) before at other =
    let ih = applied-other cell k es before in
    ground (arith, bytes_beq_iff j cell, bytes_beq_iff j k, bytes_beq_iff cell k, ih)

written_cell :
    (cell : Bytes) (s s' : Option Bytes) (es : List BatchEntry)
    → cell_write cell s es ≡ (ok tt, s')
    → (all_at cell es ≡ true) × (s' ≡ applied es cell s)
written_cell cell s s' es h = ground arith

pub cell_write_lem :
    (cell : Bytes) (s s' : Option Bytes) (es : List BatchEntry)
    → cell_write cell s es ≡ (ok tt, s')
    → (k : Bytes) → cell_view cell s' k ≡ applied es k (cell_view cell s k)
cell_write_lem cell s s' es h k =
    let (at, result) = written_cell cell s s' es h in
    elim (Bool-cases (bytes_beq cell k)) [
      | inl same ↦
          let e = (bytes_beq_iff cell k).0 same in rw same (result ∙ ap (λ j. applied es j s) e)
      | inr other ↦ rw other (sym (applied-other cell k es none at other))
    ]

pub cell_get_lem :
    (cell : Bytes) (s : Option Bytes) (k : Bytes) (v : Option Bytes)
    → ◌≡◌ {A = Result (Option Bytes)} (ok (cell_view cell s k)) (ok v)
    → v ≡ cell_view cell s k
cell_get_lem cell s k v h = cc

abbrev pub cell_db : Bytes → Db
cell_db cell = record {
  State = Option Bytes;
  view = cell_view cell;
  get = λ s k. ok (cell_view cell s k);
  write = cell_write cell;
  get_lem = cell_get_lem cell;
  write_lem = cell_write_lem cell;
}

abbrev cell_items : Bytes → Option Bytes → List Pair
cell_items cell none = []
cell_items cell (some v) = (cell, v) ∷ []

abbrev cell_seek : Bytes → Option Bytes → Bytes → List Pair
cell_seek cell s start = if bytes_geb cell start then cell_items cell s else []

item_seen :
    (cell : Bytes) (s : Option Bytes) (start k v : Bytes)
    → bytes_geb cell start ≡ true
    → Memᴰ (k, v) (cell_items cell s)
    → (cell_view cell s k ≡ some v) × (bytes_geb k start ≡ true)
item_seen cell none start k v above m = elim m [ ]
item_seen cell (some w) start k v above (Memᴰ.head e) =
    let same = (bytes_beq_iff cell k).1 (sym (ap (λ (p : Pair). p.0) e)) in
    let key = (bytes_beq_iff cell k).0 same in
    (
      rw same (ap some (sym (ap (λ (p : Pair). p.1) e))),
      subst (λ t. bytes_geb t start ≡ true) key above,
    )
item_seen cell (some w) start k v above (Memᴰ.tail m) = elim m [ ]

pub seek_to :
    (cell : Bytes) (s : Option Bytes) (start k v : Bytes)
    → Memᴰ (k, v) (cell_seek cell s start)
    → (cell_view cell s k ≡ some v) × (bytes_geb k start ≡ true)
seek_to cell s start k v m = elim (Bool-cases (bytes_geb cell start)) [
  | inr below ↦ absurd (elim (rw below at m) [ ])
  | inl above ↦ item_seen cell s start k v above (rw above at m)
]

pub seek_from :
    (cell : Bytes) (s : Option Bytes) (start k v : Bytes)
    → cell_view cell s k ≡ some v
    → bytes_geb k start ≡ true
    → Memᴰ (k, v) (cell_seek cell s start)
seek_from cell none start k v e above = absurd (ground arith)
seek_from cell (some w) start k v e above = elim (Bool-cases (bytes_beq cell k)) [
  | inr other ↦ absurd (ground (arith, other))
  | inl same ↦
      let key = (bytes_beq_iff cell k).0 same in
      let value : w ≡ v = ground (arith, same) in
      let here = subst (λ t. bytes_geb t start ≡ true) (sym key) above in
      rw here (Memᴰ.head (λ i. (sym key i, sym value i)))
]

pub cell-IsSorted :
    (cell : Bytes) (s : Option Bytes) (start : Bytes) → IsSorted key_before (cell_seek cell s start)
cell-IsSorted cell none start = elim (Bool-cases (bytes_geb cell start)) [
  | inl above ↦ rw above tt
  | inr below ↦ rw below tt
]
cell-IsSorted cell (some v) start = elim (Bool-cases (bytes_geb cell start)) [
  | inl above ↦ rw above (tt, tt)
  | inr below ↦ rw below tt
]

abbrev pub cell_scan : (cell : Bytes) → Scan (cell_db cell)
cell_scan cell = record {
  seek = cell_seek cell;
  seek_lem = λ s start k v. (seek_to cell s start k v, λ p. seek_from cell s start k v p.0 p.1);
  seek-IsSorted = cell-IsSorted cell;
}

pub peek-insert_other :
    (c : Assoc Bytes Bytes) (k v j w : Bytes)
    → k ≢ j
    → lookup j (insert k v c) ≡ some w
    → lookup j c ≡ some w
peek-insert_other c k v j w ne h = ground (arith, lookup-insert k j v c, bytes_beq_iff k j)

pub peek-remove :
    (c : Assoc Bytes Bytes) (k j w : Bytes)
    → lookup j (remove k c) ≡ some w
    → (k ≢ j) × (lookup j c ≡ some w)
peek-remove c k j w h = elim (Bool-cases (bytes_beq k j)) [
  | inl same ↦ absurd (ground (arith, lookup-remove k j c, same))
  | inr other ↦ (
    (λ e. (let same = (bytes_beq_iff k j).1 e in cc)),
    ground (arith, lookup-remove k j c, other),
  )
]

pub peek-insert : (c : Assoc Bytes Bytes) (k v : Bytes) → lookup k (insert k v c) ≡ some v
peek-insert c k v =
    let same = (bytes_beq_iff k k).1 refl in ground (arith, lookup-insert k k v c, same)

pub peek_empty : (k : Bytes) → lookup {V = Bytes} k [] ≡ none
unfolding lookup
peek_empty k = refl

abbrev pub map_cache : Cache
map_cache = record {
  State = Assoc Bytes Bytes;
  empty = [];
  peek = λ c k. lookup k c;
  put = insert;
  pop = remove;
  peek-empty = peek_empty;
  peek-put_own = peek-insert;
  peek-put_other = peek-insert_other;
  peek-pop = peek-remove;
}
