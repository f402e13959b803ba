-- ===== src/Pd/Ids.antt =====
-- src/pd/state.rs and id_allocator.rs: the numbers given out for splits.
use aegisdb_core.Prelude.{
  ℕ, ◌+◌, ◌*◌, ◌<◌, List, [], ◌∷◌, ◌++◌, some, Result, ok, err, panic, length, arith, add64-eq,
  u64_mod, add64,
}
use aegisdb_core.Pd.{PdState, ask_split}
use aegisdb_core.Scheduler.Region.{Region}

abbrev numbers : Result (ℕ × List ℕ) → List ℕ
numbers (ok (region_id, peer_ids)) = region_id ∷ peer_ids
numbers (err e) = []
numbers panic = []

-- The numbers given for a sequence of splits, in order.
pub asked : List Region → PdState → List ℕ
asked [] s = []
asked (r ∷ rs) s = numbers (ask_split (some r) s).0 ++ asked rs (ask_split (some r) s).1

-- Each number is above the one before it.
abbrev pub IsAbove : ℕ → List ℕ → Type 0
IsAbove lo [] = Unit
IsAbove lo (n ∷ ns) = (lo < n) × IsAbove n ns

-- The numbers given for any sequence of splits grow, so no two of them are the same and none was given
-- before, as long as the counter stays below 2^64.
pub asked-IsAbove :
    (rs : List Region) (s : PdState)
    → s.counter + 2 * length rs < u64_mod
    → IsAbove s.counter (asked rs s)
unfolding asked ask_split
asked-IsAbove [] s h = tt
asked-IsAbove (r ∷ rs) s h =
    let first = add64-eq s.counter 1 (omega arith) in
    let second = add64-eq (add64 s.counter 1) 1 (omega (arith, first)) in
    let last = add64 (add64 s.counter 1) 1 in
    (
      omega (arith, first),
      (
        omega (arith, second),
        asked-IsAbove rs (record s { counter = last }) (omega (arith, first, second)),
      ),
    )
