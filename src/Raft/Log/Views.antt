-- ===== src/Raft/Log/Views.antt =====
-- What `unstable_entries` and `next_entries` hand out of a well-formed log.
use aegisdb_core.Prelude.{
  ℕ, zero, suc, ◌+◌, ◌-◌, ◌≤◌, ◌<◌, ◌≡◌, refl, ◌∙◌, ap, List, [], ◌∷◌, none, some, ok, panic, arith,
  min, get_elem?, get_elem?-lt, last?, slice, length, take, take_all, drop, length-drop, u64_mod,
  sub64-eq, add64-eq,
}
use aegisdb_core.Raft.Types.{Entry}
use aegisdb_core.Raft.Log.{
  RaftLog, last_index, first_index, unstable_entries, next_entries, offset_after, last_entry_index,
}
use aegisdb_core.Raft.Log.Shape.{
  Numbered, IsLog, Numbered-drop, Numbered-get, last_index_lem, last_index-entries,
}

pub slice_lem :
    {A : Type 0} (lo hi : ℕ) (xs : List A)
    → lo ≤ hi
    → hi ≤ length xs
    → slice lo hi xs ≡ ok (take (hi - lo) (drop lo xs))
slice_lem lo hi xs h k = ground arith

slice_panics : {A : Type 0} (lo hi : ℕ) (xs : List A) → length xs < hi → slice lo hi xs ≡ panic
slice_panics lo hi xs h = ground arith

-- The last element of `xs[lo..=lo + k]`.
last?-take-drop {ℓ} :
    {A : Type ℓ} (lo k : ℕ) (xs : List A)
    → lo + k < length xs
    → last? (take (suc k) (drop lo xs)) ≡ get_elem? xs (lo + k)
last?-take-drop zero zero [] h = absurd (omega arith)
last?-take-drop zero zero (x ∷ xs) h = refl
last?-take-drop zero (suc k) [] h = absurd (omega arith)
last?-take-drop zero (suc k) (x ∷ []) h = absurd (omega arith)
last?-take-drop zero (suc k) (x ∷ y ∷ xs) h =
    let e : 0 + suc k ≡ suc (0 + k) = omega arith in
    rw e (last?-take-drop zero k (y ∷ xs) (omega arith))
last?-take-drop (suc lo) k [] h = absurd (omega arith)
last?-take-drop (suc lo) k (x ∷ xs) h =
    let e : suc lo + k ≡ suc (lo + k) = omega arith in rw e (last?-take-drop lo k xs (omega arith))

module _ (l : RaftLog) (v : IsLog l) where
  offset_after_lem : (at : ℕ) → at < u64_mod - 1 → offset_after l at ≡ at + 1 - first_index l
  offset_after_lem at w =
      ground (arith, sub64-eq at (first_index l), add64-eq (at - first_index l) 1)

  below_end : (at : ℕ) → at ≤ last_index l → at < u64_mod - 1
  below_end at h = omega (arith, last_index_lem l v.row, v.fits)

  -- Of a well-formed log, `unstable_entries` is the entries from the one after `stabled` to the
  -- last, and does not panic.
  pub unstable_entries_lem :
      (unstable_entries l ≡ ok (drop (l.stabled + 1 - first_index l) l.entries))
      × Numbered (l.stabled + 1) (drop (l.stabled + 1 - first_index l) l.entries)
      × (l.stabled + length (drop (l.stabled + 1 - first_index l) l.entries) ≡ last_index l)
  unfolding unstable_entries
  unstable_entries_lem =
      let k : ℕ = l.stabled + 1 - first_index l in
      let end = last_index_lem l v.row in
      let len = length-drop k l.entries in
      (
        rw (offset_after_lem l.stabled (below_end l.stabled v.stabled_le)) (
            slice_lem k (length l.entries) l.entries (omega (arith, end, v.stabled_le))
              (omega arith)
            ∙ ap ok (take_all (length l.entries - k) (drop k l.entries) (omega (arith, len)))),
        (let at : first_index l + k ≡ l.stabled + 1 = omega (arith, v.stabled_ge) in
            rw at at (Numbered-drop (first_index l) k l.entries v.numbered)),
        omega (arith, len, end, v.stabled_le, v.stabled_ge),
      )

  next_entries-slice :
      next_entries l
      ≡ slice
          (l.applied + 1 - first_index l)
          (min (l.committed + 1 - first_index l) (length l.entries) + 1)
          l.entries
  unfolding next_entries
  next_entries-slice =
      let fits = below_end l.committed v.committed_le in
      rw
        (
          offset_after_lem l.applied (omega (arith, fits, v.applied_le)),
          offset_after_lem l.committed fits,
        )
        refl

  -- The defect of `next_entries`: its inclusive range takes one entry too many. Where a well-formed
  -- log has entries behind the commit index and something to apply, the last entry handed out is the
  -- one after the commit index, which is not committed.
  pub next_entries_beyond_commit :
      l.applied < l.committed
      → l.committed < last_index l
      → (es : List Entry) × (e : Entry) × (next_entries l ≡ ok es)
        × (last? es ≡ some e)
        × (e.index ≡ l.committed + 1)
  next_entries_beyond_commit p q =
      let end = last_index_lem l v.row in
      let lo : ℕ = l.applied + 1 - first_index l in
      let k : ℕ = l.committed + 1 - first_index l - lo in
      let hi : min (l.committed + 1 - first_index l) (length l.entries) + 1 ≡ lo + suc k =
        omega (arith, end, v.committed_ge) in
      let width : lo + suc k - lo ≡ suc k = omega arith in
      let inside : lo + suc k ≤ length l.entries = omega (arith, end, v.committed_ge) in
      let (e, get) = get_elem?-lt l.entries (lo + k) (omega arith) in
      (
        take (suc k) (drop lo l.entries),
        e,
        next_entries-slice
            ∙ rw hi (
                slice_lem lo (lo + suc k) l.entries (omega arith) inside
                ∙ ap (λ n. ok (take n (drop lo l.entries))) width),
        last?-take-drop lo k l.entries (omega arith) ∙ get,
        omega (
          arith,
          Numbered-get (first_index l) (lo + k) l.entries e v.numbered get,
          v.committed_ge,
        ),
      )

  -- Where all entries of a well-formed log are committed, the inclusive range of `next_entries` ends
  -- outside the vector, and the call panics.
  pub next_entries_all_committed : l.committed ≡ last_index l → next_entries l ≡ panic
  next_entries_all_committed p =
      let end = last_index_lem l v.row in
      next_entries-slice ∙ slice_panics _ _ l.entries (omega (arith, end, p))

last_entry_index_self :
    (es : List Entry) (stabled : ℕ)
    → last_entry_index es (last_entry_index es stabled) ≡ last_entry_index es stabled
unfolding last_entry_index
last_entry_index_self [] stabled = refl
last_entry_index_self (e ∷ es) stabled = ground arith

-- The last index stays when everything is stable.
pub last_index-stabled :
    (l : RaftLog)
    → l.pending_snapshot ≡ none
    → last_index (record l { stabled = last_index l }) ≡ last_index l
last_index-stabled l h =
    let last = last_index-entries l h in
    last_index-entries (record l { stabled = last_index l }) h
    ∙ rw last (last_entry_index_self l.entries l.stabled)
