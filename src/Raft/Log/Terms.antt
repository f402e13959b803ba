-- ===== src/Raft/Log/Terms.antt =====
-- The terms that a log knows, of its entries and of a snapshot.
use aegisdb_core.Prelude.{
  ℕ, zero, suc, ◌+◌, ◌-◌, ◌≤◌, ◌<◌, ◌≡◌, refl, ◌∙◌, ap, List, [], ◌∷◌, none, some, ok, err, arith,
  get_elem?, get_elem?-lt, length, drop, length-drop, u64_mod, sub64-eq, add64-eq,
}
use aegisdb_core.Raft.Types.{Entry, Snapshot}
use aegisdb_core.Raft.Log.{
  RaftLog, last_index, first_index, term, term_sync, apply_snapshot, maybe_compact,
  first_entry_index,
}
use aegisdb_core.Raft.Log.Shape.{
  Numbered, IsRow, Numbered-drop, Numbered-get, last_index_lem, first_index-entries,
}

-- From the first index of a settled, gapless log to its last, `term_sync` and `term` agree, and give
-- the term of the entry with that index.
term_of_entry :
    (l : RaftLog) (i : ℕ)
    → IsRow l
    → first_index l ≤ i
    → i ≤ last_index l
    → (e : Entry) × (get_elem? l.entries (i - first_index l) ≡ some e)
      × (e.index ≡ i)
      × (term_sync l i ≡ some e.term)
      × (term l i ≡ ok e.term)
unfolding term term_sync
term_of_entry l i v h k =
    let end = last_index_lem l v in
    let at = sub64-eq i (first_index l) h (omega (arith, v.fits, end)) in
    let below = sub64-eq (first_index l) 1 v.from_one (omega (arith, v.fits)) in
    let (e, get) = get_elem?-lt l.entries (i - first_index l) (omega (arith, end)) in
    (
      e,
      get,
      omega (arith, Numbered-get (first_index l) (i - first_index l) l.entries e v.numbered get),
      ground (arith, at, get, below, v.from_one),
      ground (arith, at, get, below, v.from_one),
    )

-- Right after a snapshot above the commit index is installed, its index is the last of the log, but
-- `term_sync` finds no term for it and `term` returns an error.
snapshot_term_lost :
    (l : RaftLog) (s : Snapshot)
    → l.committed < s.metadata.index
    → s.metadata.index + 1 < u64_mod
    → (l' : RaftLog) × (apply_snapshot l s ≡ ok l')
      × (last_index l' ≡ s.metadata.index)
      × (term_sync l' s.metadata.index ≡ none)
      × (term l' s.metadata.index ≡ err "index < first")
unfolding apply_snapshot term term_sync last_index first_index
snapshot_term_lost l s h w =
    let a = s.metadata.index in
    let next = add64-eq a 1 w in
    (
      record l { pending_snapshot = some s; committed = a; applied = a; stabled = a; entries = [] },
      ground arith,
      ground arith,
      ground (arith, next),
      ground (arith, next),
    )

Numbered-first :
    (i stabled : ℕ) (es : List Entry)
    → Numbered i es
    → 0 < length es
    → first_entry_index es stabled ≡ i
unfolding first_entry_index
Numbered-first i stabled [] n h = absurd (omega arith)
Numbered-first i stabled (e ∷ es) n h = n.0

get_elem?-drop : (k j : ℕ) (es : List Entry) → get_elem? (drop k es) j ≡ get_elem? es (k + j)
get_elem?-drop zero j es = ap (get_elem? es) (omega arith)
get_elem?-drop (suc k) j [] = refl
get_elem?-drop (suc k) j (x ∷ es) =
    let e : suc k + j ≡ suc (k + j) = omega arith in rw e (get_elem?-drop k j es)

-- The log without the entries up to `i`.
abbrev pub compacted : RaftLog → ℕ → RaftLog
compacted l i = record l { entries = drop (i + 1 - first_index l) l.entries }

module _ (l : RaftLog) (i : ℕ) (v : IsRow l) (h : first_index l < i) (k : i < last_index l) where
  compact_lem : maybe_compact l i ≡ ok (compacted l i)
  unfolding maybe_compact
  compact_lem =
      let end = last_index_lem l v in
      let a = sub64-eq i (first_index l) (omega arith) (omega (arith, v.fits)) in
      let b = add64-eq (i - first_index l) 1 (omega (arith, v.fits)) in
      let c : i - first_index l + 1 ≡ i + 1 - first_index l = omega arith in
      ground (arith, a, b, c, end)

  compact-Numbered : Numbered (i + 1) (compacted l i).entries
  compact-Numbered =
      let at : first_index l + (i + 1 - first_index l) ≡ i + 1 = omega arith in
      rw at at (Numbered-drop (first_index l) (i + 1 - first_index l) l.entries v.numbered)

  compact-length : i + 1 + length (compacted l i).entries ≡ last_index l + 1
  compact-length = omega (arith, last_index_lem l v, length-drop (i + 1 - first_index l) l.entries)

  compact-first : first_index (compacted l i) ≡ i + 1
  compact-first =
      first_index-entries (compacted l i) v.settled
      ∙ Numbered-first (i + 1) l.stabled (compacted l i).entries compact-Numbered
          (omega (arith, compact-length))

  compact-IsRow : IsRow (compacted l i)
  compact-IsRow = record {
    settled = v.settled;
    numbered = rw compact-first compact-Numbered;
    from_one = omega (arith, compact-first);
    fits = omega (arith, compact-first, compact-length, last_index_lem l v, v.fits);
    word = v.word;
  }

  compact-last : last_index (compacted l i) ≡ last_index l
  compact-last =
      omega (arith, last_index_lem (compacted l i) compact-IsRow, compact-first, compact-length)

-- Compacting a settled, gapless log at an index that lies strictly between its first and last
-- succeeds: the entries up to that index are gone, the rest is gapless, and the term of every later
-- index stays.
maybe_compact_lem :
    (l : RaftLog) (i j : ℕ)
    → IsRow l
    → first_index l < i
    → i < last_index l
    → i < j
    → j ≤ last_index l
    → (maybe_compact l i ≡ ok (compacted l i))
      × IsRow (compacted l i)
      × (first_index (compacted l i) ≡ i + 1)
      × (last_index (compacted l i) ≡ last_index l)
      × (term_sync (compacted l i) j ≡ term_sync l j)
maybe_compact_lem l i j v h k p q =
    let first = compact-first l i v h k in
    let last = compact-last l i v h k in
    let row = compact-IsRow l i v h k in
    let old = term_of_entry l j v (omega arith) q in
    let new = term_of_entry (compacted l i) j row (omega (arith, first)) (omega (arith, last)) in
    let moved =
      get_elem?-drop (i + 1 - first_index l) (j - first_index (compacted l i)) l.entries in
    let at : i + 1 - first_index l + (j - first_index (compacted l i)) ≡ j - first_index l =
      omega (arith, first) in
    (compact_lem l i v h k, row, first, last, ground (arith, old.1, new.1, moved, at, old.3, new.3))
