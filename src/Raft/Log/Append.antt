-- ===== src/Raft/Log/Append.antt =====
-- What `append` does to a well-formed log.
use aegisdb_core.Prelude.{
  ℕ, zero, suc, ◌+◌, ◌-◌, ◌≤◌, ◌<◌, ◌≡◌, refl, sym, ◌∙◌, List, [], ◌∷◌, ◌++◌, ok, arith, ltb,
  Bool-cases, inl, inr, length, take, take_all, length-take, length-append, u64_mod, sub64-eq,
}
use aegisdb_core.Raft.Types.{Entry}
use aegisdb_core.Raft.Log.{RaftLog, last_index, first_index, first_entry_index, append, truncated}
use aegisdb_core.Raft.Log.Shape.{
  Numbered, IsRow, IsLog, Numbered-append, Numbered-take, last_index_lem, first_index-entries,
}

-- New entries that fit the log: above its commit index, with no gap, and where an old entry is
-- overwritten, above the first entry in memory.
pub record Fits (l : RaftLog) (e : Entry) (es : List Entry) : Type 0 where
  pub numbered : Numbered e.index (e ∷ es)
  pub above : l.committed < e.index
  pub from_first : first_index l ≤ e.index
  pub no_gap : e.index ≤ last_index l + 1
  pub keeps_first : e.index ≡ first_index l → l.entries ≡ []
  pub word : e.index + length es + 1 < u64_mod

-- The log with the entries from `e` on replaced.
abbrev pub replaced : RaftLog → Entry → List Entry → RaftLog
replaced l e es = record l { entries = take (e.index - first_index l) l.entries ++ (e ∷ es) }

truncated_lem :
    (l : RaftLog) (at : ℕ)
    → first_index l ≤ at
    → at < u64_mod
    → (at ≡ first_index l → l.entries ≡ [])
    → truncated l at ≡ take (at - first_index l) l.entries
unfolding truncated
truncated_lem l at h w k = elim (Bool-cases (ltb (first_index l) at)) [
  | inr e ↦ let same : at ≡ first_index l = ground arith in rw (k same) (ground arith)
  | inl e ↦
      rw (e, sub64-eq at (first_index l) h w)
        (ground (arith, take_all (at - first_index l) l.entries))
]

pub append_lem :
    (l : RaftLog) (e : Entry) (es : List Entry)
    → Fits l e es
    → append l (e ∷ es) ≡ ok (replaced l e es)
unfolding append
append_lem l e es f =
    let w : e.index < u64_mod = omega (arith, f.word) in
    ground (arith, f.above, truncated_lem l e.index f.from_first w f.keeps_first)

first_index-take :
    (xs : List Entry) (k stabled : ℕ) (e : Entry) (es : List Entry)
    → first_entry_index xs stabled + k ≡ e.index
    → k ≤ length xs
    → (k ≡ 0 → xs ≡ [])
    → first_entry_index (take k xs ++ (e ∷ es)) stabled ≡ first_entry_index xs stabled
unfolding first_entry_index
first_index-take [] zero stabled e es p h k = omega arith
first_index-take [] (suc n) stabled e es p h k = absurd (omega arith)
first_index-take (x ∷ xs) zero stabled e es p h k = cc (k refl)
first_index-take (x ∷ xs) (suc n) stabled e es p h k = refl

module _ (l : RaftLog) (e : Entry) (es : List Entry) (v : IsRow l) (f : Fits l e es) where
  offset-le : e.index - first_index l ≤ length l.entries
  offset-le = omega (arith, last_index_lem l v, f.no_gap)

  pub first_index-replaced : first_index (replaced l e es) ≡ first_index l
  first_index-replaced =
      let eq = first_index-entries l v.settled in
      first_index-entries (replaced l e es) v.settled
      ∙ first_index-take l.entries (e.index - first_index l) l.stabled e es
          (omega (arith, eq, f.from_first)) offset-le
          (λ z. f.keeps_first (omega (arith, f.from_first)))
      ∙ sym eq

  length-replaced : first_index l + length (replaced l e es).entries ≡ e.index + length es + 1
  length-replaced = omega (
    arith,
    length-append (take (e.index - first_index l) l.entries) (e ∷ es),
    length-take (e.index - first_index l) l.entries,
    offset-le,
    f.from_first,
  )

  replaced-Numbered : Numbered (first_index l) (replaced l e es).entries
  replaced-Numbered =
      Numbered-append (first_index l) (take (e.index - first_index l) l.entries) (e ∷ es)
        (Numbered-take (first_index l) (e.index - first_index l) l.entries v.numbered)
        (let at : first_index l + length (take (e.index - first_index l) l.entries) ≡ e.index =
            omega
              (arith, length-take (e.index - first_index l) l.entries, offset-le, f.from_first) in
          rw at f.numbered)

  pub replaced-IsRow : IsRow (replaced l e es)
  replaced-IsRow = record {
    settled = v.settled;
    numbered = rw first_index-replaced replaced-Numbered;
    from_one = rw first_index-replaced v.from_one;
    fits = omega (arith, first_index-replaced, length-replaced, f.word);
    word = v.word;
  }

  -- The log ends with the new entries.
  pub last_index-replaced : last_index (replaced l e es) ≡ e.index + length es
  last_index-replaced = omega (
    arith,
    last_index_lem (replaced l e es) replaced-IsRow,
    first_index-replaced,
    length-replaced,
  )

-- Appending consecutive entries to a well-formed log, the first of them above `stabled` and the
-- commit index and at most one behind the last, succeeds, keeps the entries below the new ones and
-- puts the new ones behind them, and gives a well-formed log that ends with the new entries.
pub append-IsLog :
    (l : RaftLog) (e : Entry) (es : List Entry)
    → IsLog l
    → Fits l e es
    → l.stabled < e.index
    → (append l (e ∷ es) ≡ ok (replaced l e es))
      × IsLog (replaced l e es)
      × (last_index (replaced l e es) ≡ e.index + length es)
append-IsLog l e es v f s =
    let first = first_index-replaced l e es v.row f in
    let last = last_index-replaced l e es v.row f in
    (
      append_lem l e es f,
      record {
        row = replaced-IsRow l e es v.row f;
        applied_le = v.applied_le;
        committed_le = omega (arith, last, f.above);
        committed_ge = omega (arith, first, v.committed_ge);
        stabled_le = omega (arith, last);
        stabled_ge = omega (arith, first, v.stabled_ge);
      },
      last,
    )
