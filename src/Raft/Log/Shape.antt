-- ===== src/Raft/Log/Shape.antt =====
-- The well-formed logs: entries numbered without a gap, and the positions in order.
use aegisdb_core.Prelude.{
  ℕ, zero, suc, ◌+◌, ◌≤◌, ◌<◌, ◌≡◌, refl, List, [], ◌∷◌, ◌++◌, none, some, arith, length, get_elem?,
  take, drop, last?, u64_mod, add64,
}
use aegisdb_core.Raft.Types.{Entry}
use aegisdb_core.Raft.Log.{RaftLog, last_index, first_index, last_entry_index, first_entry_index}

-- The entries have the indices `i`, `i + 1`, …
abbrev pub Numbered : ℕ → List Entry → Type 0
Numbered i [] = Unit {0}
Numbered i (e ∷ es) = (e.index ≡ i) × Numbered (suc i) es

-- The entries stand in a row from the first index, and no snapshot waits.
pub record IsRow (l : RaftLog) : Type 0 where
  pub settled : l.pending_snapshot ≡ none
  pub numbered : Numbered (first_index l) l.entries
  pub from_one : 1 ≤ first_index l
  pub fits : first_index l + length l.entries < u64_mod
  pub word : l.stabled < u64_mod

pub record IsLog (l : RaftLog) : Type 0 where
  pub row : IsRow l
  pub open row use *
  pub applied_le : l.applied ≤ l.committed
  pub committed_le : l.committed ≤ last_index l
  pub committed_ge : first_index l ≤ l.committed + 1
  pub stabled_le : l.stabled ≤ last_index l
  pub stabled_ge : first_index l ≤ l.stabled + 1

pub Numbered-get :
    (i k : ℕ) (es : List Entry) (e : Entry)
    → Numbered i es
    → get_elem? es k ≡ some e
    → e.index ≡ i + k
Numbered-get i k [] e n h = cc
Numbered-get i zero (x ∷ es) e n h = ground arith
Numbered-get i (suc k) (x ∷ es) e n h = omega (arith, Numbered-get (suc i) k es e n.1 h)

pub Numbered-append :
    (i : ℕ) (xs ys : List Entry)
    → Numbered i xs
    → Numbered (i + length xs) ys
    → Numbered i (xs ++ ys)
Numbered-append i [] ys n m = let e : i + 0 ≡ i = omega arith in ground (arith, e)
Numbered-append i (x ∷ xs) ys n m =
    let e : i + suc (length xs) ≡ suc i + length xs = omega arith in
    (n.0, Numbered-append (suc i) xs ys n.1 (rw e at m))

pub Numbered-take : (i k : ℕ) (es : List Entry) → Numbered i es → Numbered i (take k es)
Numbered-take i zero es n = tt
Numbered-take i (suc k) [] n = tt
Numbered-take i (suc k) (e ∷ es) n = (n.0, Numbered-take (suc i) k es n.1)

pub Numbered-drop : (i k : ℕ) (es : List Entry) → Numbered i es → Numbered (i + k) (drop k es)
Numbered-drop i zero es n = let e : i + 0 ≡ i = omega arith in rw e n
Numbered-drop i (suc k) [] n = tt
Numbered-drop i (suc k) (x ∷ es) n =
    let e : i + suc k ≡ suc i + k = omega arith in rw e (Numbered-drop (suc i) k es n.1)

pub Numbered-last :
    (i : ℕ) (e : Entry) (es : List Entry)
    → Numbered i (e ∷ es)
    → (x : Entry) × (last? (e ∷ es) ≡ some x) × (x.index ≡ i + length es)
Numbered-last i e [] n = (e, refl, omega arith)
Numbered-last i e (y ∷ es) n = let (x, p, q) = Numbered-last (suc i) y es n.1 in (x, p, omega arith)

pub last_index-entries :
    (l : RaftLog) → l.pending_snapshot ≡ none → last_index l ≡ last_entry_index l.entries l.stabled
unfolding last_index
last_index-entries l h = rw (h, last_index)

pub first_index-entries :
    (l : RaftLog)
    → l.pending_snapshot ≡ none
    → first_index l ≡ first_entry_index l.entries l.stabled
unfolding first_index
first_index-entries l h = rw (h, first_index)

entries_end :
    (es : List Entry) (stabled : ℕ)
    → stabled < u64_mod
    → 1 ≤ first_entry_index es stabled
    → Numbered (first_entry_index es stabled) es
    → last_entry_index es stabled + 1 ≡ first_entry_index es stabled + length es
unfolding last_entry_index first_entry_index add64
entries_end [] stabled w h n = omega arith
entries_end (e ∷ es) stabled w h n =
    let (x, p, q) = Numbered-last e.index e es n in rw (p, last_entry_index) (omega arith)

-- The entries end at the last index.
pub last_index_lem : (l : RaftLog) → IsRow l → last_index l + 1 ≡ first_index l + length l.entries
last_index_lem l v =
    let f = first_index-entries l v.settled in
    rw (last_index-entries l v.settled, f)
      (entries_end l.entries l.stabled v.word (rw f at (v.from_one)) (rw f at (v.numbered)))
