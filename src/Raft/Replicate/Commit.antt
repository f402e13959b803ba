-- ===== src/Raft/Replicate/Commit.antt =====
-- When the leader commits.
use mathlib.Core.List.{reverse, reverse-cons}
use aegisdb_core.Prelude.{
  ℕ, zero, suc, ◌+◌, ◌-◌, ◌*◌, ◌≤◌, ◌<◌, ◌≡◌, refl, ap, ◌∙◌, ◌⊎◌, Bool-cases, Option-cases, List,
  [], ◌∷◌, ◌++◌, some, ok, arith, inl, inr, true, if◌then◌else◌, leb, All, length, get_elem?,
}
use aegisdb_core.Prelude.Assoc.{values}
use aegisdb_core.Raft.Types.{leader}
use aegisdb_core.Raft.State.{Raft, Outcome, done, Mode, quorum, is_leader, checked_term}
use aegisdb_core.Raft.Replicate.{
  insert_sorted, sort, matches, match_indices, commit_to, maybe_commit,
}

-- How many of the numbers are at least `c`.
abbrev pub count_ge : ℕ → List ℕ → ℕ
count_ge c [] = 0
count_ge c (x ∷ xs) = let rest = count_ge c xs in if leb c x then suc rest else rest

-- How many peers are known to hold the log up to `index`.
abbrev pub acknowledged : ℕ → Raft → ℕ
acknowledged index r = count_ge index (match_indices (values r.prs))

abbrev Ascending : List ℕ → Type 0
Ascending [] = Unit {0}
Ascending (x ∷ xs) = All (λ y. x ≤ y) xs × Ascending xs

abbrev Descending : List ℕ → Type 0
Descending [] = Unit {0}
Descending (x ∷ xs) = All (λ y. y ≤ x) xs × Descending xs

insert_sorted-All :
    (b a : ℕ) (xs : List ℕ) → b ≤ a → All (λ y. b ≤ y) xs → All (λ y. b ≤ y) (insert_sorted a xs)
unfolding insert_sorted
insert_sorted-All b a [] h k = (h, tt)
insert_sorted-All b a (x ∷ xs) h k = ground (arith, insert_sorted-All b a xs h k.1)

All-le : (a b : ℕ) (xs : List ℕ) → a ≤ b → All (λ y. b ≤ y) xs → All (λ y. a ≤ y) xs
All-le a b [] h k = tt
All-le a b (x ∷ xs) h k = (omega arith, All-le a b xs h k.1)

insert_sorted-Ascending : (a : ℕ) (xs : List ℕ) → Ascending xs → Ascending (insert_sorted a xs)
unfolding insert_sorted
insert_sorted-Ascending a [] h = (tt, tt)
insert_sorted-Ascending a (x ∷ xs) h =
    ground (arith, All-le a x xs, insert_sorted-All x a xs, insert_sorted-Ascending a xs h.1)

sort-Ascending : (xs : List ℕ) → Ascending (sort xs)
unfolding sort
sort-Ascending [] = tt
sort-Ascending (x ∷ xs) = insert_sorted-Ascending x (sort xs) (sort-Ascending xs)

count_ge-insert : (c a : ℕ) (xs : List ℕ) → count_ge c (insert_sorted a xs) ≡ count_ge c (a ∷ xs)
unfolding insert_sorted
count_ge-insert c a [] = refl
count_ge-insert c a (x ∷ xs) = ground (arith, count_ge-insert c a xs)

count_ge-sort : (c : ℕ) (xs : List ℕ) → count_ge c (sort xs) ≡ count_ge c xs
unfolding sort
count_ge-sort c [] = refl
count_ge-sort c (x ∷ xs) = ground (arith, count_ge-insert c x (sort xs), count_ge-sort c xs)

count_ge-snoc : (c a : ℕ) (xs : List ℕ) → count_ge c (xs ++ a ∷ []) ≡ count_ge c (a ∷ xs)
count_ge-snoc c a [] = refl
count_ge-snoc c a (x ∷ xs) = ground (arith, count_ge-snoc c a xs)

count_ge-reverse : (c : ℕ) (xs : List ℕ) → count_ge c (reverse xs) ≡ count_ge c xs
count_ge-reverse c [] = refl
count_ge-reverse c (x ∷ xs) =
    rw (reverse-cons x xs, count_ge-snoc c x (reverse xs)) (ground (arith, count_ge-reverse c xs))

All-snoc : (a b : ℕ) (xs : List ℕ) → a ≤ b → All (λ y. a ≤ y) xs → All (λ y. a ≤ y) (xs ++ b ∷ [])
All-snoc a b [] h k = (h, tt)
All-snoc a b (x ∷ xs) h k = (k.0, All-snoc a b xs h k.1)

All-reverse : (a : ℕ) (xs : List ℕ) → All (λ y. a ≤ y) xs → All (λ y. a ≤ y) (reverse xs)
All-reverse a [] h = tt
All-reverse a (x ∷ xs) h =
    rw (reverse-cons x xs) (All-snoc a x (reverse xs) h.0 (All-reverse a xs h.1))

le_snoc : (x a : ℕ) (xs : List ℕ) → a ≤ x → All (λ y. y ≤ x) xs → All (λ y. y ≤ x) (xs ++ a ∷ [])
le_snoc x a [] h k = (h, tt)
le_snoc x a (y ∷ xs) h k = (k.0, le_snoc x a xs h k.1)

Descending-snoc :
    (a : ℕ) (xs : List ℕ) → All (λ y. a ≤ y) xs → Descending xs → Descending (xs ++ a ∷ [])
Descending-snoc a [] h k = (tt, tt)
Descending-snoc a (x ∷ xs) h k = (le_snoc x a xs h.0 k.0, Descending-snoc a xs h.1 k.1)

reverse-Descending : (xs : List ℕ) → Ascending xs → Descending (reverse xs)
reverse-Descending [] h = tt
reverse-Descending (x ∷ xs) h =
    rw (reverse-cons x xs)
      (Descending-snoc x (reverse xs) (All-reverse x xs h.0) (reverse-Descending xs h.1))

get_elem?-le : (b c k : ℕ) (xs : List ℕ) → All (λ y. y ≤ b) xs → get_elem? xs k ≡ some c → c ≤ b
get_elem?-le b c k [] h e = cc
get_elem?-le b c zero (x ∷ xs) h e = ground arith
get_elem?-le b c (suc k) (x ∷ xs) h e = get_elem?-le b c k xs h.1 e

-- At position `k` of a descending list stands a number that `k + 1` entries reach.
count_ge-get :
    (c k : ℕ) (xs : List ℕ) → Descending xs → get_elem? xs k ≡ some c → suc k ≤ count_ge c xs
count_ge-get c k [] h e = cc
count_ge-get c zero (x ∷ xs) h e = ground arith
count_ge-get c (suc k) (x ∷ xs) h e =
    ground (arith, get_elem?-le x c k xs h.0 e, count_ge-get c k xs h.1 e)

matches_count :
    (r : Raft) (index : ℕ)
    → get_elem? (matches r) (quorum r - 1) ≡ some index
    → quorum r ≤ acknowledged index r
unfolding matches
matches_count r index e =
    let ms = match_indices (values r.prs) in
    omega (
      arith,
      count_ge-get index (quorum r - 1) (reverse (sort ms))
          (reverse-Descending (sort ms) (sort-Ascending ms)) e,
      count_ge-reverse index (sort ms),
      count_ge-sort index ms,
    )

commit_cases :
    (mode : Mode) (r : Raft) (index : ℕ)
    → ((commit_to mode r index).1 ≡ r)
      ⊎ ((r.raft_log.committed < index)
          × (checked_term mode r.raft_log index ≡ ok r.term)
          × ((commit_to mode r index).1
              ≡ record r { raft_log = record (r.raft_log) { committed = index } }))
unfolding commit_to
commit_cases mode r index = ground arith

quorum_is_majority : (r : Raft) → length r.prs + 1 < 2 * quorum r
unfolding quorum
quorum_is_majority r = omega arith

is_leader→eq : (r : Raft) → is_leader r.state ≡ true → r.state ≡ leader
is_leader→eq r h = ground arith

maybe_commit_cases :
    (mode : Mode) (r : Raft)
    → (maybe_commit mode r ≡ done r)
      ⊎ ((index : ℕ) × (r.state ≡ leader)
          × (get_elem? (matches r) (quorum r - 1) ≡ some index)
          × (maybe_commit mode r ≡ commit_to mode r index))
unfolding maybe_commit
maybe_commit_cases mode r = elim (Bool-cases (is_leader r.state)) [
  | inr e ↦ inl (rw (e, maybe_commit) refl)
  | inl e ↦ elim (Bool-cases (leb (quorum r) (length (matches r)))) [
    | inr f ↦ inl (rw (e, f, maybe_commit) refl)
    | inl f ↦ elim (Option-cases (get_elem? (matches r) (quorum r - 1))) [
      | inl g ↦ inl (rw (e, f, g, maybe_commit) refl)
      | inr (index, g) ↦ inr (index, is_leader→eq r e, g, rw (e, f, g, maybe_commit) refl)
    ]
  ]
]

-- A move of the commit index, and of nothing else, from `r` to `r'`: to an entry of the leader's own term
-- that a quorum of its peers, which is more than half of the cluster, holds.
abbrev pub Commits : Mode → Raft → Raft → Type 0
Commits mode r r' =
    (index : ℕ) × (r.state ≡ leader)
    × (r.raft_log.committed < index)
    × (checked_term mode r.raft_log index ≡ ok r.term)
    × (quorum r ≤ acknowledged index r)
    × (length r.prs + 1 < 2 * acknowledged index r)
    × (r' ≡ record r { raft_log = record (r.raft_log) { committed = index } })

-- `maybe_commit` leaves the node as it is, or the node is a leader and only its commit index
-- changes: it moves forward, to an index with a term equal to the leader's, that a quorum of the
-- peers has acknowledged, and these peers alone are more than half of the cluster.
pub maybe_commit_lem :
    (mode : Mode) (r : Raft)
    → ((maybe_commit mode r).1 ≡ r) ⊎ Commits mode r (maybe_commit mode r).1
maybe_commit_lem mode r = elim (maybe_commit_cases mode r) [
  | inl e ↦ inl (ap (λ (o : Outcome). o.1) e)
  | inr (index, state, get, e) ↦ elim (commit_cases mode r index) [
    | inl same ↦ inl (ap (λ (o : Outcome). o.1) e ∙ same)
    | inr (above, t, moved) ↦
        let count = matches_count r index get in
        inr (
          index,
          state,
          above,
          t,
          count,
          omega (arith, count, quorum_is_majority r),
          ap (λ (o : Outcome). o.1) e ∙ moved,
        )
  ]
]

count_ge_mono : (a b : ℕ) (xs : List ℕ) → a ≤ b → count_ge b xs ≤ count_ge a xs
count_ge_mono a b [] h = omega arith
count_ge_mono a b (x ∷ xs) h = ground (arith, count_ge_mono a b xs h)

-- As long as fewer peers than a quorum have acknowledged the entry after the commit index,
-- `maybe_commit` changes nothing.
maybe_commit_needs_peers :
    (mode : Mode) (r : Raft)
    → acknowledged (r.raft_log.committed + 1) r < quorum r
    → (maybe_commit mode r).1 ≡ r
maybe_commit_needs_peers mode r h = elim (maybe_commit_lem mode r) [
  | inl same ↦ same
  | inr (index, _, above, _, count, _, _) ↦ absurd (
      omega (
        arith,
        count_ge_mono (r.raft_log.committed + 1) index (match_indices (values r.prs)) (omega arith),
      ))
]
