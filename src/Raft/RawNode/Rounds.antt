-- ===== src/Raft/RawNode/Rounds.antt =====
-- Rounds of `ready` and `advance`.
use aegisdb_core.Prelude.{
  ℕ, ◌+◌, ◌-◌, ◌≤◌, ◌<◌, ◌≡◌, refl, ◌∙◌, List, [], ◌∷◌, none, some, ok, panic, arith, true, false,
  ◌||◌, if◌then◌else◌, last?, length, drop, lt→ltb, le→ltb,
}
use aegisdb_core.Raft.Types.{Entry, StateType, follower, candidate, leader}
use aegisdb_core.Raft.Log.{last_index, first_index, unstable_entries, next_entries}
use aegisdb_core.Raft.Log.Shape.{IsLog, Numbered, Numbered-last}
use aegisdb_core.Raft.Log.Views.{
  unstable_entries_lem, next_entries_beyond_commit, next_entries_all_committed, last_index-stabled,
}
use aegisdb_core.Raft.RawNode.{
  RawNode, Ready, ready, advance, has_ready, soft_state_of, hard_state_of, hard_changed,
  empty_hard_state, is_updated, same_role,
}

-- What `ready` gives for the entries to store and to apply.
abbrev pub ready_with : RawNode → List Entry → List Entry → Ready
ready_with n unstable committed = record {
  soft_state =
      if is_updated (soft_state_of n.raft) n.prev.soft then some (soft_state_of n.raft) else none;
  hard_state = if hard_changed n then hard_state_of n.raft else empty_hard_state;
  entries = unstable;
  snapshot = none;
  committed_entries = committed;
  messages = n.raft.msgs;
  must_sync = hard_changed n || false;
}

abbrev pub without_messages : RawNode → RawNode
without_messages n = record n { raft = record (n.raft) { msgs = [] } }

ready_apply :
    (n : RawNode) (unstable committed : List Entry)
    → n.raft.raft_log.pending_snapshot ≡ none
    → unstable_entries n.raft.raft_log ≡ ok unstable
    → n.raft.raft_log.applied < n.raft.raft_log.committed
    → next_entries n.raft.raft_log ≡ ok committed
    → ready n ≡ ok (ready_with n unstable committed, without_messages n)
unfolding ready
ready_apply n unstable committed p u less c = simp (u, lt→ltb _ _ less, c, p) refl

ready_idle :
    (n : RawNode) (unstable : List Entry)
    → n.raft.raft_log.pending_snapshot ≡ none
    → unstable_entries n.raft.raft_log ≡ ok unstable
    → n.raft.raft_log.committed ≤ n.raft.raft_log.applied
    → ready n ≡ ok (ready_with n unstable [], without_messages n)
unfolding ready
ready_idle n unstable p u le = simp (u, le→ltb _ _ le, p) refl

advance-applied :
    (n m : RawNode) (unstable committed : List Entry) (e : Entry)
    → last? committed ≡ some e
    → let l = (advance (ready_with n unstable committed) m).raft.raft_log in
      (l.applied ≡ e.index) × (l.committed ≡ m.raft.raft_log.committed)
unfolding advance
advance-applied n m unstable committed e h = ground arith

-- A round of `ready` and `advance` on a well-formed log with something to apply and entries behind
-- the commit index leaves the commit index where it was and the applied index one above it.
pub applies_uncommitted :
    (n : RawNode)
    → IsLog n.raft.raft_log
    → n.raft.raft_log.applied < n.raft.raft_log.committed
    → n.raft.raft_log.committed < last_index n.raft.raft_log
    → (rd : Ready) × (n' : RawNode) × (ready n ≡ ok (rd, n'))
      × ((advance rd n').raft.raft_log.committed ≡ n.raft.raft_log.committed)
      × ((advance rd n').raft.raft_log.applied ≡ n.raft.raft_log.committed + 1)
applies_uncommitted n v less more =
    let (es, e, got, last, at) = next_entries_beyond_commit n.raft.raft_log v less more in
    let unstable =
      drop (n.raft.raft_log.stabled + 1 - first_index n.raft.raft_log) n.raft.raft_log.entries in
    let (applied, committed) = advance-applied n (without_messages n) unstable es e last in
    (
      ready_with n unstable es,
      without_messages n,
      ready_apply n unstable es v.settled (unstable_entries_lem n.raft.raft_log v).0 less got,
      committed,
      applied ∙ at,
    )

-- On a well-formed log whose last entry is committed and not yet applied, `ready` panics.
ready_panics :
    (n : RawNode)
    → IsLog n.raft.raft_log
    → n.raft.raft_log.applied < n.raft.raft_log.committed
    → n.raft.raft_log.committed ≡ last_index n.raft.raft_log
    → ready n ≡ panic
unfolding ready
ready_panics n v less all =
    simp
      (
        (unstable_entries_lem n.raft.raft_log v).0,
        lt→ltb _ _ less,
        next_entries_all_committed n.raft.raft_log v all,
      )
      refl

-- The node after a round in which there was nothing to apply.
abbrev after_idle : RawNode → List Entry → RawNode
after_idle n unstable = advance (ready_with n unstable []) (without_messages n)

advance-log :
    (n : RawNode) (unstable : List Entry) (last : ℕ)
    → Numbered (n.raft.raft_log.stabled + 1) unstable
    → n.raft.raft_log.stabled + length unstable ≡ last
    → (after_idle n unstable).raft.raft_log ≡ record (n.raft.raft_log) { stabled = last }
unfolding advance
advance-log n [] last num len = let e : n.raft.raft_log.stabled ≡ last = omega arith in ground arith
advance-log n (x ∷ xs) last num len =
    let (e, got, at) = Numbered-last (n.raft.raft_log.stabled + 1) x xs num in
    let same : e.index ≡ last = omega arith in ground (arith, got, same)

same_role_self : (s : StateType) → same_role s s ≡ true
same_role_self follower = refl
same_role_self candidate = refl
same_role_self leader = refl

advance-soft :
    (n : RawNode) (unstable : List Entry)
    → is_updated (soft_state_of (after_idle n unstable).raft) (after_idle n unstable).prev.soft
      ≡ false
unfolding advance
advance-soft n unstable = ground (arith, same_role_self n.raft.state)

advance-hard : (n : RawNode) (unstable : List Entry) → hard_changed (after_idle n unstable) ≡ false
unfolding advance
advance-hard n unstable = ground arith

advance-msgs : (n : RawNode) (unstable : List Entry) → (after_idle n unstable).raft.msgs ≡ []
unfolding advance
advance-msgs n unstable = ground arith

nothing-ready :
    (n : RawNode)
    → is_updated (soft_state_of n.raft) n.prev.soft ≡ false
    → hard_changed n ≡ false
    → n.raft.msgs ≡ []
    → last_index n.raft.raft_log ≤ n.raft.raft_log.stabled
    → n.raft.raft_log.pending_snapshot ≡ none
    → n.raft.raft_log.committed ≤ n.raft.raft_log.applied
    → has_ready n ≡ false
unfolding has_ready
nothing-ready n soft hard msgs stored settled applied =
    simp (soft, hard, le→ltb _ _ stored, settled, le→ltb _ _ applied, msgs) refl

-- A round of `ready` and `advance` on a well-formed log with nothing to apply hands out all messages
-- and exactly the entries above `stabled`, which are consecutive and reach the last index, and
-- leaves nothing to do.
pub round_settles :
    (n : RawNode)
    → IsLog n.raft.raft_log
    → n.raft.raft_log.applied ≡ n.raft.raft_log.committed
    → (rd : Ready) × (n' : RawNode) × (ready n ≡ ok (rd, n'))
      × (rd.entries
          ≡ drop
              (n.raft.raft_log.stabled + 1 - first_index n.raft.raft_log)
              n.raft.raft_log.entries)
      × Numbered (n.raft.raft_log.stabled + 1) rd.entries
      × (n.raft.raft_log.stabled + length rd.entries ≡ last_index n.raft.raft_log)
      × (rd.messages ≡ n.raft.msgs)
      × (has_ready (advance rd n') ≡ false)
round_settles n v idle =
    let l = n.raft.raft_log in
    let (u, num, len) = unstable_entries_lem l v in
    let unstable = drop (l.stabled + 1 - first_index l) l.entries in
    let log = advance-log n unstable (last_index l) num len in
    (
      ready_with n unstable [],
      without_messages n,
      ready_idle n unstable v.settled u (omega arith),
      refl,
      num,
      len,
      refl,
      nothing-ready (after_idle n unstable) (advance-soft n unstable) (advance-hard n unstable)
          (advance-msgs n unstable) (rw log (omega (arith, last_index-stabled l v.settled)))
          (rw log v.settled) (rw log (omega arith)),
    )
