-- ===== src/Raft/Follow/Accept.antt =====
-- What a follower does with the entries that a leader sends.
use aegisdb_core.Prelude.{
  ℕ, ◌+◌, ◌≤◌, ◌<◌, ◌≡◌, ◌≢◌, refl, ◌∙◌, ◌⊎◌, inl, inr, Bool-cases, List, [], ◌∷◌, ◌++◌, some, ok,
  arith, length, min, max, last?, sub64, ltb, true, if◌then◌else◌,
}
use aegisdb_core.Raft.Types.{Message, Entry, new_message, append_response}
use aegisdb_core.Raft.Log
use aegisdb_core.Raft.Log.{RaftLog, last_index, first_index, term_sync}
use aegisdb_core.Raft.Log.Shape.{IsLog}
use aegisdb_core.Raft.Log.Append.{Fits, replaced, append-IsLog}
use aegisdb_core.Raft.State.{Raft, Outcome, Mode, in_memory, require_term}
use aegisdb_core.Raft.Follow.{
  handle_append_entries, match_and_append, append_entries, follow_commit, follow_leader,
  reject_append, accept_append,
}

-- The commit index follows the leader's up to the end of the log, and never falls.
pub follow_commit_lem :
    (commit : ℕ) (l : RaftLog)
    → l.committed ≤ last_index l
    → (follow_commit commit l).committed ≡ max l.committed (min commit (last_index l))
unfolding follow_commit
follow_commit_lem commit l h = ground arith

last?-snoc {ℓ} : {A : Type ℓ} (xs : List A) (a : A) → last? (xs ++ a ∷ []) ≡ some a
last?-snoc [] a = refl
last?-snoc (x ∷ []) a = refl
last?-snoc (x ∷ y ∷ xs) a = last?-snoc (y ∷ xs) a

pub follow_commit-last :
    (commit : ℕ) (l : RaftLog) → last_index (follow_commit commit l) ≡ last_index l
unfolding follow_commit last_index
follow_commit-last commit l = ground arith

follow_commit-first :
    (commit : ℕ) (l : RaftLog) → first_index (follow_commit commit l) ≡ first_index l
unfolding follow_commit first_index
follow_commit-first commit l = ground arith

pub follow_commit-term_sync :
    (commit : ℕ) (l : RaftLog) (i : ℕ) → term_sync (follow_commit commit l) i ≡ term_sync l i
unfolding follow_commit term_sync last_index first_index
follow_commit-term_sync commit l i = ground arith

follow_commit-rest :
    (commit : ℕ) (l : RaftLog)
    → ((follow_commit commit l).entries ≡ l.entries)
      × ((follow_commit commit l).stabled ≡ l.stabled)
      × ((follow_commit commit l).applied ≡ l.applied)
      × ((follow_commit commit l).pending_snapshot ≡ l.pending_snapshot)
unfolding follow_commit
follow_commit-rest commit l = ground arith

pub follow_commit-IsLog : (commit : ℕ) (l : RaftLog) → IsLog l → IsLog (follow_commit commit l)
follow_commit-IsLog commit l v =
    let (entries, stabled, applied, pending) = follow_commit-rest commit l in
    let first = follow_commit-first commit l in
    let last = follow_commit-last commit l in
    let at = follow_commit_lem commit l v.committed_le in
    record {
      row = record {
        settled = pending ∙ v.settled;
        numbered = rw (first, entries) v.numbered;
        from_one = rw first v.from_one;
        fits = rw (first, entries) v.fits;
        word = rw stabled v.word;
      };
      applied_le = omega (arith, applied, at, v.applied_le);
      committed_le = omega (arith, last, at, v.committed_le);
      committed_ge = omega (arith, first, at, v.committed_ge);
      stabled_le = omega (arith, stabled, last, v.stabled_le);
      stabled_ge = omega (arith, stabled, first, v.stabled_ge);
    }

-- A message of entries that a follower has to take: of its term or a later one, the entry before the
-- new ones is in the log with the leader's term, and the new ones fit the log.
pub record Acceptable (mode : Mode) (m : Message) (e : Entry) (es : List Entry) (r : Raft)
    : Type 0 where
  pub entries : m.entries ≡ e ∷ es
  pub in_term : r.term ≤ m.term
  pub prev_there : m.index ≤ last_index r.raft_log
  pub prev_term : 0 < m.index → require_term mode r.raft_log m.index ≡ ok m.log_term
  pub fits : Fits r.raft_log e es
  pub unstable : r.raft_log.stabled < e.index

accepts :
    (mode : Mode) (m : Message) (e : Entry) (es : List Entry) (r : Raft)
    → Acceptable mode m e es r
    → handle_append_entries mode m r ≡ append_entries m (follow_leader m r)
unfolding handle_append_entries match_and_append
accepts mode m e es r a = ground (arith, a.prev_term, a.prev_there, a.in_term)

-- The node and its log after such a message.
abbrev pub log_after : Message → Entry → List Entry → RaftLog → RaftLog
log_after m e es l = follow_commit m.commit (replaced l e es)

abbrev pub node_after : Message → Entry → List Entry → Raft → Raft
node_after m e es r =
    accept_append m
      (record r { term = m.term; lead = m.from; raft_log = log_after m e es r.raft_log })

higher_term :
    (m : Message) (r : Raft)
    → r.term ≤ m.term
    → (if ltb r.term m.term then m.term else r.term) ≡ m.term
higher_term m r h = ground arith

append_entries-answer :
    (m : Message) (e : Entry) (es : List Entry) (r : Raft)
    → m.entries ≡ e ∷ es
    → r.term ≤ m.term
    → Log.append r.raft_log (e ∷ es) ≡ ok (replaced r.raft_log e es)
    → append_entries m (follow_leader m r) ≡ (ok tt, node_after m e es r)
unfolding append_entries
append_entries-answer m e es r h t a = rw (h, a, higher_term m r t) refl

-- A follower with a well-formed log that gets consecutive entries, of no older a term than its own,
-- whose predecessor it has with the leader's term, and which fit the log above `stabled` and the
-- commit index, returns without an error or a panic: its log keeps the entries below the new ones
-- and ends with those, it is well-formed again, its commit index is the larger of what it was and
-- the leader's up to the last entry, its term is the leader's, and it answers the sender, with no
-- refusal, with its last index.
pub append_accepted :
    (mode : Mode) (m : Message) (e : Entry) (es : List Entry) (r : Raft)
    → IsLog r.raft_log
    → Acceptable mode m e es r
    → let l' = log_after m e es r.raft_log in
      (handle_append_entries mode m r ≡ (ok tt, node_after m e es r))
      × IsLog l'
      × (l'.entries ≡ (replaced r.raft_log e es).entries)
      × (last_index l' ≡ e.index + length es)
      × (l'.committed ≡ max r.raft_log.committed (min m.commit (e.index + length es)))
append_accepted mode m e es r v a =
    let new : RaftLog = replaced r.raft_log e es in
    let (eq, is_log, last) = append-IsLog r.raft_log e es v a.fits a.unstable in
    let commit = follow_commit_lem m.commit new is_log.committed_le in
    (
      accepts mode m e es r a ∙ append_entries-answer m e es r a.entries a.in_term eq,
      follow_commit-IsLog m.commit new is_log,
      (follow_commit-rest m.commit new).0,
      follow_commit-last m.commit new ∙ last,
      omega (arith, commit, last),
    )

-- A reply that refuses the message.
pub record Refuses (m : Message) (r s : Raft) : Type 0 where
  pub log : s.raft_log ≡ r.raft_log
  pub reply : Message
  pub sent : last? s.msgs ≡ some reply
  pub to_sender : reply.to ≡ m.from
  pub refusal : reply.reject ≡ true

refuses :
    (m : Message) (hint : ℕ) (r s : Raft) (o : Outcome)
    → s.raft_log ≡ r.raft_log
    → o ≡ (ok tt, reject_append m hint s)
    → (o.0 ≡ ok tt) × Refuses m r o.1
refuses m hint r s o same e = rw e (
  refl,
  record {
    log = same;
    reply = reply;
    sent = last?-snoc s.msgs reply;
    to_sender = refl;
    refusal = refl;
  },
)
  where
    reply : Message
    reply = record new_message {
      msg_type = append_response;
      to = m.from;
      from = s.id;
      term = s.term;
      reject = true;
      index = hint;
    }

refused_stale :
    (m : Message) (r : Raft)
    → m.term < r.term
    → handle_append_entries in_memory m r ≡ (ok tt, reject_append m 0 r)
unfolding handle_append_entries
refused_stale m r h = ground arith

refused_gap :
    (m : Message) (r : Raft)
    → r.term ≤ m.term
    → last_index r.raft_log < m.index
    → handle_append_entries in_memory m r
      ≡ (ok tt, reject_append m (last_index r.raft_log) (follow_leader m r))
unfolding handle_append_entries match_and_append
refused_gap m r t h = ground arith

refused_conflict :
    (m : Message) (r : Raft) (t : ℕ)
    → r.term ≤ m.term
    → m.index ≤ last_index r.raft_log
    → 0 < m.index
    → term_sync r.raft_log m.index ≡ some t
    → t ≢ m.log_term
    → handle_append_entries in_memory m r
      ≡ (ok tt, reject_append m (sub64 m.index 1) (follow_leader m r))
unfolding handle_append_entries match_and_append
refused_conflict m r t h inside pos there other = ground arith

-- Why a message of entries cannot be taken: an older term, a gap before its entries, or a predecessor
-- with another term in memory.
abbrev pub Mismatch : Message → Raft → Type 0
Mismatch m r =
    (m.term < r.term)
    ⊎ ((last_index r.raft_log < m.index)
        ⊎ ((t : ℕ) × (0 < m.index) × (term_sync r.raft_log m.index ≡ some t) × (t ≢ m.log_term)))

-- Entries of an older term, entries behind the end of the log, and entries whose predecessor has
-- another term in memory are refused by the synchronous handler: the log stays, and the last message
-- out is a refusal to the sender.
append_refused :
    (m : Message) (r : Raft)
    → Mismatch m r
    → ((handle_append_entries in_memory m r).0 ≡ ok tt)
      × Refuses m r (handle_append_entries in_memory m r).1
append_refused m r why = elim (Bool-cases (ltb m.term r.term)) [
  | inl old ↦ refuses m 0 r r _ refl (refused_stale m r (ground arith))
  | inr new ↦
      let t : r.term ≤ m.term = ground arith in
      let s = follow_leader m r in
      elim (Bool-cases (ltb (last_index r.raft_log) m.index)) [
        | inl gap ↦ refuses m (last_index r.raft_log) r s _ refl (refused_gap m r t (ground arith))
        | inr inside ↦
            let le : m.index ≤ last_index r.raft_log = ground arith in
            elim why [
              | inl h ↦ absurd (omega arith)
              | inr (inl h) ↦ absurd (omega arith)
              | inr (inr (u, pos, there, other)) ↦
                  refuses m (sub64 m.index 1) r s _ refl
                    (refused_conflict m r u t le pos there other)
            ]
      ]
]
