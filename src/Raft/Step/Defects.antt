-- ===== src/Raft/Step/Defects.antt =====
-- src/raft/raft.rs: stale messages to a candidate, votes in one term, and repeated entries.
use aegisdb_core.Prelude.{
  ℕ, ◌≤◌, ◌<◌, ◌≡◌, refl, ap, ◌∙◌, sym, ◌⊎◌, inl, inr, List, ◌∷◌, ok, panic, arith, true,
}
use aegisdb_core.Raft.Types.{
  Message, MessageType, Entry, follower, candidate, append, heartbeat, snapshot, request_vote,
  no_node,
}
use aegisdb_core.Raft.Log
use aegisdb_core.Raft.Log.{RaftLog, last_index, term_sync}
use aegisdb_core.Raft.State.{Raft, Rand, Outcome, Mode, in_memory, require_term, or_zero}
use aegisdb_core.Raft.Elect.{become_follower, handle_request_vote, log_ok}
use aegisdb_core.Raft.Follow.{
  handle_append_entries, handle_heartbeat, handle_snapshot, follow_commit,
}
use aegisdb_core.Raft.Follow.Accept.{follow_commit-last, follow_commit-term_sync}
use aegisdb_core.Raft.Step.{step, dispatch, step_candidate, step_follower}

-- The messages that only a leader sends.
abbrev pub FromLeader : Message → Type 0
FromLeader m = (m.msg_type ≡ append) ⊎ ((m.msg_type ≡ heartbeat) ⊎ (m.msg_type ≡ snapshot))

append-term :
    (mode : Mode) (m : Message) (r : Raft)
    → r.term ≡ m.term
    → (handle_append_entries mode m r).1.term ≡ m.term
unfolding handle_append_entries
append-term mode m r h = ground arith

heartbeat-term : (m : Message) (r : Raft) → r.term ≡ m.term → (handle_heartbeat m r).1.term ≡ m.term
unfolding handle_heartbeat
heartbeat-term m r h = ground arith

snapshot-term : (m : Message) (r : Raft) → r.term ≡ m.term → (handle_snapshot m r).1.term ≡ m.term
unfolding handle_snapshot
snapshot-term m r h = ground arith

abbrev node_term : Outcome → ℕ
node_term o = o.1.term

module _ (rand : Rand) where
  follower-term : (t lead : ℕ) (r : Raft) → (become_follower rand t lead r).term ≡ t
  unfolding become_follower
  follower-term t lead r = refl

  candidate-step :
      (mode : Mode) (m : Message) (r : Raft) (t : MessageType)
      → r.state ≡ candidate
      → m.msg_type ≡ t
      → m.term ≤ r.term
      → step rand mode m r ≡ step_candidate rand mode m r t
  unfolding step dispatch
  candidate-step mode m r t s kind h = ground arith ∙ ap (step_candidate rand mode m r) kind

  follower-step :
      (mode : Mode) (m : Message) (r : Raft) (t : MessageType)
      → r.state ≡ follower
      → m.msg_type ≡ t
      → m.term ≤ r.term
      → step rand mode m r ≡ step_follower rand mode m r t
  unfolding step dispatch
  follower-step mode m r t s kind h = ground arith ∙ ap (step_follower rand mode m r) kind

  -- A candidate that gets a leader's message (entries, a heartbeat or a snapshot) of an older term
  -- takes over that term.
  candidate_term_falls :
      (mode : Mode) (m : Message) (r : Raft)
      → r.state ≡ candidate
      → FromLeader m
      → m.term < r.term
      → (step rand mode m r).1.term ≡ m.term
  unfolding step_candidate
  candidate_term_falls mode m r s (inl kind) h =
      ap node_term (candidate-step mode m r append s kind (omega arith))
      ∙ append-term mode m (become_follower rand m.term m.from r) (follower-term m.term m.from r)
  candidate_term_falls mode m r s (inr (inl kind)) h =
      ap node_term (candidate-step mode m r heartbeat s kind (omega arith))
      ∙ heartbeat-term m (become_follower rand m.term m.from r) (follower-term m.term m.from r)
  candidate_term_falls mode m r s (inr (inr kind)) h =
      ap node_term (candidate-step mode m r snapshot s kind (omega arith))
      ∙ snapshot-term m (become_follower rand m.term m.from r) (follower-term m.term m.from r)

  -- What a heartbeat of its own term makes of a candidate: a follower that has forgotten its vote.
  heartbeat-forgets :
      (m : Message) (r : Raft)
      → m.term ≡ r.term
      → let r' = (handle_heartbeat m (become_follower rand m.term m.from r)).1 in
        (r'.state ≡ follower)
        × (r'.vote ≡ no_node)
        × (r'.term ≡ r.term)
        × (r'.raft_log ≡ follow_commit m.commit r.raft_log)
  unfolding handle_heartbeat become_follower
  heartbeat-forgets m r t = ground arith

  request-grants :
      (q : Message) (r : Raft) (last_term last : ℕ)
      → q.term ≡ r.term
      → r.vote ≡ no_node
      → last_index r.raft_log ≡ last
      → or_zero (term_sync r.raft_log last) ≡ last_term
      → log_ok q last_term last ≡ true
      → let r' = (handle_request_vote rand in_memory q r).1 in
        (r'.vote ≡ q.from) × (r'.term ≡ r.term)
  unfolding handle_request_vote
  request-grants q r last_term last t free e f fresh = ground arith

  -- A candidate takes a heartbeat of its own term, and then a vote request of that term whose log is
  -- as recent as its own: it gives the sender its vote, in the same term, whatever its vote was before.
  pub second_vote :
      (m q : Message) (r : Raft)
      → r.state ≡ candidate
      → m.msg_type ≡ heartbeat
      → m.term ≡ r.term
      → q.msg_type ≡ request_vote
      → q.term ≡ r.term
      → log_ok q (or_zero (term_sync r.raft_log (last_index r.raft_log))) (last_index r.raft_log)
        ≡ true
      → let r1 = (step rand in_memory m r).1 in
        let r2 = (step rand in_memory q r1).1 in (r2.vote ≡ q.from) × (r2.term ≡ r.term)
  unfolding step_candidate step_follower
  second_vote m q r s kind t ask u fresh =
      let r1 = (handle_heartbeat m (become_follower rand m.term m.from r)).1 in
      let (state, vote, term, log) = heartbeat-forgets m r t in
      let l = last_index r.raft_log in
      let (voted, kept) =
        request-grants q r1 (or_zero (term_sync r.raft_log l)) l (u ∙ sym term) vote
          (ap last_index log ∙ follow_commit-last m.commit r.raft_log)
          (ap or_zero (
            ap (λ (x : RaftLog). term_sync x l) log
            ∙ follow_commit-term_sync m.commit r.raft_log l))
          fresh in
      rw (candidate-step in_memory m r heartbeat s kind (omega arith)) (
        rw (follower-step in_memory q r1 request_vote state ask (omega (arith, u, term)))
          (voted, kept ∙ term))

-- Entries that start at or below the commit index are not taken again: the node panics in `append`.
append-panics :
    (mode : Mode) (m : Message) (e : Entry) (es : List Entry) (r : Raft)
    → m.term ≡ r.term
    → m.entries ≡ e ∷ es
    → e.index ≤ r.raft_log.committed
    → m.index ≤ last_index r.raft_log
    → (0 < m.index → require_term mode r.raft_log m.index ≡ ok m.log_term)
    → (handle_append_entries mode m r).0 ≡ panic
unfolding handle_append_entries Log.append
append-panics mode m e es r t new old inside prev = ground (arith, prev)

module _ (rand : Rand) where
  -- A follower that gets entries of its own term, the first of them at or below its commit index,
  -- and has their predecessor with the leader's term, panics.
  pub redelivery_panics :
      (mode : Mode) (m : Message) (e : Entry) (es : List Entry) (r : Raft)
      → r.state ≡ follower
      → m.msg_type ≡ append
      → m.term ≡ r.term
      → m.entries ≡ e ∷ es
      → e.index ≤ r.raft_log.committed
      → m.index ≤ last_index r.raft_log
      → (0 < m.index → require_term mode r.raft_log m.index ≡ ok m.log_term)
      → (step rand mode m r).0 ≡ panic
  unfolding step_follower
  redelivery_panics mode m e es r s kind t new old inside prev =
      ap (λ (o : Outcome). o.0) (follower-step rand mode m r append s kind (omega arith))
      ∙ append-panics mode m e es (record r { election_elapsed = 0 }) t new old inside prev
