-- ===== src/Raft/Elect/Votes.antt =====
-- src/raft/raft.rs: giving votes, and counting them.
use aegisdb_core.Prelude.{
  ℕ, ◌+◌, ◌*◌, ◌<◌, ◌≡◌, ◌≢◌, refl, ap, ◌⊎◌, [], ◌∷◌, Result, ok, err, panic, arith, not, true,
  length, add64,
}
use aegisdb_core.Prelude.Assoc.{values, insert, map_values, nat_eq}
use aegisdb_core.Raft.Types.{Message, leader, candidate, no_node, new_normal}
use aegisdb_core.Raft.Log
use aegisdb_core.Raft.Log.{last_index}
use aegisdb_core.Raft.State.{
  Raft, Rand, swallow, Mode, in_memory, quorum, checked_term, try_ind, swallow-node,
}
use aegisdb_core.Raft.Replicate.{bcast_append}
use aegisdb_core.Raft.Replicate.Frame.{bcast_append-frame}
use aegisdb_core.Raft.Elect.{
  become_follower, become_leader, announce, reset_progress, handle_request_vote,
  handle_request_vote_response, count_votes, respond_vote, log_ok,
}

-- The sender's log is at least as recent as one whose last term is the result.
abbrev pub Recent : Message → Result ℕ → ℕ → Type 0
Recent m (ok t) last = log_ok m t last ≡ true
Recent m (err e) last = ⊥
Recent m panic last = ⊥

announce-frame :
    (last : ℕ) (r : Raft)
    → (announce last r).1
      ≡ record r { raft_log = (announce last r).1.raft_log; msgs = (announce last r).1.msgs }
unfolding announce
announce-frame last r =
    try_ind (λ s. s ≡ record r { raft_log = s.raft_log; msgs = s.msgs })
      (Log.append r.raft_log (new_normal r.term (add64 last 1) [] ∷ [])) r
      (λ l. swallow (bcast_append in_memory (record r { raft_log = l }))) refl
      λ l _.
        let r1 : Raft = record r { raft_log = l } in
        let sent = bcast_append-frame in_memory r1 in
        rw (swallow-node (bcast_append in_memory r1)) (cc sent)

-- A new leader keeps its term and its peers.
pub become_leader-frame :
    (r : Raft)
    → let r' = (become_leader r).1 in
      (r'.term ≡ r.term)
      × (r'.vote ≡ r.vote)
      × (r'.votes ≡ r.votes)
      × (r'.id ≡ r.id)
      × (r'.state ≡ leader)
      × (r'.lead ≡ r.id)
unfolding become_leader
become_leader-frame r =
    let last = last_index r.raft_log in
    let r1 : Raft = record r {
      state = leader;
      lead = r.id;
      heartbeat_elapsed = 0;
      prs = map_values (reset_progress last) r.prs;
    } in
    let e = announce-frame last r1 in
    (
      ap (λ (s : Raft). s.term) e,
      ap (λ (s : Raft). s.vote) e,
      ap (λ (s : Raft). s.votes) e,
      ap (λ (s : Raft). s.id) e,
      ap (λ (s : Raft). s.state) e,
      ap (λ (s : Raft). s.lead) e,
    )

module _ (rand : Rand) where
  -- A vote request of the node's own term, to a node that voted for another than its sender: the
  -- vote and the term stay, and the node is unchanged (the own log's term could not be read) or
  -- answers with a refusal.
  pub one_vote_per_term :
      (mode : Mode) (m : Message) (r : Raft)
      → m.term ≡ r.term
      → r.vote ≢ no_node
      → m.from ≢ r.vote
      → let r' = (handle_request_vote rand mode m r).1 in
        (r'.vote ≡ r.vote) × (r'.term ≡ r.term) × ((r' ≡ r) ⊎ (r' ≡ respond_vote m true r))
  unfolding handle_request_vote
  one_vote_per_term mode m r same voted other = ground arith

  -- A vote that is newly given goes to the sender, in its term, and only where the sender's log is at
  -- least as recent as the node's own: a later last term, or the same one and no lower an index.
  pub vote_needs_log :
      (mode : Mode) (m : Message) (r : Raft)
      → let r' = (handle_request_vote rand mode m r).1 in
        r'.vote ≢ no_node
        → r'.vote ≢ r.vote
        → (r'.vote ≡ m.from)
          × (r'.term ≡ m.term)
          × Recent m (checked_term mode r.raft_log (last_index r.raft_log)) (last_index r.raft_log)
  unfolding handle_request_vote become_follower
  vote_needs_log mode m r h k = ground arith

  -- If an answer to its request makes a candidate leader, then the answer is of the candidate's
  -- term, and the granted votes, the answer counted, are more than half of the cluster.
  pub leader_by_quorum :
      (m : Message) (r : Raft)
      → let r' = (handle_request_vote_response rand m r).1 in
        r.state ≡ candidate
        → r'.state ≡ leader
        → (m.term ≡ r.term)
          × (length r.prs + 1
              < 2 * count_votes true (values (insert m.from (not m.reject) r.votes)))
  unfolding handle_request_vote_response become_follower quorum
  leader_by_quorum m r s l = ground arith
