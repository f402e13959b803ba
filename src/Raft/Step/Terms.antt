-- ===== src/Raft/Step/Terms.antt =====
-- The term of a node through all its handlers.
use aegisdb_core.Prelude.{
  ℕ, ◌+◌, ◌≤◌, ◌<◌, ◌≡◌, refl, ap, ◌∙◌, ◌⊎◌, inl, inr, Bool-cases, List, [], ◌∷◌, arith, u64_mod,
  add64, add64-eq, ltb, not, if◌then◌else◌, ◌==◌,
}
use aegisdb_core.Prelude.Assoc.{keys, insert, nat_eq}
use aegisdb_core.Raft.Types.{
  Message, StateType, follower, candidate, leader, MessageType, hup, beat, propose, append,
  append_response, request_vote, request_vote_response, snapshot, heartbeat, heartbeat_response,
}
use aegisdb_core.Raft.Log
use aegisdb_core.Raft.Log.{RaftLog, last_index}
use aegisdb_core.Raft.State.{
  Raft, Rand, Mode, try_ind, andthen_ind, done, ◌▹◌, require_term, quorum,
}
use aegisdb_core.Raft.Replicate.{
  send_append, maybe_commit, handle_append_response, handle_heartbeat_response, bcast_append,
  note_response, send_rest,
}
use aegisdb_core.Raft.Replicate.Frame.{send_append-frame, bcast_append-frame, bcast_heartbeat-frame}
use aegisdb_core.Raft.Replicate.Commit.{maybe_commit_lem}
use aegisdb_core.Raft.Elect.{
  become_follower, become_candidate, campaign, ask_for_votes, handle_request_vote,
  handle_request_vote_response,
}
use aegisdb_core.Raft.Elect.Votes.{become_leader-frame}
use aegisdb_core.Raft.Follow.{handle_append_entries, handle_heartbeat, handle_snapshot}
use aegisdb_core.Raft.Step.{
  handle_propose, step_follower, step_candidate, step_leader, dispatch, catch_up, step, renumber,
}

-- `s` has the term of `r`.
abbrev SameTerm : Raft → Raft → Type 0
SameTerm r s = s.term ≡ r.term

send_append-term : (mode : Mode) (r : Raft) (to : ℕ) → SameTerm r (send_append mode r to).1
send_append-term mode r to = ap (λ (s : Raft). s.term) (send_append-frame mode r to)

maybe_commit-term : (mode : Mode) (r : Raft) → SameTerm r (maybe_commit mode r).1
maybe_commit-term mode r = elim (maybe_commit_lem mode r) [
  | inl e ↦ ap (λ (s : Raft). s.term) e
  | inr (index, _, _, _, _, _, e) ↦ ap (λ (s : Raft). s.term) e
]

send_rest-term : (mode : Mode) (m : Message) (r : Raft) → SameTerm r (send_rest mode m r).1
unfolding send_rest
send_rest-term mode m r = ground (arith, send_append-term mode r m.from)

note_response-term : (m : Message) (r : Raft) → SameTerm r (note_response m r)
unfolding note_response
note_response-term m r = ground arith

handle_append_response-term :
    (mode : Mode) (m : Message) (r : Raft) → SameTerm r (handle_append_response mode m r).1
unfolding handle_append_response
handle_append_response-term mode m r = elim (Bool-cases (ltb m.term r.term)) [
  | inl e ↦ rw e refl
  | inr e ↦ rw e (
      andthen_ind (SameTerm r)
        (let r1 = note_response m r in if not m.reject then maybe_commit mode r1 else done r1)
        (send_rest mode m)
        (ground (arith, note_response-term m r, maybe_commit-term mode (note_response m r)))
        (λ s h. send_rest-term mode m s ∙ h))
]

handle_heartbeat_response-term :
    (mode : Mode) (m : Message) (r : Raft) → SameTerm r (handle_heartbeat_response mode m r).1
unfolding handle_heartbeat_response
handle_heartbeat_response-term mode m r = ground (arith, send_append-term mode r m.from)

handle_propose-term :
    (mode : Mode) (m : Message) (r : Raft) → SameTerm r (handle_propose mode m r).1
unfolding handle_propose
handle_propose-term mode m r =
    try_ind (SameTerm r)
      (Log.append r.raft_log (renumber r.term (add64 (last_index r.raft_log) 1) m.entries)) r
      (λ l. maybe_commit mode (record r { raft_log = l }) ▹ bcast_append mode) refl
      λ l _.
        andthen_ind (SameTerm r) (maybe_commit mode (record r { raft_log = l })) (bcast_append mode)
          (maybe_commit-term mode (record r { raft_log = l }))
          (λ s h. ap (λ (x : Raft). x.term) (bcast_append-frame mode s) ∙ h)

ask_for_votes-term :
    (t last : ℕ) (ids : List ℕ) (r : Raft) → SameTerm r (ask_for_votes t last ids r)
unfolding ask_for_votes
ask_for_votes-term t last [] r = refl
ask_for_votes-term t last (to ∷ ids) r = ask_for_votes-term t last ids _ ∙ ground arith

handle_append_entries-term :
    (mode : Mode) (m : Message) (r : Raft) → r.term ≤ (handle_append_entries mode m r).1.term
unfolding handle_append_entries
handle_append_entries-term mode m r = ground arith

handle_heartbeat-term : (m : Message) (r : Raft) → r.term ≤ (handle_heartbeat m r).1.term
unfolding handle_heartbeat
handle_heartbeat-term m r = ground arith

handle_snapshot-term : (m : Message) (r : Raft) → SameTerm r (handle_snapshot m r).1
unfolding handle_snapshot
handle_snapshot-term m r = ground arith

module _ (rand : Rand) where
  become_follower-term : (t lead : ℕ) (r : Raft) → (become_follower rand t lead r).term ≡ t
  unfolding become_follower
  become_follower-term t lead r = refl

  -- A campaign raises the term by one.
  campaign-term :
      (mode : Mode) (r : Raft) → r.term + 1 < u64_mod → (campaign rand mode r).1.term ≡ r.term + 1
  unfolding campaign become_candidate
  campaign-term mode r w =
      let r1 = become_candidate rand r in
      let one = add64-eq r.term 1 w in
      elim (Bool-cases (quorum r1 == 1)) [
        | inl e ↦ rw e ((become_leader-frame r1).0 ∙ one)
        | inr e ↦ rw e (
            try_ind (λ s. s.term ≡ r.term + 1)
              (require_term mode r1.raft_log (last_index r1.raft_log)) r1
              (λ t. done (ask_for_votes t (last_index r1.raft_log) (keys r1.prs) r1)) one
              λ t _. ask_for_votes-term t (last_index r1.raft_log) (keys r1.prs) r1 ∙ one)
      ]

  handle_request_vote-term :
      (mode : Mode) (m : Message) (r : Raft) → r.term ≤ (handle_request_vote rand mode m r).1.term
  unfolding handle_request_vote become_follower
  handle_request_vote-term mode m r = ground arith

  handle_request_vote_response-term :
      (m : Message) (r : Raft) → SameTerm r (handle_request_vote_response rand m r).1
  unfolding handle_request_vote_response become_follower
  handle_request_vote_response-term m r =
      let r1 : Raft = record r { votes = insert m.from (not m.reject) r.votes } in
      ground (arith, (become_leader-frame r1).0)

  catch_up-term :
      (mode : Mode) (m : Message) (r : Raft)
      → (r.term ≤ (catch_up rand mode m r).term) × (m.term ≤ (catch_up rand mode m r).term)
  unfolding catch_up become_follower
  catch_up-term mode m r = ground arith

  step_follower-term :
      (mode : Mode) (m : Message) (r : Raft) (t : MessageType)
      → r.term + 1 < u64_mod
      → r.term ≤ (step_follower rand mode m r t).1.term
  unfolding step_follower
  step_follower-term mode m r hup w = omega (arith, campaign-term mode r w)
  step_follower-term mode m r append w = handle_append_entries-term mode m _
  step_follower-term mode m r heartbeat w = handle_heartbeat-term m _
  step_follower-term mode m r snapshot w =
      omega (arith, handle_snapshot-term m (record r { election_elapsed = 0 }))
  step_follower-term mode m r request_vote w = handle_request_vote-term mode m r
  step_follower-term mode m r beat w = ground arith
  step_follower-term mode m r propose w = ground arith
  step_follower-term mode m r _ w = omega arith

  step_candidate-term :
      (mode : Mode) (m : Message) (r : Raft) (t : MessageType)
      → r.term + 1 < u64_mod
      → r.term ≤ m.term
      → r.term ≤ (step_candidate rand mode m r t).1.term
  unfolding step_candidate
  step_candidate-term mode m r hup w h = omega (arith, campaign-term mode r w)
  step_candidate-term mode m r append w h = omega (
    arith,
    become_follower-term m.term m.from r,
    handle_append_entries-term mode m (become_follower rand m.term m.from r),
  )
  step_candidate-term mode m r heartbeat w h = omega (
    arith,
    become_follower-term m.term m.from r,
    handle_heartbeat-term m (become_follower rand m.term m.from r),
  )
  step_candidate-term mode m r snapshot w h = omega (
    arith,
    become_follower-term m.term m.from r,
    handle_snapshot-term m (become_follower rand m.term m.from r),
  )
  step_candidate-term mode m r request_vote w h = handle_request_vote-term mode m r
  step_candidate-term mode m r request_vote_response w h =
      omega (arith, handle_request_vote_response-term m r)
  step_candidate-term mode m r _ w h = omega arith

  step_leader-term :
      (mode : Mode) (m : Message) (r : Raft) (t : MessageType)
      → r.term ≤ m.term
      → r.term ≤ (step_leader rand mode m r t).1.term
  unfolding step_leader
  step_leader-term mode m r beat h =
      omega (arith, ap (λ (s : Raft). s.term) (bcast_heartbeat-frame r))
  step_leader-term mode m r propose h = omega (arith, handle_propose-term mode m r)
  step_leader-term mode m r append_response h = omega (arith, handle_append_response-term mode m r)
  step_leader-term mode m r heartbeat_response h =
      omega (arith, handle_heartbeat_response-term mode m r)
  step_leader-term mode m r request_vote h = handle_request_vote-term mode m r
  step_leader-term mode m r snapshot h = omega (
    arith,
    become_follower-term m.term m.from r,
    handle_snapshot-term m (become_follower rand m.term m.from r),
  )
  step_leader-term mode m r _ h = omega arith

  dispatch-term :
      (mode : Mode) (m : Message) (r : Raft) (s : StateType)
      → r.term + 1 < u64_mod
      → (s ≡ follower) ⊎ (r.term ≤ m.term)
      → r.term ≤ (dispatch rand mode m r s).1.term
  unfolding dispatch
  dispatch-term mode m r follower w h = step_follower-term mode m r m.msg_type w
  dispatch-term mode m r candidate w (inl e) = cc
  dispatch-term mode m r candidate w (inr h) = step_candidate-term mode m r m.msg_type w h
  dispatch-term mode m r leader w (inl e) = cc
  dispatch-term mode m r leader w (inr h) = step_leader-term mode m r m.msg_type h

  catch_up-bound :
      (mode : Mode) (m : Message) (r : Raft)
      → r.term + 1 < u64_mod
      → m.term + 1 < u64_mod
      → (catch_up rand mode m r).term + 1 < u64_mod
  unfolding catch_up become_follower
  catch_up-bound mode m r w k = ground arith

  catch_up-safe :
      (mode : Mode) (m : Message) (r : Raft)
      → (r.state ≡ follower) ⊎ (r.term ≤ m.term)
      → (catch_up rand mode m r).term + 1 < u64_mod
      → ((catch_up rand mode m r).state ≡ follower) ⊎ ((catch_up rand mode m r).term ≤ m.term)
  unfolding catch_up become_follower
  catch_up-safe mode m r h w = ground arith

  -- Whatever the message and however the call ends, the term of a node does not fall, where it is a
  -- follower or the message is not of an older term, and the terms of both are below the largest
  -- `u64`.
  pub step-term :
      (mode : Mode) (m : Message) (r : Raft)
      → (r.state ≡ follower) ⊎ (r.term ≤ m.term)
      → r.term + 1 < u64_mod
      → m.term + 1 < u64_mod
      → r.term ≤ (step rand mode m r).1.term
  unfolding step
  step-term mode m r h w k =
      let r1 = catch_up rand mode m r in
      let bound = catch_up-bound mode m r w k in
      omega (
        arith,
        catch_up-term mode m r,
        dispatch-term mode m r1 r1.state bound (catch_up-safe mode m r h bound),
      )
