-- ===== src/Raft/Elect.antt =====
-- src/raft/raft.rs: the roles of a node, and elections.
pub mod Votes
pub mod Leader
use aegisdb_core.Prelude.{
  ℕ, ◌*◌, ◌%◌, u64_mod, Bool, true, false, not, ◌&&◌, ◌||◌, List, [], ◌∷◌, ltb, leb, ◌==◌,
  if◌then◌else◌, suc, add64,
}
use aegisdb_core.Prelude.Assoc.{insert, keys, values, map_values, nat_eq}
use aegisdb_core.Raft.Types.{
  Message, new_message, no_node, new_normal, request_vote, request_vote_response, StateType,
  follower, candidate, leader,
}
use aegisdb_core.Raft.Log
use aegisdb_core.Raft.Log.{last_index}
use aegisdb_core.Raft.Progress.{Progress}
use aegisdb_core.Raft.State.{
  Raft, Rand, Outcome, done, try, push, swallow, quorum, Mode, in_memory, require_term,
  checked_term,
}
use aegisdb_core.Raft.Replicate.{bcast_append}

abbrev reset_progress : ℕ → Progress → Progress
reset_progress last p = record p { next_index = add64 last 1; match_index = 0 }

-- `append(&[noop])` and `bcast_append().ok()` of a new leader
announce : ℕ → Raft → Outcome
announce last r =
    try (Log.append r.raft_log (new_normal r.term (add64 last 1) [] ∷ [])) r
      λ l. swallow (bcast_append in_memory (record r { raft_log = l }))

-- `become_leader`, which can panic in `append`
unfoldable pub become_leader : Raft → Outcome
unfolding announce
become_leader r =
    let last = last_index r.raft_log in
    announce last (record r {
      state = leader;
      lead = r.id;
      heartbeat_elapsed = 0;
      prs = map_values (reset_progress last) r.prs;
    })

unfoldable pub ask_for_votes : ℕ → ℕ → List ℕ → Raft → Raft
ask_for_votes last_term last [] r = r
ask_for_votes last_term last (to ∷ ids) r = ask_for_votes last_term last ids (
    if to == r.id
    then r
    else push
        (record new_message {
          msg_type = request_vote;
          to = to;
          from = r.id;
          term = r.term;
          log_term = last_term;
          index = last;
        })
        r)

abbrev candidate_is : StateType → Bool
candidate_is candidate = true
candidate_is _ = false

-- How many of the votes are `vote`.
pub count_votes : Bool → List Bool → ℕ
count_votes vote [] = 0
count_votes vote (v ∷ vs) =
    let rest = count_votes vote vs in
    if v then (if vote then suc rest else rest) else (if vote then rest else suc rest)

pub respond_vote : Message → Bool → Raft → Raft
respond_vote m reject r =
    push
      (record new_message {
        msg_type = request_vote_response;
        to = m.from;
        from = r.id;
        term = r.term;
        reject = reject;
      })
      r

-- `log_ok`: the sender's log is at least as recent as this node's.
abbrev pub log_ok : Message → ℕ → ℕ → Bool
log_ok m last_term last = ltb last_term m.log_term || (m.log_term == last_term && leb last m.index)

decide_vote : Mode → Message → Raft → Outcome
unfolding respond_vote
decide_vote mode m r =
    let can_vote = r.vote == no_node || r.vote == m.from in
    let last = last_index r.raft_log in
    try (checked_term mode r.raft_log last) r λ last_term. done (
      if can_vote && log_ok m last_term last
      then respond_vote m false (record r { vote = m.from; election_elapsed = 0 })
      else respond_vote m true r)

module _ (rand : Rand) where
  new_election_timeout : Raft → Raft
  new_election_timeout r =
      let (t, seed) = rand.gen_range r.seed r.election_timeout (r.election_timeout * 2 % u64_mod) in
      record r { random_election_timeout = t; seed = seed }

  unfoldable pub become_follower : ℕ → ℕ → Raft → Raft
  unfolding new_election_timeout
  become_follower term lead r = new_election_timeout (record r {
    term = term;
    lead = lead;
    state = follower;
    vote = no_node;
    votes = [];
    election_elapsed = 0;
  })

  unfoldable pub become_candidate : Raft → Raft
  unfolding new_election_timeout
  become_candidate r = new_election_timeout (record r {
    term = add64 r.term 1;
    state = candidate;
    vote = r.id;
    votes = insert r.id true [];
    lead = no_node;
    election_elapsed = 0;
  })

  request_votes : Mode → Raft → Outcome
  unfolding ask_for_votes
  request_votes mode r =
      let last = last_index r.raft_log in
      try (require_term mode r.raft_log last) r
        λ last_term. done (ask_for_votes last_term last (keys r.prs) r)

  -- `campaign` and `campaign_async`
  unfoldable pub campaign : Mode → Raft → Outcome
  unfolding request_votes
  campaign mode r =
      let r1 = become_candidate r in
      if quorum r1 == 1 then become_leader r1 else request_votes mode r1

  -- `handle_request_vote` and `handle_request_vote_async`
  unfoldable pub handle_request_vote : Mode → Message → Raft → Outcome
  unfolding decide_vote
  handle_request_vote mode m r =
      if ltb m.term r.term
      then done (respond_vote m true r)
      else decide_vote mode m (if ltb r.term m.term then become_follower m.term no_node r else r)

  count_and_decide : Raft → Outcome
  unfolding count_votes
  count_and_decide r =
      if leb (quorum r) (count_votes true (values r.votes))
      then become_leader r
      else done (
          if leb (quorum r) (count_votes false (values r.votes))
          then become_follower r.term no_node r
          else r)

  unfoldable pub handle_request_vote_response : Message → Raft → Outcome
  unfolding count_and_decide
  handle_request_vote_response m r =
      if not (m.term == r.term) || not (candidate_is r.state)
      then done r
      else count_and_decide (record r { votes = insert m.from (not m.reject) r.votes })
