-- ===== src/Raft/Examples/Nodes.antt =====
-- The theorems about src/raft/raft.rs at concrete nodes.
use aegisdb_core.Prelude.{
  ◌+◌, ◌*◌, ◌≤◌, ◌<◌, ◌≡◌, refl, ◌⊎◌, inl, true, [], ◌∷◌, ok, arith, max, min, add64, sub64,
}
use aegisdb_core.Prelude.Assoc.{lookup, insert, values, nat_eq}
use aegisdb_core.Raft.Types.{
  Message, follower, candidate, leader, new_message, append, request_vote, request_vote_response,
}
use aegisdb_core.Raft.Log
use aegisdb_core.Raft.Log.{
  RaftLog, last_index, first_index, term_sync, unstable_entries, next_entries, apply_snapshot,
  maybe_compact,
}
use aegisdb_core.Raft.Log.Shape.{IsLog}
use aegisdb_core.Raft.Log.Append.{replaced}
use aegisdb_core.Raft.State.{Raft, in_memory, quorum, require_term}
use aegisdb_core.Raft.Replicate.{maybe_commit, send_append, bcast_append}
use aegisdb_core.Raft.Replicate.Commit.{Commits, maybe_commit_lem}
use aegisdb_core.Raft.Elect.{
  become_leader, handle_request_vote, handle_request_vote_response, count_votes, respond_vote,
}
use aegisdb_core.Raft.Elect.Votes.{one_vote_per_term, leader_by_quorum}
use aegisdb_core.Raft.Elect.Leader.{LeadsAfter, become_leader_lem}
use aegisdb_core.Raft.Follow.{handle_append_entries}
use aegisdb_core.Raft.Follow.Accept.{Acceptable, append_accepted, log_after, node_after}
use aegisdb_core.Raft.Step.{step}
use aegisdb_core.Raft.Step.Terms.{step-term}
use aegisdb_core.Raft.Examples.{rand_low, log3, node}
use aegisdb_core.Raft.Examples.Logs.{log3-IsLog, log3_last, new_entry, at_three-Fits}

abbrev leading : Raft
leading = node leader (log3 1 1 2)

abbrev following : Raft
following = node follower (log3 1 1 2)

step-term_example : 2 ≤ (step rand_low in_memory (record new_message { from = 1 }) following).1.term
step-term_example =
    step-term rand_low in_memory (record new_message { from = 1 }) following (inl refl)
      (omega arith) (omega arith)

maybe_commit_example :
    ((maybe_commit in_memory leading).1 ≡ leading)
    ⊎ Commits in_memory leading (maybe_commit in_memory leading).1
maybe_commit_example = maybe_commit_lem in_memory leading

-- The commit index does move there.
maybe_commit_moves : (maybe_commit in_memory leading).1.raft_log.committed ≡ 3
unfolding maybe_commit quorum insert lookup term_sync last_index first_index sub64
maybe_commit_moves = refl

abbrev vote_for_two : Message
vote_for_two = record new_message {
  msg_type = request_vote;
  from = 2;
  term = 2;
  log_term = 2;
  index = 3;
}

one_vote_example :
    ((handle_request_vote rand_low in_memory vote_for_two following).1.vote ≡ 1)
    × ((handle_request_vote rand_low in_memory vote_for_two following).1.term ≡ 2)
    × (((handle_request_vote rand_low in_memory vote_for_two following).1 ≡ following)
        ⊎ ((handle_request_vote rand_low in_memory vote_for_two following).1
            ≡ respond_vote vote_for_two true following))
one_vote_example =
    one_vote_per_term rand_low in_memory vote_for_two following refl
      (λ e. absurd (omega (arith, e))) (λ e. absurd (omega (arith, e)))

abbrev free : Raft
free = record following { vote = 0 }

free_votes : (handle_request_vote rand_low in_memory vote_for_two free).1.vote ≡ 2
unfolding handle_request_vote term_sync last_index first_index sub64
free_votes = refl

abbrev granted : Message
granted = record new_message { msg_type = request_vote_response; from = 2; term = 2 }

abbrev running : Raft
running = node candidate (log3 1 1 2)

becomes_leader : (handle_request_vote_response rand_low granted running).1.state ≡ leader
unfolding handle_request_vote_response quorum insert become_leader bcast_append send_append lookup
    term_sync last_index first_index sub64 add64 Log.append
becomes_leader = refl

leader_by_quorum_example :
    (granted.term ≡ running.term)
    × (3 < 2 * count_votes true (values (insert 2 true running.votes)))
leader_by_quorum_example = leader_by_quorum rand_low granted running refl becomes_leader

become_leader_example :
    ((become_leader running).0 ≡ ok tt) × LeadsAfter running (become_leader running).1
become_leader_example = become_leader_lem running log3-IsLog (omega (arith, log3_last))

abbrev replication : Message
replication = record new_message {
  msg_type = append;
  from = 2;
  term = 2;
  log_term = 1;
  index = 2;
  entries = new_entry ∷ [];
  commit = 2;
}

second_term : require_term in_memory (log3 1 1 2) 2 ≡ ok 1
unfolding term_sync last_index first_index sub64
second_term = refl

replication_fits : Acceptable in_memory replication new_entry [] following
replication_fits = record {
  entries = refl;
  in_term = omega arith;
  prev_there = omega (arith, log3_last);
  prev_term = λ h. second_term;
  fits = at_three-Fits;
  unstable = omega arith;
}

append_accepted_example :
    (handle_append_entries in_memory replication following
      ≡ (ok tt, node_after replication new_entry [] following))
    × IsLog (log_after replication new_entry [] (log3 1 1 2))
    × ((log_after replication new_entry [] (log3 1 1 2)).entries
        ≡ (replaced (log3 1 1 2) new_entry []).entries)
    × (last_index (log_after replication new_entry [] (log3 1 1 2)) ≡ 3 + 0)
    × ((log_after replication new_entry [] (log3 1 1 2)).committed ≡ max 1 (min 2 (3 + 0)))
append_accepted_example =
    append_accepted in_memory replication new_entry [] following log3-IsLog replication_fits
