-- ===== src/Raft/Examples/Defects.antt =====
-- The theorems about src/raft/rawnode.rs and about defects at concrete nodes.
use aegisdb_core.Prelude.{
  ℕ, ◌+◌, ◌-◌, ◌≤◌, ◌<◌, ◌≡◌, refl, true, false, [], ◌∷◌, ok, arith, length, sub64, drop,
}
use aegisdb_core.Prelude.Assoc.{nat_eq}
use aegisdb_core.Raft.Types.{
  Message, follower, candidate, leader, new_message, heartbeat, request_vote,
}
use aegisdb_core.Raft.Log.{RaftLog, last_index, first_index, term_sync}
use aegisdb_core.Raft.Log.Shape.{IsLog, Numbered}
use aegisdb_core.Raft.State.{Raft, in_memory, quorum, or_zero}
use aegisdb_core.Raft.Replicate.Commit.{acknowledged}
use aegisdb_core.Raft.Elect.{log_ok}
use aegisdb_core.Raft.Step.{step}
use aegisdb_core.Raft.Step.Defects.{second_vote}
use aegisdb_core.Raft.RawNode.{
  RawNode, Ready, ready, advance, has_ready, soft_state_of, hard_state_of,
}
use aegisdb_core.Raft.RawNode.Rounds.{applies_uncommitted, round_settles}
use aegisdb_core.Raft.Examples.{rand_low, log3, node}

abbrev old_heartbeat : Message
old_heartbeat = record new_message { msg_type = heartbeat; from = 3; term = 1 }

abbrev same_heartbeat : Message
same_heartbeat = record old_heartbeat { term = 2 }

abbrev vote_for_two : Message
vote_for_two = record new_message {
  msg_type = request_vote;
  from = 2;
  term = 2;
  log_term = 2;
  index = 3;
}

two_is_recent :
    log_ok vote_for_two
      (or_zero (term_sync (log3 1 1 2) (last_index (log3 1 1 2))))
      (last_index (log3 1 1 2))
    ≡ true
unfolding term_sync last_index first_index sub64
two_is_recent = refl

second_vote_example :
    ((step rand_low in_memory vote_for_two
        (step rand_low in_memory same_heartbeat (node candidate (log3 1 1 2))).1).1.vote
      ≡ 2)
    × ((step rand_low in_memory vote_for_two
          (step rand_low in_memory same_heartbeat (node candidate (log3 1 1 2))).1).1.term
        ≡ 2)
second_vote_example =
    second_vote rand_low same_heartbeat vote_for_two (node candidate (log3 1 1 2)) refl refl refl
      refl refl two_is_recent

-- One of the two peers is behind.
abbrev half_there : Raft
half_there = record (node leader (log3 1 1 2)) {
  prs =
      (2, record { match_index = 3; next_index = 4 })
      ∷ (3, record { match_index = 1; next_index = 2 })
      ∷ [];
}

needs_peers : acknowledged 2 half_there < quorum half_there
unfolding quorum
needs_peers = omega arith

abbrev raw : RaftLog → RawNode
raw log = record {
  raft = node follower log;
  prev = record {
    soft = soft_state_of (node follower log);
    hard = hard_state_of (node follower log);
    stabled = log.stabled;
    applied = log.applied;
  };
}

other_IsLog :
    (applied committed : ℕ) → applied ≤ committed → committed ≤ 3 → IsLog (log3 applied committed 2)
unfolding last_index first_index
other_IsLog applied committed h k = record {
  row = record {
    settled = refl;
    numbered = (refl, (refl, (refl, tt)));
    from_one = omega arith;
    fits = omega arith;
    word = omega arith;
  };
  applied_le = h;
  committed_le = k;
  committed_ge = omega arith;
  stabled_le = omega arith;
  stabled_ge = omega arith;
}

last_three : (applied committed : ℕ) → last_index (log3 applied committed 2) ≡ 3
unfolding last_index
last_three applied committed = refl

applies_uncommitted_example :
    (rd : Ready) × (n' : RawNode) × (ready (raw (log3 0 1 2)) ≡ ok (rd, n'))
    × ((advance rd n').raft.raft_log.committed ≡ 1)
    × ((advance rd n').raft.raft_log.applied ≡ 1 + 1)
applies_uncommitted_example =
    applies_uncommitted (raw (log3 0 1 2)) (other_IsLog 0 1 (omega arith) (omega arith))
      (omega arith) (omega (arith, last_three 0 1))

round_settles_example :
    (rd : Ready) × (n' : RawNode) × (ready (raw (log3 1 1 2)) ≡ ok (rd, n'))
    × (rd.entries ≡ drop (3 - first_index (log3 1 1 2)) (log3 1 1 2).entries)
    × Numbered 3 rd.entries
    × (2 + length rd.entries ≡ last_index (log3 1 1 2))
    × (rd.messages ≡ [])
    × (has_ready (advance rd n') ≡ false)
round_settles_example =
    round_settles (raw (log3 1 1 2)) (other_IsLog 1 1 (omega arith) (omega arith)) refl
