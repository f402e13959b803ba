-- ===== src/Raft/Examples.antt =====
-- Concrete nodes and logs, at which the theorems about src/raft are applied.
mod Logs
mod Nodes
mod Defects
use aegisdb_core.Prelude.{
  ℕ, zero, suc, ◌+◌, ◌-◌, ◌*◌, ◌≤◌, ◌<◌, ◌≡◌, ◌≢◌, refl, ap, ◌⊎◌, inl, inr, true, false, not, List,
  [], ◌∷◌, ◌++◌, Option, none, some, Result, ok, err, panic, arith, length, u64_mod, max, min, drop,
  last?, add64, sub64,
}
use aegisdb_core.Prelude.Assoc.{lookup, insert, values, nat_eq}
use aegisdb_core.Raft.Types.{
  Entry, Message, Snapshot, Storage, StateType, follower, candidate, leader, new_message,
  new_normal, hup, append, heartbeat, request_vote, request_vote_response, no_node,
}
use aegisdb_core.Raft.Log
use aegisdb_core.Raft.Log.{
  RaftLog, last_index, first_index, term_sync, unstable_entries, next_entries, apply_snapshot,
  maybe_compact,
}
use aegisdb_core.Raft.Log.Shape.{IsRow, IsLog, Numbered}
use aegisdb_core.Raft.Log.Append.{Fits, replaced, append-IsLog}
use aegisdb_core.Raft.Log.Terms.{compacted}
use aegisdb_core.Raft.Log.Views.{next_entries_beyond_commit, next_entries_all_committed}
use aegisdb_core.Raft.Progress.{Progress}
use aegisdb_core.Raft.State.{
  Raft, Rand, Mode, in_memory, stored, quorum, checked_term, require_term, or_zero, done, push,
}
use aegisdb_core.Raft.Replicate.{maybe_commit, send_append}
use aegisdb_core.Raft.Replicate.Commit.{acknowledged, maybe_commit_lem}
use aegisdb_core.Raft.Replicate.Sends.{append_from}
use aegisdb_core.Raft.Elect.{
  become_leader, handle_request_vote, handle_request_vote_response, count_votes, respond_vote,
  log_ok,
}
use aegisdb_core.Raft.Elect.Votes.{one_vote_per_term, leader_by_quorum, Recent}
use aegisdb_core.Raft.Elect.Leader.{LeadsAfter, become_leader_lem}
use aegisdb_core.Raft.Follow.{handle_append_entries}
use aegisdb_core.Raft.Follow.Accept.{
  Acceptable, Mismatch, Refuses, append_accepted, log_after, node_after,
}
use aegisdb_core.Raft.Step.{step}
use aegisdb_core.Raft.Step.Terms.{step-term}
use aegisdb_core.Raft.Step.Defects.{second_vote}
use aegisdb_core.Raft.RawNode.{
  RawNode, Ready, ready, advance, has_ready, soft_state_of, hard_state_of,
}
use aegisdb_core.Raft.RawNode.Rounds.{applies_uncommitted, round_settles}

abbrev pub empty_storage : Storage
empty_storage = record {
  initial_state = err "no state";
  entries = λ lo hi. ok [];
  term = λ i. err "no term";
  last_index = ok 0;
  first_index = ok 1;
  snapshot = err "no snapshot";
}

abbrev pub low : ℕ → ℕ → ℕ → ℕ × ℕ
low seed lo hi = (lo, seed)

pub low_in_range :
    (seed lo hi : ℕ) → lo ≤ hi → (lo ≤ (low seed lo hi).0) × ((low seed lo hi).0 ≤ hi)
low_in_range seed lo hi h = (omega arith, h)

-- A generator that always draws the lower bound.
abbrev pub rand_low : Rand
rand_low = record { gen_range = low; in_range = low_in_range }

abbrev pub entry : ℕ → ℕ → Entry
entry term index = new_normal term index (index ∷ [])

-- Three entries, the first `committed` of them committed.
abbrev pub log3 : ℕ → ℕ → ℕ → RaftLog
log3 applied committed stabled = record {
  storage = empty_storage;
  committed = committed;
  applied = applied;
  stabled = stabled;
  entries = entry 1 1 ∷ entry 1 2 ∷ entry 2 3 ∷ [];
  pending_snapshot = none;
}

abbrev pub node : StateType → RaftLog → Raft
node state log = record {
  id = 1;
  term = 2;
  vote = 1;
  raft_log = log;
  prs =
      (2, record { match_index = 3; next_index = 4 })
      ∷ (3, record { match_index = 3; next_index = 2 })
      ∷ [];
  state = state;
  votes = (1, true) ∷ [];
  msgs = [];
  lead = 0;
  heartbeat_timeout = 1;
  election_timeout = 10;
  heartbeat_elapsed = 0;
  election_elapsed = 0;
  random_election_timeout = 10;
  seed = 0;
}
