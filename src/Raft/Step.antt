-- ===== src/Raft/Step.antt =====
-- src/raft/raft.rs: construction, the clock, the dispatch of messages, and membership.
pub mod Terms
pub mod Defects
use aegisdb_core.Prelude.{
  ℕ, ◌*◌, Bool, true, false, not, ◌&&◌, List, [], ◌∷◌, none, some, Result, ok, ◌>>=◌, ltb, leb,
  ◌==◌, if◌then◌else◌, add64,
}
use aegisdb_core.Prelude.Assoc.{Assoc, lookup, insert, remove, nat_eq}
use aegisdb_core.Raft.Types.{
  Message, Entry, normal, conf_change, new_message, no_node, new_normal, new_conf_change,
  MessageType, hup, beat, propose, append, append_response, request_vote, request_vote_response,
  snapshot, heartbeat, heartbeat_response, StateType, follower, candidate, leader, RaftConfig,
  validate,
}
use aegisdb_core.Raft.Log
use aegisdb_core.Raft.Log.{last_index}
use aegisdb_core.Raft.Progress.{Progress, new_progress}
use aegisdb_core.Raft.State.{
  Raft, Rand, Outcome, done, ◌▹◌, try, push, swallow, is_leader, Mode, in_memory,
}
use aegisdb_core.Raft.Replicate.{
  bcast_append, bcast_heartbeat, maybe_commit, handle_append_response, handle_heartbeat_response,
}
use aegisdb_core.Raft.Elect.{
  become_follower, campaign, handle_request_vote, handle_request_vote_response,
}
use aegisdb_core.Raft.Follow.{handle_append_entries, handle_heartbeat, handle_snapshot}

-- A progress for each node of the list but `id`.
peer_progress : ℕ → ℕ → List ℕ → Assoc ℕ Progress → Assoc ℕ Progress
peer_progress id next [] prs = prs
peer_progress id next (p ∷ ps) prs =
    peer_progress id next ps (if not (p == id) then insert p (new_progress next) prs else prs)

abbrev pub is_nil {ℓ} : {A : Type ℓ} → List A → Bool
is_nil [] = true
is_nil (x ∷ xs) = false

module _ (rand : Rand) where
  -- `Raft::new`; the generator stands at `seed`.
  unfoldable pub new : RaftConfig → ℕ → Result Raft
  unfolding peer_progress
  new c seed = do
    _ ← validate c
    (hard_state, conf_state) ← c.storage.initial_state
    log ← Log.new_log c.storage
    let next = add64 (last_index log) 1
    let from_peers = peer_progress c.id next c.peers []
    let from_storage = peer_progress c.id next conf_state.nodes from_peers
    let drawn = rand.gen_range seed c.election_tick (c.election_tick * 2)
    ok (record {
      id = c.id;
      term = hard_state.term;
      vote = hard_state.vote;
      raft_log = record log { applied = c.applied };
      prs = if is_nil from_peers && not (is_nil conf_state.nodes) then from_storage else from_peers;
      state = follower;
      votes = [];
      msgs = [];
      lead = no_node;
      heartbeat_timeout = c.heartbeat_tick;
      election_timeout = c.election_tick;
      heartbeat_elapsed = 0;
      election_elapsed = 0;
      random_election_timeout = drawn.0;
      seed = drawn.1;
    })

-- The proposed entries, numbered on from `index` in the leader's term.
renumber : ℕ → ℕ → List Entry → List Entry
renumber term index [] = []
renumber term index (e ∷ es) =
    elim e.entry_type [
      | conf_change ↦ new_conf_change term index e.payload
      | normal ↦ new_normal term index e.payload
    ]
    ∷ renumber term (add64 index 1) es

unfoldable pub handle_propose : Mode → Message → Raft → Outcome
unfolding renumber
handle_propose mode m r =
    try (Log.append r.raft_log (renumber r.term (add64 (last_index r.raft_log) 1) m.entries)) r
      λ l. maybe_commit mode (record r { raft_log = l }) ▹ bcast_append mode

forward : Message → Raft → Raft
forward m r = if not (r.lead == no_node) then push (record m { to = r.lead }) r else r

abbrev heard : Raft → Raft
heard r = record r { election_elapsed = 0 }

module _ (rand : Rand) (mode : Mode) (m : Message) (r : Raft) where
  unfoldable pub step_follower : MessageType → Outcome
  unfolding forward
  step_follower hup = campaign rand mode r
  step_follower beat = done (forward m r)
  step_follower propose = done (forward m r)
  step_follower append = handle_append_entries mode m (heard r)
  step_follower heartbeat = handle_heartbeat m (heard r)
  step_follower snapshot = handle_snapshot m (heard r)
  step_follower request_vote = handle_request_vote rand mode m r
  step_follower _ = done r

  unfoldable pub step_candidate : MessageType → Outcome
  step_candidate hup = campaign rand mode r
  step_candidate append = handle_append_entries mode m (become_follower rand m.term m.from r)
  step_candidate heartbeat = handle_heartbeat m (become_follower rand m.term m.from r)
  step_candidate snapshot = handle_snapshot m (become_follower rand m.term m.from r)
  step_candidate request_vote = handle_request_vote rand mode m r
  step_candidate request_vote_response = handle_request_vote_response rand m r
  step_candidate _ = done r

  unfoldable pub step_leader : MessageType → Outcome
  step_leader beat = bcast_heartbeat r
  step_leader propose = handle_propose mode m r
  step_leader append_response = handle_append_response mode m r
  step_leader heartbeat_response = handle_heartbeat_response mode m r
  step_leader request_vote = handle_request_vote rand mode m r
  step_leader snapshot = handle_snapshot m (become_follower rand m.term m.from r)
  step_leader _ = done r

  unfoldable pub dispatch : StateType → Outcome
  unfolding step_follower step_candidate step_leader
  dispatch follower = step_follower m.msg_type
  dispatch candidate = step_candidate m.msg_type
  dispatch leader = step_leader m.msg_type

abbrev hides_leader : MessageType → Bool
hides_leader request_vote = true
hides_leader append = true
hides_leader _ = false

module _ (rand : Rand) (mode : Mode) where
  -- A node that sees a higher term becomes a follower in it.
  unfoldable pub catch_up : Message → Raft → Raft
  catch_up m r =
      if ltb r.term m.term
      then become_follower rand m.term (if hides_leader m.msg_type then no_node else m.from) r
      else r

  -- `step` and `step_async`
  unfoldable pub step : Message → Raft → Outcome
  unfolding catch_up
  step m r = let r1 = catch_up m r in dispatch rand mode m r1 r1.state

module _ (rand : Rand) where
  tick_leader : Raft → Outcome
  tick_leader r =
      let r1 = record r { heartbeat_elapsed = add64 r.heartbeat_elapsed 1 } in
      if leb r1.heartbeat_timeout r1.heartbeat_elapsed
      then swallow (
          step rand in_memory (record new_message { msg_type = beat; from = r.id })
            (record r1 { heartbeat_elapsed = 0 }))
      else done r1

  tick_other : Raft → Outcome
  tick_other r =
      let r1 = record r { election_elapsed = add64 r.election_elapsed 1 } in
      if leb r1.random_election_timeout r1.election_elapsed
      then swallow (
          step rand in_memory (record new_message { msg_type = hup; from = r.id })
            (record r1 { election_elapsed = 0 }))
      else done r1

  -- `tick`
  unfoldable pub tick : Raft → Outcome
  unfolding tick_leader tick_other
  tick r = if is_leader r.state then tick_leader r else tick_other r

-- `add_node`
unfoldable pub add_peer : ℕ → Raft → Raft
add_peer id r = if id == r.id then r else elim (lookup id r.prs) [
  | none ↦ record r { prs = insert id (new_progress (add64 (last_index r.raft_log) 1)) r.prs }
  | some p ↦ r
]

-- `remove_node`
unfoldable pub remove_peer : ℕ → Raft → Outcome
remove_peer id r =
    if id == r.id
    then done r
    else let r1 = record r { prs = remove id r.prs } in
      if is_leader r1.state then swallow (maybe_commit in_memory r1) else done r1
