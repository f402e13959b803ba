-- ===== src/Raft/Replicate.antt =====
-- src/raft/raft.rs: the leader's side of replication.
pub mod Frame
pub mod Commit
pub mod Sends
use mathlib.Core.List.{reverse}
use aegisdb_core.Prelude.{
  ℕ, ◌-◌, not, List, [], ◌∷◌, none, some, Result, ok, ltb, leb, ◌==◌, if◌then◌else◌, length,
  get_elem?, min, add64, sub64, slice,
}
use aegisdb_core.Prelude.Assoc.{lookup, insert, keys, values, nat_eq}
use aegisdb_core.Raft.Types.{Message, Entry, new_message, append, heartbeat}
use aegisdb_core.Raft.Log.{RaftLog, last_index, first_index}
use aegisdb_core.Raft.Progress.{Progress, update_match, decrease_next}
use aegisdb_core.Raft.State.{
  Raft, Outcome, done, ◌▹◌, try, push, is_leader, quorum, Mode, checked_term, prev_term,
}

-- The entries from `next` to the last.
unsent : RaftLog → ℕ → Result (List Entry)
unsent l next =
    if leb next (last_index l)
    then slice (sub64 next (first_index l))
        (min (add64 (sub64 (last_index l) (first_index l)) 1) (length l.entries)) l.entries
    else ok []

send_from : Mode → Raft → ℕ → ℕ → Outcome
unfolding unsent
send_from mode r to next =
    if ltb (add64 (last_index r.raft_log) 1) next
    then done r
    else try (unsent r.raft_log next) r λ entries.
      try (if ltb 0 next then prev_term mode r.raft_log (sub64 next 1) else ok 0) r λ prev. done (
        push
          (record new_message {
            msg_type = append;
            to = to;
            from = r.id;
            term = r.term;
            log_term = prev;
            index = sub64 next 1;
            entries = entries;
            commit = r.raft_log.committed;
          })
          r)

-- `send_append` and `send_append_async`
unfoldable pub send_append : Mode → Raft → ℕ → Outcome
unfolding send_from
send_append mode r to = elim (lookup to r.prs) [
  | none ↦ done r
  | some p ↦ send_from mode r to p.next_index
]

unfoldable pub send_heartbeat : Raft → ℕ → Raft
send_heartbeat r to =
    push
      (record new_message {
        msg_type = heartbeat;
        to = to;
        from = r.id;
        term = r.term;
        commit = r.raft_log.committed;
      })
      r

append_to_all : Mode → List ℕ → Raft → Outcome
append_to_all mode [] r = done r
append_to_all mode (to ∷ ids) r =
    (if not (to == r.id) then send_append mode r to else done r) ▹ append_to_all mode ids

-- `bcast_append` and `bcast_append_async`
unfoldable pub bcast_append : Mode → Raft → Outcome
unfolding append_to_all
bcast_append mode r = append_to_all mode (keys r.prs) r

heartbeat_to_all : List ℕ → Raft → Raft
heartbeat_to_all [] r = r
heartbeat_to_all (to ∷ ids) r =
    heartbeat_to_all ids (if not (to == r.id) then send_heartbeat r to else r)

unfoldable pub bcast_heartbeat : Raft → Outcome
unfolding heartbeat_to_all
bcast_heartbeat r = done (heartbeat_to_all (keys r.prs) r)

-- `Vec::sort`
insert_sorted : ℕ → List ℕ → List ℕ
insert_sorted a [] = a ∷ []
insert_sorted a (x ∷ xs) = if leb a x then a ∷ x ∷ xs else x ∷ insert_sorted a xs

unfoldable pub sort : List ℕ → List ℕ
unfolding insert_sorted
sort [] = []
sort (x ∷ xs) = insert_sorted x (sort xs)

abbrev pub match_indices : List Progress → List ℕ
match_indices [] = []
match_indices (p ∷ ps) = p.match_index ∷ match_indices ps

-- `matches`: sorted, then reversed
matches : Raft → List ℕ
unfolding sort
matches r = reverse (sort (match_indices (values r.prs)))

commit_to : Mode → Raft → ℕ → Outcome
commit_to mode r index =
    if ltb r.raft_log.committed index
    then (try (checked_term mode r.raft_log index) r λ t. done (
        if t == r.term
        then record r { raft_log = record (r.raft_log) { committed = index } }
        else r))
    else done r

-- `maybe_commit` and `maybe_commit_async`; `matches[quorum - 1]` is in range after the test.
unfoldable pub maybe_commit : Mode → Raft → Outcome
unfolding matches commit_to
maybe_commit mode r =
    if not (is_leader r.state)
    then done r
    else if leb (quorum r) (length (matches r))
    then (elim (get_elem? (matches r) (quorum r - 1)) [
      | none ↦ done r
      | some index ↦ commit_to mode r index
    ])
    else done r

-- The progress of the sender after its answer.
unfoldable pub note_response : Message → Raft → Raft
note_response m r = elim (lookup m.from r.prs) [
  | none ↦ r
  | some p ↦ record r {
    prs =
        insert m.from (if m.reject then decrease_next p m.index else update_match p m.index) r.prs;
  }
]

unfoldable pub send_rest : Mode → Message → Raft → Outcome
send_rest mode m r = elim (lookup m.from r.prs) [
  | none ↦ done r
  | some p ↦
      if m.reject
      then send_append mode r m.from
      else if leb p.next_index (last_index r.raft_log)
      then send_append mode r m.from
      else done r
]

-- `handle_append_response` and `handle_append_response_async`
unfoldable pub handle_append_response : Mode → Message → Raft → Outcome
unfolding note_response send_rest
handle_append_response mode m r =
    if ltb m.term r.term
    then done r
    else (let r1 = note_response m r in if not m.reject then maybe_commit mode r1 else done r1)
      ▹ send_rest mode m

-- `handle_heartbeat_response` and `handle_heartbeat_response_async`
unfoldable pub handle_heartbeat_response : Mode → Message → Raft → Outcome
handle_heartbeat_response mode m r =
    if ltb m.term r.term then done r else elim (lookup m.from r.prs) [
      | none ↦ done r
      | some p ↦
          if leb p.next_index (last_index r.raft_log) then send_append mode r m.from else done r
    ]
