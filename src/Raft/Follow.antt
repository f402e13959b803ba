-- ===== src/Raft/Follow.antt =====
-- src/raft/raft.rs: what a follower does with the leader's messages.
pub mod Accept
use aegisdb_core.Prelude.{
  ℕ, true, false, not, none, some, ltb, leb, ◌==◌, if◌then◌else◌, min, sub64,
}
use aegisdb_core.Raft.Types.{Message, Snapshot, new_message, append_response, heartbeat_response}
use aegisdb_core.Raft.Log
use aegisdb_core.Raft.Log.{RaftLog, last_index, apply_snapshot}
use aegisdb_core.Raft.State.{Raft, Outcome, done, try, push, Mode, require_term}

-- A refusal of `m`, with a hint where to go on.
abbrev reject_append : Message → ℕ → Raft → Raft
reject_append m index r =
    push
      (record new_message {
        msg_type = append_response;
        to = m.from;
        from = r.id;
        term = r.term;
        reject = true;
        index = index;
      })
      r

abbrev accept_append : Message → Raft → Raft
accept_append m r =
    push
      (record new_message {
        msg_type = append_response;
        to = m.from;
        from = r.id;
        term = r.term;
        reject = false;
        index = last_index r.raft_log;
      })
      r

-- `if m.commit > committed { committed = m.commit.min(last_index()) }`
unfoldable pub follow_commit : ℕ → RaftLog → RaftLog
follow_commit commit l =
    if ltb l.committed commit then record l { committed = min commit (last_index l) } else l

-- `self.term` raised to that of the message, and `self.lead` set.
abbrev follow_leader : Message → Raft → Raft
follow_leader m r = record r { term = if ltb r.term m.term then m.term else r.term; lead = m.from }

append_entries : Message → Raft → Outcome
unfolding follow_commit
append_entries m r =
    try (Log.append r.raft_log m.entries) r
      λ l. done (accept_append m (record r { raft_log = follow_commit m.commit l }))

-- The checks that the entry below the new ones is there, with the leader's term.
match_and_append : Mode → Message → Raft → Outcome
unfolding append_entries
match_and_append mode m r =
    if ltb (last_index r.raft_log) m.index
    then done (reject_append m (last_index r.raft_log) r)
    else if ltb 0 m.index
    then (try (require_term mode r.raft_log m.index) r λ t.
        if not (t == m.log_term)
        then done (reject_append m (sub64 m.index 1) r)
        else append_entries m r)
    else append_entries m r

-- `handle_append_entries` and `handle_append_entries_async`
unfoldable pub handle_append_entries : Mode → Message → Raft → Outcome
unfolding match_and_append
handle_append_entries mode m r =
    if ltb m.term r.term
    then done (reject_append m 0 r)
    else match_and_append mode m (follow_leader m r)

unfoldable pub handle_heartbeat : Message → Raft → Outcome
unfolding follow_commit
handle_heartbeat m r =
    if ltb m.term r.term
    then done r
    else let r1 = follow_leader m r in
      done (
        push
          (record new_message {
            msg_type = heartbeat_response;
            to = m.from;
            from = r1.id;
            term = r1.term;
          })
          (record r1 { raft_log = follow_commit m.commit (r1.raft_log) }))

install_snapshot : Message → Snapshot → Raft → Outcome
install_snapshot m s r =
    if leb s.metadata.index r.raft_log.committed
    then done r
    else try (apply_snapshot r.raft_log s) r λ l. done (accept_append m (record r { raft_log = l }))

unfoldable pub handle_snapshot : Message → Raft → Outcome
unfolding install_snapshot
handle_snapshot m r = elim m.snapshot [ none ↦ done r | some s ↦ install_snapshot m s r ]
