-- ===== src/Raft/Elect/Leader.antt =====
-- src/raft/raft.rs: a node that becomes leader.
use aegisdb_core.Prelude.{
  ℕ, ◌+◌, ◌<◌, ◌≡◌, refl, ◌∙◌, sym, subst, List, [], ◌∷◌, some, Result, ok, arith, length, u64_mod,
  add64, add64-eq,
}
use aegisdb_core.Prelude.Assoc.{lookup, map_values, Assoc, nat_eq}
use aegisdb_core.Raft.Types.{Entry, leader, new_normal}
use aegisdb_core.Raft.Progress.{Progress}
use aegisdb_core.Raft.Log.{last_index}
use aegisdb_core.Raft.Log.Shape.{IsLog, last_index_lem}
use aegisdb_core.Raft.Log.Append.{Fits, replaced, append-IsLog, first_index-replaced}
use aegisdb_core.Raft.State.{Raft, Outcome, swallow, swallow-node, in_memory}
use aegisdb_core.Raft.Replicate.{bcast_append}
use aegisdb_core.Raft.Replicate.Frame.{bcast_append-frame}
use aegisdb_core.Raft.Replicate.Sends.{InRange, bcast_append-ok}
use aegisdb_core.Raft.Elect.{become_leader, announce, reset_progress}

-- The entry that a new leader writes.
abbrev pub noop : Raft → Entry
noop r = new_normal r.term (last_index r.raft_log + 1) []

noop-Fits :
    (r : Raft)
    → IsLog r.raft_log
    → last_index r.raft_log + 2 < u64_mod
    → Fits r.raft_log (noop r) []
noop-Fits r v w =
    let end = last_index_lem r.raft_log v.row in
    record {
      numbered = (refl, tt);
      above = omega (arith, v.committed_le);
      from_first = omega (arith, end);
      no_gap = omega arith;
      keeps_first = λ e. no_entries r.raft_log.entries (omega (arith, end, e));
      word = omega arith;
    }
  where
    no_entries : (es : List Entry) → length es ≡ 0 → es ≡ []
    no_entries [] h = refl
    no_entries (e ∷ es) h = absurd (omega arith)

reset-next :
    (last to : ℕ) (prs : Assoc ℕ Progress) (p : Progress)
    → lookup to (map_values (reset_progress last) prs) ≡ some p
    → p.next_index ≡ add64 last 1
unfolding lookup
reset-next last to [] p h = cc
reset-next last to ((k, q) ∷ prs) p h = ground (arith, reset-next last to prs p)

swallow-ok : (o : Outcome) → o.0 ≡ ok tt → (swallow o).0 ≡ ok tt
swallow-ok (ok _, r) h = refl
swallow-ok (Result.err e, r) h = cc
swallow-ok (Result.panic, r) h = cc

-- `s` is `r` as a leader whose log has one more entry, of the leader's term.
pub record LeadsAfter (r s : Raft) : Type 0 where
  pub state : s.state ≡ leader
  pub term : s.term ≡ r.term
  pub log : s.raft_log ≡ replaced r.raft_log (noop r) []
  pub is_log : IsLog s.raft_log
  pub last : last_index s.raft_log ≡ last_index r.raft_log + 1
  pub range : InRange s

-- A node with a well-formed log, its last index two below 2^64 at most, that becomes leader does so
-- without an error or a panic: it is leader in the same term, its log is well-formed again and is
-- the old one with one entry of the leader's term behind it, and every peer's next index lies in it.
pub become_leader_lem :
    (r : Raft)
    → IsLog r.raft_log
    → last_index r.raft_log + 2 < u64_mod
    → ((become_leader r).0 ≡ ok tt) × LeadsAfter r (become_leader r).1
unfolding become_leader announce
become_leader_lem r v w =
    let f = noop-Fits r v w in
    let (e, is_log, last) = append-IsLog r.raft_log (noop r) [] v f (omega (arith, v.stabled_le)) in
    let one = add64-eq (last_index r.raft_log) 1 (omega arith) in
    let first = first_index-replaced r.raft_log (noop r) [] v.row f in
    let r1 : Raft = record r {
      raft_log = replaced r.raft_log (noop r) [];
      state = leader;
      lead = r.id;
      heartbeat_elapsed = 0;
      prs = map_values (reset_progress (last_index r.raft_log)) r.prs;
    } in
    let range : InRange r1 = record {
      at = λ to p h.
          let n = reset-next (last_index r.raft_log) to r.prs p h in
          (
            omega (arith, n, one, first, last_index_lem r.raft_log v.row),
            omega (arith, n, one, last),
          );
    } in
    let sent = bcast_append in_memory r1 in
    let after : LeadsAfter r (record r1 { msgs = sent.1.msgs }) = record {
      state = refl;
      term = refl;
      log = refl;
      is_log = is_log;
      last = omega (arith, last);
      range = record { at = range.at };
    } in
    rw (one, e)
      (
        swallow-ok sent (bcast_append-ok r1 is_log.row range),
        subst (LeadsAfter r) (sym (swallow-node sent ∙ bcast_append-frame in_memory r1)) after,
      )
