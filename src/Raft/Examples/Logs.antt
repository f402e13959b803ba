-- ===== src/Raft/Examples/Logs.antt =====
-- The theorems about src/raft/log.rs at a concrete log.
use aegisdb_core.Prelude.{◌+◌, ◌≡◌, refl, [], ◌∷◌, ok, arith}
use aegisdb_core.Prelude.Assoc.{nat_eq}
use aegisdb_core.Raft.Types.{Entry}
use aegisdb_core.Raft.Log
use aegisdb_core.Raft.Log.{
  RaftLog, last_index, first_index, term_sync, unstable_entries, next_entries, apply_snapshot,
  maybe_compact,
}
use aegisdb_core.Raft.Log.Shape.{IsLog}
use aegisdb_core.Raft.Log.Append.{Fits, replaced, append-IsLog}
use aegisdb_core.Raft.Examples.{entry, log3}

pub log3-IsLog : IsLog (log3 1 1 2)
unfolding last_index first_index
log3-IsLog = record {
  row = record {
    settled = refl;
    numbered = (refl, (refl, (refl, tt)));
    from_one = omega arith;
    fits = omega arith;
    word = omega arith;
  };
  applied_le = omega arith;
  committed_le = omega arith;
  committed_ge = omega arith;
  stabled_le = omega arith;
  stabled_ge = omega arith;
}

pub log3_first : first_index (log3 1 1 2) ≡ 1
unfolding first_index
log3_first = refl

pub log3_last : last_index (log3 1 1 2) ≡ 3
unfolding last_index
log3_last = refl

abbrev pub new_entry : Entry
new_entry = entry 2 3

pub at_three-Fits : Fits (log3 1 1 2) new_entry []
at_three-Fits = record {
  numbered = (refl, tt);
  above = omega arith;
  from_first = omega (arith, log3_first);
  no_gap = omega (arith, log3_last);
  keeps_first = λ e. absurd (omega (arith, e, log3_first));
  word = omega arith;
}

append-IsLog_example :
    (Log.append (log3 1 1 2) (new_entry ∷ []) ≡ ok (replaced (log3 1 1 2) new_entry []))
    × IsLog (replaced (log3 1 1 2) new_entry [])
    × (last_index (replaced (log3 1 1 2) new_entry []) ≡ 3 + 0)
append-IsLog_example = append-IsLog (log3 1 1 2) new_entry [] log3-IsLog at_three-Fits (omega arith)
