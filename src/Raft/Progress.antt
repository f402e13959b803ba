-- ===== src/Raft/Progress.antt =====
-- src/raft/progress.rs: how far a follower's log is known to match the leader's.
use aegisdb_core.Prelude.{ℕ, ltb, ◌&&◌, if◌then◌else◌, add64, sub64}

pub record Progress : Type 0 where
  pub match_index : ℕ
  pub next_index : ℕ

-- `Progress::new`
abbrev pub new_progress : ℕ → Progress
new_progress next = record { match_index = 0; next_index = next }

unfoldable pub update_match : Progress → ℕ → Progress
update_match p index = record p { match_index = index; next_index = add64 index 1 }

unfoldable pub decrease_next : Progress → ℕ → Progress
decrease_next p rejected =
    if ltb 1 p.next_index && ltb (add64 rejected 1) p.next_index
    then record p { next_index = add64 rejected 1 }
    else record p { next_index = sub64 p.next_index 1 }
