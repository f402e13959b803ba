-- ===== src/RaftStore/PeerStorage/Serves.antt =====
-- src/raftstore/peer_storage.rs: the node reads the log that was written.
use aegisdb_core.Prelude.{
  ℕ, ◌+◌, ◌≤◌, ◌<◌, ◌≡◌, refl, false, List, [], ◌∷◌, Option, none, some, Result, ok, All, length,
  arith, ◌==◌,
}
use aegisdb_core.Prelude.Bytes.{Bytes}
use aegisdb_core.Engine.{Db, Engines}
use aegisdb_core.Raft.Types.{Entry}
use aegisdb_core.RaftStore.Meta.{RaftApplyState, write_raft_log}
use aegisdb_core.RaftStore.Meta.RaftLog.{
  IsRun, IsStored, write_raft_log-IsStored, read_raft_log_lem, read_raft_log_entry_lem,
}
use aegisdb_core.RaftStore.PeerStorage.{
  Encodings, apply_state, if_there, term_unless_truncated, term_at, peer_storage,
}
use aegisdb_core.Scheduler.Region.{Region}

abbrev pub TruncatedBelow : ℕ → Option RaftApplyState → Type 0
TruncatedBelow lo none = Unit
TruncatedBelow lo (some state) = state.truncated_state.index < lo

not_truncated :
    (o : Option RaftApplyState) (lo i : ℕ) (from_log : Result ℕ)
    → TruncatedBelow lo o
    → lo ≤ i
    → term_unless_truncated o i from_log ≡ from_log
not_truncated none lo i from_log h above = refl
not_truncated (some state) lo i from_log h above = ground arith

module _ (kv raft : Db) (enc : Encodings) (region : Region) (engines : Engines kv raft)
    (s : raft.State)
    (round_trip : (e : Entry) (b : Bytes)
      → enc.entry.serialize e ≡ ok b
      → enc.entry.deserialize b ≡ ok e)
    (readable : (k : Bytes) → raft.get s k ≡ ok (raft.view s k)) where
  abbrev after : Engines kv raft
  after = record engines { raft_state = some s }

  term_of_stored :
      (lo : ℕ) (e : Entry)
      → 0 < lo
      → lo ≤ e.index
      → TruncatedBelow lo (if_there (apply_state kv raft enc region engines))
      → IsStored raft enc.entry region.id s e
      → term_at kv raft enc region after e.index ≡ ok e.term
  unfolding term_at
  term_of_stored lo e pos above truncated stored =
      let not_zero : (e.index == 0) ≡ false = ground arith in
      let found = read_raft_log_entry_lem raft enc.entry region.id round_trip s readable e stored in
      rw
        (
          not_zero,
          not_truncated (if_there (apply_state kv raft enc region engines)) lo e.index _ truncated
              above,
          found,
        )
        refl

  terms_of_stored :
      (lo i : ℕ) (es : List Entry)
      → 0 < lo
      → lo ≤ i
      → IsRun i es
      → TruncatedBelow lo (if_there (apply_state kv raft enc region engines))
      → All (IsStored raft enc.entry region.id s) es
      → All (λ e. term_at kv raft enc region after e.index ≡ ok e.term) es
  terms_of_stored lo i [] pos above run truncated all = tt
  terms_of_stored lo i (e ∷ es) pos above (at, bound, run) truncated (stored, all) = (
    term_of_stored lo e pos (omega arith) truncated stored,
    terms_of_stored lo (i + 1) es pos (omega arith) run truncated all,
  )

-- Once entries from a positive index on, behind what was truncated, are written to the log of a region
-- without an error, the storage of its node gives exactly these entries for their indices, and the term of
-- each, if the encoding is undone by decoding and the reads do not fail.
pub peer_storage_lem :
    (kv raft : Db) (enc : Encodings) (region : Region) (engines : Engines kv raft) (lo : ℕ)
    (es : List Entry) (s s' : raft.State)
    → ((e : Entry) (b : Bytes) → enc.entry.serialize e ≡ ok b → enc.entry.deserialize b ≡ ok e)
    → ((k : Bytes) → raft.get s' k ≡ ok (raft.view s' k))
    → 0 < lo
    → IsRun lo es
    → TruncatedBelow lo (if_there (apply_state kv raft enc region engines))
    → write_raft_log raft enc.entry region.id es s ≡ (ok tt, s')
    → let storage = peer_storage kv raft enc region (record engines { raft_state = some s' }) in
      (storage.entries lo (lo + length es) ≡ ok es) × All (λ e. storage.term e.index ≡ ok e.term) es
peer_storage_lem kv raft enc region engines lo es s s' round_trip readable pos run truncated w =
    let stored = write_raft_log-IsStored raft enc.entry region.id lo es s s' run w in
    (
      read_raft_log_lem raft enc.entry region.id round_trip s' readable lo es run stored,
      terms_of_stored kv raft enc region engines s' round_trip readable lo lo es pos (omega arith)
          run truncated stored,
    )
