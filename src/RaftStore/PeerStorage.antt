-- ===== src/RaftStore/PeerStorage.antt =====
-- src/raftstore/peer_storage.rs and peer.rs: the storage that a raft node of a region reads, and the node
-- with what its store keeps of it. Engines are read only here, so a call is given their state.
pub mod Serves
use aegisdb_core.Prelude.{
  ℕ, ◌+◌, ◌≡◌, Bool, true, false, ◌&&◌, List, [], ◌∷◌, Option, none, some, Result, ok, err, panic,
  ◌>>=◌, ltb, ◌==◌, if◌then◌else◌, add64,
}
use aegisdb_core.Prelude.Bytes.{Bytes}
use aegisdb_core.Engine.{Db, Engines}
use aegisdb_core.Raft.RawNode
use aegisdb_core.Raft.RawNode.{RawNode}
use aegisdb_core.Raft.State.{Rand}
use aegisdb_core.Raft.Types.{
  Entry, HardState, ConfState, Snapshot, Storage, RaftConfig, StateType, leader,
}
use aegisdb_core.RaftStore.Meta.{
  Encoding, RaftLocalState, RaftApplyState, get_apply_state, get_raft_local_state, read_raft_log,
  read_raft_log_entry,
}
use aegisdb_core.Scheduler.Region.{Region, Peer}

abbrev pub peer_ids : List Peer → List ℕ
peer_ids [] = []
peer_ids (p ∷ ps) = p.id ∷ peer_ids ps

-- The encodings of what is read.
pub record Encodings : Type 0 where
  pub local : Encoding RaftLocalState
  pub apply : Encoding RaftApplyState
  pub entry : Encoding Entry

-- `if let Ok(Some(apply_state)) = …`
abbrev pub if_there : Result (Option RaftApplyState) → Option RaftApplyState
if_there (ok o) = o
if_there (err e) = none
if_there panic = none

abbrev pub hard_state_of : Option RaftLocalState → HardState
hard_state_of none = record { term = 0; vote = 0; commit = 0 }
hard_state_of (some state) = state.hard_state

-- `term` where the log has no entry at the index.
abbrev pub last_term_at : ℕ → Option RaftLocalState → Result ℕ
last_term_at index none = err "entry not found"
last_term_at index (some state) =
    if index == state.last_index then ok state.last_term else err "entry not found"

abbrev pub term_or : Result (Option RaftLocalState) → ℕ → Option Entry → Result ℕ
term_or last index (some e) = ok e.term
term_or last index none = last >>= last_term_at index

abbrev pub term_unless_truncated : Option RaftApplyState → ℕ → Result ℕ → Result ℕ
term_unless_truncated none index from_log = from_log
term_unless_truncated (some state) index from_log =
    if ltb index state.truncated_state.index
    then err "entry index is before truncated index"
    else if index == state.truncated_state.index
    then ok state.truncated_state.term
    else from_log

abbrev pub last_index_or : ℕ → Option RaftLocalState → ℕ
last_index_or applied none = applied
last_index_or applied (some state) = state.last_index

module _ (kv raft : Db) (enc : Encodings) (region : Region) (engines : Engines kv raft) where
  abbrev pub apply_state : Result (Option RaftApplyState)
  apply_state = get_apply_state kv enc.apply region.id engines.kv_state

  abbrev pub local_state : Result (Option RaftLocalState)
  local_state = get_raft_local_state raft enc.local region.id engines.raft_state

  abbrev pub applied_index : ℕ
  applied_index = elim (if_there apply_state) [ none ↦ 0 | some state ↦ state.applied_index ]

  abbrev pub truncated_index : ℕ
  truncated_index = elim (if_there apply_state) [
    | none ↦ 0
    | some state ↦ state.truncated_state.index
  ]

  abbrev pub truncated_term : ℕ
  truncated_term = elim (if_there apply_state) [
    | none ↦ 0
    | some state ↦ state.truncated_state.term
  ]

  abbrev pub is_initialized : Bool
  is_initialized = ltb 0 applied_index

  abbrev conf_state : ConfState
  conf_state = record { nodes = peer_ids region.peers }

  -- `PeerStorage::term`
  unfoldable pub term_at : ℕ → Result ℕ
  term_at index =
      if index == 0
      then ok 0
      else term_unless_truncated (if_there apply_state) index (
          read_raft_log_entry raft enc.entry region.id index engines.raft_state
          >>= term_or local_state index)

  -- `impl Storage for PeerStorage`, which `Peer::new` hands to the node
  abbrev pub peer_storage : Storage
  peer_storage = record {
    initial_state = local_state >>= λ state. ok (hard_state_of state, conf_state);
    entries = λ lo hi. read_raft_log raft enc.entry region.id lo hi engines.raft_state;
    term = term_at;
    last_index = local_state >>= λ state. ok (last_index_or applied_index state);
    first_index = ok (add64 truncated_index 1);
    snapshot = ok (record {
      payload = [];
      metadata = record { conf_state = conf_state; index = applied_index; term = truncated_term };
    });
  }

-- `Peer`; the tag is left out, and the storage is given by the region.
pub record RegionPeer : Type 0 where
  pub meta : Peer
  pub region_id : ℕ
  pub raft_group : RawNode
  pub region : Region
  pub size_diff_hint : ℕ
  pub approximate_size : Option ℕ
  pub stopped : Bool

-- The single peer of a region, if that is on this store.
abbrev pub is_alone : ℕ → List Peer → Bool
is_alone store_id [] = false
is_alone store_id (p ∷ []) = p.store_id == store_id
is_alone store_id (p ∷ q ∷ ps) = false

abbrev pub is_leader : RegionPeer → Bool
is_leader p = elim p.raft_group.raft.state [
  | leader ↦ true
  | StateType.follower ↦ false
  | StateType.candidate ↦ false
]

-- `set_region`
abbrev pub set_peer_region : Region → RegionPeer → RegionPeer
set_peer_region region p = record p { region = region }

abbrev pub leader_id : RegionPeer → ℕ
leader_id p = p.raft_group.raft.lead

abbrev pub peer_term : RegionPeer → ℕ
peer_term p = p.raft_group.raft.term

module _ (rand : Rand) (kv raft : Db) (enc : Encodings) where
  abbrev started : Result (Unit {0}) × RawNode → Result RawNode
  started (ok u, n) = ok n
  started (err e, n) = err e
  started (panic, n) = panic

  abbrev campaign_if : Bool → RawNode → Result RawNode
  campaign_if false n = ok n
  campaign_if true n = started (RawNode.campaign rand n)

  -- `Peer::new`, with the two times of the configuration and the state of the generator
  unfoldable pub new_peer : ℕ → ℕ → ℕ → Engines kv raft → Region → Peer → ℕ → Result RegionPeer
  new_peer store_id election_ticks heartbeat_ticks engines region meta_peer seed =
      let config : RaftConfig = record {
        id = meta_peer.id;
        peers = peer_ids region.peers;
        election_tick = election_ticks;
        heartbeat_tick = heartbeat_ticks;
        storage = peer_storage kv raft enc region engines;
        applied = applied_index kv raft enc region engines;
      } in
      RawNode.new rand config seed >>= campaign_if (is_alone store_id region.peers) >>= λ n.
      ok (record {
        meta = meta_peer;
        region_id = region.id;
        raft_group = n;
        region = region;
        size_diff_hint = 0;
        approximate_size = none;
        stopped = false;
      })
