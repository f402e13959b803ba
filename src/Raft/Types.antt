-- ===== src/Raft/Types.antt =====
-- src/raft/types.rs and the trait of src/raft/storage.rs: entries, messages, snapshots, states.
use aegisdb_core.Prelude.{
  ℕ, Bool, true, false, ◌&&◌, List, [], Option, none, Result, ok, err, leb, ◌==◌, if◌then◌else◌,
}
use aegisdb_core.Prelude.Bytes.{Bytes}

-- `NONE`: no node
abbrev pub no_node : ℕ
no_node = 0

pub data StateType : Type 0 where
  follower candidate leader : StateType

pub data EntryType : Type 0 where
  normal conf_change : EntryType

pub record Entry : Type 0 where
  pub entry_type : EntryType
  pub term : ℕ
  pub index : ℕ
  pub payload : Bytes

abbrev pub new_normal : ℕ → ℕ → Bytes → Entry
new_normal term index payload = record {
  entry_type = normal;
  term = term;
  index = index;
  payload = payload;
}

abbrev pub new_conf_change : ℕ → ℕ → Bytes → Entry
new_conf_change term index payload = record {
  entry_type = conf_change;
  term = term;
  index = index;
  payload = payload;
}

pub data MessageType : Type 0 where
  hup beat propose : MessageType
  append append_response request_vote request_vote_response : MessageType
  snapshot heartbeat heartbeat_response transfer_leader timeout_now : MessageType

abbrev pub is_local : MessageType → Bool
is_local hup = true
is_local beat = true
is_local propose = true
is_local _ = false

abbrev pub is_response : MessageType → Bool
is_response append_response = true
is_response request_vote_response = true
is_response heartbeat_response = true
is_response _ = false

pub record ConfState : Type 0 where
  pub nodes : List ℕ

pub record SnapshotMetadata : Type 0 where
  pub conf_state : ConfState
  pub index : ℕ
  pub term : ℕ

pub record Snapshot : Type 0 where
  pub payload : Bytes
  pub metadata : SnapshotMetadata

-- `Snapshot::is_empty`
abbrev pub is_empty : Snapshot → Bool
is_empty s = s.metadata.index == 0

pub record Message : Type 0 where
  pub msg_type : MessageType
  pub to : ℕ
  pub from : ℕ
  pub term : ℕ
  pub log_term : ℕ
  pub index : ℕ
  pub entries : List Entry
  pub commit : ℕ
  pub snapshot : Option Snapshot
  pub reject : Bool

-- `Message::new`
abbrev pub new_message : Message
new_message = record {
  msg_type = hup;
  to = no_node;
  from = no_node;
  term = 0;
  log_term = 0;
  index = 0;
  entries = [];
  commit = 0;
  snapshot = none;
  reject = false;
}

pub record HardState : Type 0 where
  pub term : ℕ
  pub vote : ℕ
  pub commit : ℕ

-- `HardState::is_empty`
abbrev pub is_initial : HardState → Bool
is_initial h = h.term == 0 && (h.vote == 0 && h.commit == 0)

pub data ConfChangeType : Type 0 where
  add_node remove_node : ConfChangeType

pub record ConfChange : Type 0 where
  pub change_type : ConfChangeType
  pub node_id : ℕ
  pub context : Bytes

-- The trait that the application implements, at the time of the call.
pub record Storage : Type 0 where
  pub initial_state : Result (HardState × ConfState)
  pub entries : ℕ → ℕ → Result (List Entry)
  pub term : ℕ → Result ℕ
  pub last_index : Result ℕ
  pub first_index : Result ℕ
  pub snapshot : Result Snapshot

pub record RaftConfig : Type 0 where
  pub id : ℕ
  pub peers : List ℕ
  pub election_tick : ℕ
  pub heartbeat_tick : ℕ
  pub storage : Storage
  pub applied : ℕ

-- `RaftConfig::validate`
unfoldable pub validate : RaftConfig → Result (Unit {0})
validate c =
    if c.id == no_node
    then err "cannot use none as id"
    else if leb c.heartbeat_tick 0
    then err "heartbeat tick must be greater than 0"
    else if leb c.election_tick c.heartbeat_tick
    then err "election tick must be greater than heartbeat tick"
    else ok tt
