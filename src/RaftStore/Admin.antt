-- ===== src/RaftStore/Admin.antt =====
-- src/raftstore/admin.rs: an administrative command that the log holds, of which only the split of a
-- region is carried out; with the messages of src/proto/raft_cmdpb.rs that it reads. The stores of a new
-- region without given peers are chosen by `allocate_peers`.
pub mod Parts
pub mod Split
pub mod Refused
use aegisdb_core.Prelude.{
  ℕ, Bool, true, false, not, ◌&&◌, List, [], ◌∷◌, Option, none, some, Result, ok, err, panic, ◌==◌,
  if◌then◌else◌, add64,
}
use aegisdb_core.Prelude.Bytes.{Bytes}
use aegisdb_core.Prelude.Order.{bytes_geb}
use aegisdb_core.RaftStore.Range.{is_empty}
use aegisdb_core.RaftStore.StoreMeta.{StoreMeta, set_region}
use aegisdb_core.Scheduler.Region.{Region, RegionEpoch, Peer}

pub data AdminCmdType : Type 0 where
  invalid_admin change_peer compact_log transfer_leader split : AdminCmdType

-- `AdminCmdType::from`. A negative number names nothing, as 0 does.
abbrev pub admin_cmd_type : ℕ → AdminCmdType
admin_cmd_type n =
    if n == 1
    then change_peer
    else if n == 3
    then compact_log
    else if n == 4
    then transfer_leader
    else if n == 10
    then split
    else invalid_admin

pub record SplitRequest : Type 0 where
  pub split_key : Bytes
  pub new_region_id : ℕ
  pub new_peer_ids : List ℕ

-- The requests of the other kinds, which are refused unread, are left out.
pub record AdminRequest : Type 0 where
  pub cmd_type : ℕ
  pub split_request : Option SplitRequest

-- The answers of the other kinds are never there.
pub record AdminResponse : Type 0 where
  pub cmd_type : ℕ
  pub regions : List Region

abbrev pub epoch_or_default : Option RegionEpoch → RegionEpoch
epoch_or_default none = record { conf_ver = 0; version = 0 }
epoch_or_default (some e) = e

-- `is_key_in_range`
abbrev pub is_key_in_range : Bytes → Region → Bool
is_key_in_range key region =
    if not (is_empty region.start_key) && not (bytes_geb key region.start_key)
    then false
    else if not (is_empty region.end_key) && bytes_geb key region.end_key
    then false
    else true

abbrev pub update_region_range : Region → Bytes → Region
update_region_range region split_key =
    let e = epoch_or_default region.region_epoch in
    record region {
      end_key = split_key;
      region_epoch = some (record e { version = add64 e.version 1 });
    }

-- The new region of `create_new_region`, once its peers are known.
abbrev pub split_off : Region → SplitRequest → List Peer → Region
split_off old_region request peers =
    let e = epoch_or_default old_region.region_epoch in
    record {
      id = request.new_region_id;
      start_key = request.split_key;
      end_key = old_region.end_key;
      region_epoch = some (record { conf_ver = add64 e.conf_ver 1; version = add64 e.version 1 });
      peers = peers;
    }

abbrev pub peers_here : ℕ → List ℕ → List Peer
peers_here store_id [] = []
peers_here store_id (id ∷ ids) = record { id = id; store_id = store_id } ∷ peers_here store_id ids

-- `create_new_region` with the peers that it chose
abbrev pub created : Region → SplitRequest → Result (List Peer) → Result Region
created old_region request (ok peers) = ok (split_off old_region request peers)
created old_region request (err e) = err e
created old_region request panic = panic

-- `execute_split` once the new region is there or was refused.
abbrev pub store_split :
    Region → SplitRequest → StoreMeta → Result Region → Result AdminResponse × StoreMeta
store_split region request m (err e) = (err e, m)
store_split region request m panic = (panic, m)
store_split region request m (ok new_region) =
    let updated = update_region_range region request.split_key in
    (
      ok (record { cmd_type = 10; regions = updated ∷ new_region ∷ [] }),
      set_region new_region (set_region updated m),
    )

module _ (store_id : ℕ) (allocate_peers : Region → Result (List Peer)) where
  abbrev pub peers_for : Region → List ℕ → Result (List Peer)
  peers_for old_region [] = allocate_peers old_region
  peers_for old_region (id ∷ ids) = ok (peers_here store_id (id ∷ ids))

  abbrev pub create_new_region : Region → SplitRequest → Result Region
  create_new_region old_region request =
      created old_region request (peers_for old_region request.new_peer_ids)

  unfoldable pub execute_split :
      Region → SplitRequest → StoreMeta → Result AdminResponse × StoreMeta
  execute_split region request m =
      if is_empty request.split_key
      then (err "split key is empty", m)
      else if not (is_key_in_range request.split_key region)
      then (err "split key is not in region range", m)
      else store_split region request m (create_new_region region request)

  abbrev split_requested :
      Region → Option SplitRequest → StoreMeta → Result AdminResponse × StoreMeta
  split_requested region none m = (err "split request is missing", m)
  split_requested region (some request) m = execute_split region request m

  -- `execute` for a kind of command
  abbrev pub execute_kind :
      AdminCmdType → Region → AdminRequest → StoreMeta → Result AdminResponse × StoreMeta
  execute_kind split region request m = split_requested region request.split_request m
  execute_kind change_peer region request m = (err "ChangePeer not implemented", m)
  execute_kind transfer_leader region request m = (err "TransferLeader not implemented", m)
  execute_kind compact_log region request m = (err "CompactLog not implemented", m)
  execute_kind invalid_admin region request m = (err "invalid admin command", m)

  unfoldable pub execute : Region → AdminRequest → StoreMeta → Result AdminResponse × StoreMeta
  execute region request m = execute_kind (admin_cmd_type request.cmd_type) region request m
