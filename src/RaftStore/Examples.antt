-- ===== src/RaftStore/Examples.antt =====
-- Runs of src/raftstore.
mod Restart
use aegisdb_core.Prelude.{
  ℕ, zero, suc, subst, ◌≤◌, ◌≡◌, ◌⊎◌, refl, true, false, List, [], ◌∷◌, Option, none, some, Result,
  ok, err, arith, if◌then◌else◌, All, ltb, add64,
}
use aegisdb_core.Prelude.Assoc.{lookup, insert, nat_eq}
use aegisdb_core.Prelude.Bytes.{Bytes, bytes_beq}
use aegisdb_core.Prelude.Order.{bytes_geb}
use aegisdb_core.Engine.{Db, Engines, key_with_cf, applied}
use aegisdb_core.Engine.Memory.{cell_db, cell_scan}
use aegisdb_core.Mvcc.Txn.{default}
use aegisdb_core.Raft.Types.{Entry, EntryType, normal, conf_change}
use aegisdb_core.RaftStore.Admin.{SplitRequest, execute_split, update_region_range, split_off}
use aegisdb_core.RaftStore.Admin.Split.{after_split, split_lem}
use aegisdb_core.RaftStore.Health.{check_health, check_nodes}
use aegisdb_core.RaftStore.Health.History.{
  Event, heard, failure, checked, history, no_history, run, failed_lem,
}
use aegisdb_core.RaftStore.Meta.{Encoding, write_raft_log, put_value, get_apply_state}
use aegisdb_core.RaftStore.Meta.Keys.{raft_log_key}
use aegisdb_core.RaftStore.PeerStorage.{Encodings, peer_storage}
use aegisdb_core.RaftStore.PeerStorage.Serves.{peer_storage_lem}
use aegisdb_core.RaftStore.Range.{key_in_region, is_empty}
use aegisdb_core.RaftStore.RegionTask.{TaskEncodings, destroy_range, in_range}
use aegisdb_core.RaftStore.RegionTask.Destroy.{is_destroyed, destroy_range_lem}
use aegisdb_core.RaftStore.SplitChecker.{check_split, scan_families, scan_cf, scan_items}
use aegisdb_core.RaftStore.SplitChecker.Inside.{check_split_lem}
use aegisdb_core.RaftStore.StoreMeta.{StoreMeta, new_store_meta, set_region, find_region_by_key}
use aegisdb_core.RaftStore.StoreMeta.Find.{IsIndexed}
use aegisdb_core.RaftStore.StoreMeta.Indexed.{set_region-IsIndexed, new_store_meta-IsIndexed}
use aegisdb_core.Scheduler.Cluster.{modify}
use aegisdb_core.Scheduler.Region.{Region, Peer}

abbrev region : Region
region = record {
  id = 1;
  start_key = [];
  end_key = [];
  region_epoch = none;
  peers = record { id = 1; store_id = 1 } ∷ [];
}

abbrev store : StoreMeta
store = set_region region new_store_meta

store-IsIndexed : IsIndexed store
unfolding key_in_region lookup
store-IsIndexed =
    set_region-IsIndexed region new_store_meta new_store_meta-IsIndexed refl (λ id q ne there. cc)

abbrev request : SplitRequest
request = record { split_key = 109 ∷ []; new_region_id = 2; new_peer_ids = 7 ∷ [] }

abbrev no_peers : Region → Result (List Peer)
no_peers r = err "not enough available stores"

abbrev new_peers : List Peer
new_peers = record { id = 7; store_id = 1 } ∷ []

split_lem_example :
    let lower = update_region_range region (109 ∷ []) in
    let upper = split_off region request new_peers in
    let after = after_split region request new_peers store in
    (execute_split 1 no_peers region request store
      ≡ (ok (record { cmd_type = 10; regions = lower ∷ upper ∷ [] }), after))
    × IsIndexed after
    × ((key : Bytes)
        → find_region_by_key key after ≡ (
            if key_in_region key region
            then some (if bytes_geb key (109 ∷ []) then upper else lower)
            else find_region_by_key key store))
unfolding set_region lookup insert key_in_region bytes_geb
split_lem_example =
    split_lem 1 no_peers store region request new_peers store-IsIndexed refl refl refl refl refl

abbrev events : List Event
events = heard 0 1 ∷ failure 1 ∷ failure 1 ∷ checked 100 ∷ []

failed_lem_example :
    (2 ≤ (history 10 1 events no_history).failures)
    × ((history 10 1 events no_history).overdue ≡ true)
unfolding run insert lookup modify check_health check_nodes
failed_lem_example = failed_lem 10 2 1 events refl

abbrev type_byte : EntryType → ℕ
type_byte normal = 0
type_byte conf_change = 1

abbrev entry_type : ℕ → EntryType
entry_type zero = normal
entry_type (suc k) = conf_change

abbrev entry_bytes : Entry → Result Bytes
entry_bytes e = ok (type_byte e.entry_type ∷ e.term ∷ e.index ∷ e.payload)

abbrev bytes_entry : Bytes → Result Entry
bytes_entry (t ∷ term ∷ index ∷ payload) =
    ok (record { entry_type = entry_type t; term = term; index = index; payload = payload })
bytes_entry _ = err "too short"

typed : (t : EntryType) → entry_type (type_byte t) ≡ t
typed normal = refl
typed conf_change = refl

round_trip : (e : Entry) (b : Bytes) → entry_bytes e ≡ ok b → bytes_entry b ≡ ok e
round_trip e b h =
    let same : type_byte e.entry_type ∷ e.term ∷ e.index ∷ e.payload ≡ b = cc in
    subst (λ t. bytes_entry t ≡ ok e) same
      (λ i. ok (record e { entry_type = typed e.entry_type i }))

abbrev no_encoding : {A : Type 0} → Encoding A
no_encoding = record { serialize = λ a. err "none"; deserialize = λ b. err "none" }

abbrev encodings : Encodings
encodings = record {
  local = no_encoding;
  apply = no_encoding;
  entry = record { serialize = entry_bytes; deserialize = bytes_entry };
}

abbrev log_db : Db
log_db = cell_db (raft_log_key 1 1)

abbrev entry : Entry
entry = record { entry_type = normal; term = 4; index = 1; payload = [] }

abbrev engines : Engines (cell_db []) log_db
engines = record { kv_state = none; raft_state = some none }

abbrev written : Option Bytes
written = some (0 ∷ 4 ∷ 1 ∷ [])

peer_storage_lem_example :
    let storage =
      peer_storage
        (cell_db [])
        log_db
        encodings
        region
        (record engines { raft_state = some written }) in
    (storage.entries 1 2 ≡ ok (entry ∷ []))
    × All (λ e. storage.term e.index ≡ ok e.term) (entry ∷ [])
unfolding write_raft_log put_value bytes_beq applied get_apply_state
peer_storage_lem_example =
    peer_storage_lem (cell_db []) log_db encodings region engines 1 (entry ∷ []) none written
      round_trip (λ k. refl) (omega arith) (omega arith) tt refl

-- A key of the user `z`, which does not lie in the range from `a` to `m` that is destroyed.
abbrev stored_key : Bytes
stored_key = key_with_cf default (122 ∷ [])

abbrev task_encodings : TaskEncodings
task_encodings = record {
  region = no_encoding;
  local = no_encoding;
  apply = no_encoding;
  snapshot = no_encoding;
}

destroy_range_lem_example :
    ◌≡◌ {A = Option Bytes} none
      (if is_destroyed (97 ∷ []) (109 ∷ []) stored_key then none else some (7 ∷ []))
unfolding destroy_range in_range bytes_geb bytes_beq applied default
destroy_range_lem_example =
    destroy_range_lem (cell_db stored_key) (cell_scan stored_key) task_encodings (97 ∷ [])
      (109 ∷ []) (some (7 ∷ [])) none refl stored_key

check_split_lem_example :
    (ltb 4 2 ≡ false) × ((is_empty (122 ∷ []) ≡ true) ⊎ (key_in_region (122 ∷ []) region ≡ true))
unfolding check_split scan_families scan_cf scan_items bytes_geb bytes_beq add64 default
check_split_lem_example =
    check_split_lem (cell_db stored_key) (cell_scan stored_key) (λ key. key) 2 1 region
      (some (7 ∷ 7 ∷ 7 ∷ [])) (122 ∷ []) refl refl
