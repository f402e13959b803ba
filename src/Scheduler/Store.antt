-- ===== src/Scheduler/Store.antt =====
-- src/scheduler/cluster/store.rs, with the message `Store` of proto/metapb.proto. Times are nanoseconds.
-- The weights, which are floating point numbers, are left out: the methods modelled do not read them.
use aegisdb_core.Prelude.{ℕ, zero, suc, ◌-◌, Bool, true, false, String}

pub record Store : Type 0 where
  pub id : ℕ
  pub address : String
  pub state : ℕ

pub data StoreState : Type 0 where
  up offline tombstone : StoreState

pub record StoreInfo : Type 0 where
  pub meta : Store
  pub leader_count : ℕ
  pub region_count : ℕ
  pub leader_size : ℕ
  pub region_size : ℕ
  pub pending_peer_count : ℕ
  pub last_heartbeat : ℕ
  pub blocked : Bool
  pub healthy : Bool
  pub avg_resp_ms : ℕ
  pub error_count : ℕ
  pub mem_total : ℕ
  pub mem_used : ℕ
  pub disk_total : ℕ
  pub disk_used : ℕ
  pub network_state : String

-- `StoreInfo::new`
abbrev pub new_store : ℕ → Store → StoreInfo
new_store now store = record {
  meta = store;
  leader_count = 0;
  region_count = 0;
  leader_size = 0;
  region_size = 0;
  pending_peer_count = 0;
  last_heartbeat = now;
  blocked = false;
  healthy = true;
  avg_resp_ms = 0;
  error_count = 0;
  mem_total = 0;
  mem_used = 0;
  disk_total = 0;
  disk_used = 0;
  network_state = "normal";
}

-- `state`: a number that names no state is `Up`.
abbrev pub state_of : StoreInfo → StoreState
state_of s = elim s.meta.state [
  | zero ↦ up
  | suc zero ↦ offline
  | suc (suc zero) ↦ tombstone
  | suc (suc (suc n)) ↦ up
]

abbrev up_is : StoreState → Bool
up_is up = true
up_is _ = false

abbrev pub is_up : StoreInfo → Bool
is_up s = up_is (state_of s)

abbrev pub down_time : ℕ → StoreInfo → ℕ
down_time now s = now - s.last_heartbeat
