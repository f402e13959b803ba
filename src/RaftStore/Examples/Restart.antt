-- ===== src/RaftStore/Examples/Restart.antt =====
-- A run of src/raftstore/recovery.rs, over a database that holds the state of one region.
use aegisdb_core.Prelude.{ℕ, ◌≡◌, ◌≢◌, ◌↔◌, refl, List, [], ◌∷◌, Option, none, some, ok, panic}
use aegisdb_core.Prelude.Bytes.{Bytes}
use aegisdb_core.Engine.{key_with_cf}
use aegisdb_core.Engine.Memory.{cell_db, cell_scan, cell_view}
use aegisdb_core.RaftStore.Meta.{
  Encoding, normal, RegionLocalState, get_region_local_state, decoded,
}
use aegisdb_core.RaftStore.Meta.Keys.{region_state_key}
use aegisdb_core.RaftStore.Recovery.{recover_regions}
use aegisdb_core.RaftStore.Recovery.Own.{IsOwn, IsReadable}
use aegisdb_core.RaftStore.Recovery.Complete.{recover_regions_lem}
use aegisdb_core.Scheduler.Region.{Region}
use mathlib.Core.List.{Memᴰ}

abbrev state_cell : Bytes
state_cell = key_with_cf [] (region_state_key 1)

abbrev stored_region : Region
stored_region = record {
  id = 1;
  start_key = [];
  end_key = [];
  region_epoch = none;
  peers = record { id = 1; store_id = 1 } ∷ [];
}

-- The one region and its state, whatever the bytes.
abbrev one_region : Encoding Region
one_region = record { serialize = λ r. ok []; deserialize = λ b. ok stored_region }

abbrev one_state : Encoding RegionLocalState
one_state = record {
  serialize = λ a. ok [];
  deserialize = λ b. ok (record { state = normal; region_bytes = b });
}

never_panics : (found : Option Bytes) → decoded one_state found ≢ panic
never_panics none h = cc
never_panics (some b) h = cc

readable : IsReadable (cell_db state_cell) (cell_scan state_cell) one_region one_state (some [])
unfolding get_region_local_state
readable region_id = (
  never_panics (cell_view state_cell (some []) (key_with_cf [] (region_state_key region_id))),
  (λ state there. (stored_region, refl)),
)

recover_regions_lem_example :
    (rs : List Region) × (recover_regions
        (cell_db state_cell)
        (cell_scan state_cell)
        one_region
        one_state
        1
        (some [])
      ≡ ok rs)
    × (Memᴰ stored_region rs ↔ (
        (region_id : ℕ) × IsOwn
          (cell_db state_cell)
          (cell_scan state_cell)
          one_region
          one_state
          1
          (some [])
          region_id
          stored_region))
recover_regions_lem_example =
    recover_regions_lem (cell_db state_cell) (cell_scan state_cell) one_region one_state 1 (some [])
      readable stored_region
