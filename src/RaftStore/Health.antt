-- ===== src/RaftStore/Health.antt =====
-- src/raftstore/failure_detector.rs: which nodes are taken for failed, and the leaders that are dropped for
-- it. Times are nanoseconds given to the call. A call holds the lock on the nodes, so it is one step; the
-- loops that wait are modelled by one round.
pub mod History
use aegisdb_core.Prelude.{
  ℕ, ◌+◌, ◌-◌, ◌*◌, ◌%◌, ◌^◌, Bool, true, false, List, [], ◌∷◌, ◌++◌, Option, none, some, ltb, leb,
  ◌==◌, if◌then◌else◌,
}
use aegisdb_core.Prelude.Assoc.{Assoc, lookup, insert, remove, nat_eq}
use aegisdb_core.Scheduler.Cluster.{member, modify}

pub data NodeStatus : Type 0 where
  healthy suspect failed : NodeStatus

-- `last_check`, which nothing reads, is left out.
pub record NodeHealth : Type 0 where
  pub status : NodeStatus
  pub last_heartbeat : Option ℕ
  pub consecutive_failures : ℕ

-- `NodeHealth::new`
abbrev pub new_health : NodeHealth
new_health = record { status = healthy; last_heartbeat = none; consecutive_failures = 0 }

-- `NodeHealth::update_heartbeat`
abbrev pub beat : ℕ → NodeHealth → NodeHealth
beat now h = record { status = healthy; last_heartbeat = some now; consecutive_failures = 0 }

-- `NodeHealth::record_failure`, on a `u32`
abbrev pub count_failure : NodeHealth → NodeHealth
count_failure h = record h { consecutive_failures = (h.consecutive_failures + 1) % 2 ^ 32 }

-- An hour where there was no heartbeat.
abbrev pub time_since_heartbeat : ℕ → Option ℕ → ℕ
time_since_heartbeat now none = 3600 * 1000000000
time_since_heartbeat now (some t) = now - t

abbrev pub suspected : NodeStatus → NodeStatus
suspected healthy = suspect
suspected suspect = suspect
suspected failed = failed

abbrev pub failed_is : NodeStatus → Bool
failed_is failed = true
failed_is _ = false

abbrev suspect_is : NodeStatus → Bool
suspect_is suspect = true
suspect_is _ = false

-- The health after `check_health`, and whether it tells of a new failure.
unfoldable pub check_health : ℕ → ℕ → ℕ → NodeHealth → NodeHealth × Bool
check_health now heartbeat_timeout failure_threshold h =
    if ltb heartbeat_timeout (time_since_heartbeat now h.last_heartbeat)
    then (let status = suspected h.status in
        if leb failure_threshold h.consecutive_failures
        then (if failed_is status
            then (record h { status = status }, false)
            else (record h { status = failed }, true))
        else (record h { status = status }, false))
    else (h, false)

pub record FailureDetector : Type 0 where
  pub nodes : Assoc ℕ NodeHealth
  pub heartbeat_timeout : ℕ
  pub failure_threshold : ℕ

-- `FailureDetector::new`
abbrev pub new_detector : ℕ → ℕ → FailureDetector
new_detector heartbeat_timeout failure_threshold = record {
  nodes = [];
  heartbeat_timeout = heartbeat_timeout;
  failure_threshold = failure_threshold;
}

abbrev pub register_node : ℕ → FailureDetector → FailureDetector
register_node node_id d = record d { nodes = insert node_id new_health d.nodes }

abbrev beaten : ℕ → Option NodeHealth → NodeHealth
beaten now none = beat now new_health
beaten now (some h) = beat now h

abbrev pub update_heartbeat : ℕ → ℕ → FailureDetector → FailureDetector
update_heartbeat now node_id d = record d {
  nodes = insert node_id (beaten now (lookup node_id d.nodes)) d.nodes;
}

abbrev pub record_failure : ℕ → FailureDetector → FailureDetector
record_failure node_id d = record d { nodes = modify node_id count_failure d.nodes }

abbrev status_of : Option NodeHealth → Option NodeStatus
status_of none = none
status_of (some h) = some h.status

abbrev pub get_status : ℕ → FailureDetector → Option NodeStatus
get_status node_id d = status_of (lookup node_id d.nodes)

-- The loop of `check_all_nodes`, which is also a round of `start_detection_loop`: the nodes after it and
-- those that it reports.
unfoldable pub check_nodes : ℕ → ℕ → ℕ → Assoc ℕ NodeHealth → Assoc ℕ NodeHealth × List ℕ
check_nodes now timeout threshold [] = ([], [])
check_nodes now timeout threshold ((id, h) ∷ l) =
    let (rest, reported) = check_nodes now timeout threshold l in
    let (checked, changed) = check_health now timeout threshold h in
    ((id, checked) ∷ rest, if changed then id ∷ reported else reported)

abbrev pub check_all_nodes : ℕ → FailureDetector → FailureDetector × List ℕ
check_all_nodes now d =
    let (nodes, reported) = check_nodes now d.heartbeat_timeout d.failure_threshold d.nodes in
    (record d { nodes = nodes }, reported)

abbrev pub remove_node : ℕ → FailureDetector → FailureDetector
remove_node node_id d = record d { nodes = remove node_id d.nodes }

nodes_with : (NodeStatus → Bool) → Assoc ℕ NodeHealth → List ℕ
nodes_with is [] = []
nodes_with is ((id, h) ∷ l) = let rest = nodes_with is l in if is h.status then id ∷ rest else rest

unfoldable pub get_failed_nodes : FailureDetector → List ℕ
unfolding nodes_with
get_failed_nodes d = nodes_with failed_is d.nodes

unfoldable pub get_suspect_nodes : FailureDetector → List ℕ
unfolding nodes_with
get_suspect_nodes d = nodes_with suspect_is d.nodes

-- The detector is shared with others, so it is given to each call.
pub record LeaderSwitchManager : Type 0 where
  pub region_leaders : Assoc ℕ ℕ

abbrev pub set_leader : ℕ → ℕ → LeaderSwitchManager → LeaderSwitchManager
set_leader region_id leader_id s = record s {
  region_leaders = insert region_id leader_id s.region_leaders;
}

abbrev pub get_leader : ℕ → LeaderSwitchManager → Option ℕ
get_leader region_id s = lookup region_id s.region_leaders

abbrev status_failed : Option NodeStatus → Bool
status_failed none = false
status_failed (some status) = failed_is status

abbrev switched :
    ℕ → FailureDetector → LeaderSwitchManager → Option ℕ → Option ℕ × LeaderSwitchManager
switched region_id d s none = (none, s)
switched region_id d s (some leader_id) =
    if status_failed (get_status leader_id d)
    then (none, record s { region_leaders = remove region_id s.region_leaders })
    else (get_leader region_id s, s)

unfoldable pub check_and_switch_leader :
    ℕ → FailureDetector → LeaderSwitchManager → Option ℕ × LeaderSwitchManager
check_and_switch_leader region_id d s = switched region_id d s (get_leader region_id s)

led_by : List ℕ → Assoc ℕ ℕ → List (ℕ × ℕ)
led_by failed_nodes [] = []
led_by failed_nodes ((region_id, leader_id) ∷ l) =
    let rest = led_by failed_nodes l in
    if member leader_id failed_nodes then (region_id, leader_id) ∷ rest else rest

-- The calls of `on_leader_failure` of one round of `start_monitoring`.
unfoldable pub monitoring_round : FailureDetector → LeaderSwitchManager → List (ℕ × ℕ)
unfolding led_by
monitoring_round d s = led_by (get_failed_nodes d) s.region_leaders
