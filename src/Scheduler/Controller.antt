-- ===== src/Scheduler/Controller.antt =====
-- src/scheduler/operator_controller.rs: the operators under way, at most one for a region.
pub mod History
pub mod Adding
pub mod Honest
pub mod Taken
pub mod Finish
pub mod Frame
use aegisdb_core.Prelude.{
  ℕ, ◌-◌, Bool, true, false, not, ◌&&◌, List, [], ◌∷◌, ◌++◌, Option, none, some, ltb, leb, ◌==◌,
  if◌then◌else◌, length, get_elem?, add64,
}
use aegisdb_core.Prelude.Assoc.{Assoc, Eq, lookup, insert, remove, values, nat_eq}
use aegisdb_core.Scheduler.Region.{RegionInfo, RegionEpoch, Peer, epoch, get_peer_by_store_id}
use aegisdb_core.Scheduler.Cluster.{BasicCluster, get_region}
use aegisdb_core.Scheduler.Operator
use aegisdb_core.Scheduler.Operator.{
  OpKind, OpStep, Operator, check, is_finish, conf_ver_changed, is_timeout, next_step, start,
}

pub data OperatorStatus : Type 0 where
  running success timeout cancel replace : OperatorStatus

pub record OperatorWithStatus : Type 0 where
  pub operator : Operator
  pub status : OperatorStatus

-- `ConfChangeType` of src/proto/eraftpb.rs
pub data ConfChangeType : Type 0 where
  add_node remove_node : ConfChangeType

pub record ChangePeer : Type 0 where
  pub peer : Peer
  pub change_type : ConfChangeType

-- `RegionHeartbeatResponse` of proto/schedulerpb.proto, less the fields that are always empty here.
pub record Command : Type 0 where
  pub region_id : ℕ
  pub region_epoch : RegionEpoch
  pub change_peer : Option ChangePeer
  pub transfer_leader : Option Peer

abbrev kind_beq : OpKind → OpKind → Bool
kind_beq Operator.region Operator.region = true
kind_beq Operator.leader Operator.leader = true
kind_beq Operator.admin Operator.admin = true
kind_beq _ _ = false

-- `hb_streams` is the list of what was sent on it.
pub record OperatorController : Type 0 where
  pub cluster : BasicCluster
  pub operators : Assoc ℕ Operator
  pub hb_streams : List Command
  pub counts : OpKind → ℕ
  pub op_records : Assoc ℕ OperatorWithStatus

-- `OperatorController::new`; a kind that is not counted yet has the count 0.
abbrev pub new_controller : BasicCluster → OperatorController
new_controller c = record {
  cluster = c;
  operators = [];
  hb_streams = [];
  counts = λ k. 0;
  op_records = [];
}

-- The kinds of the operators, counted.
pub count_kind : OpKind → List Operator → ℕ
count_kind k [] = 0
count_kind k (op ∷ ops) =
    let rest = count_kind k ops in if kind_beq op.kind k then add64 rest 1 else rest

update_counts : OperatorController → OperatorController
unfolding count_kind
update_counts c = record c { counts = λ k. count_kind k (values c.operators) }

put_op_record : Operator → OperatorStatus → OperatorController → OperatorController
put_op_record op status c = record c {
  op_records = insert op.region_id (record { operator = op; status = status }) c.op_records;
}

-- The command of a step; its parts are empty where there is nothing to be done.
command_of : RegionInfo → OpStep → Command
command_of r (Operator.transfer_leader from_store to_store) = record {
  region_id = r.region.id;
  region_epoch = epoch r;
  change_peer = none;
  transfer_leader = get_peer_by_store_id to_store r;
}
command_of r (Operator.add_peer to_store peer_id) = record {
  region_id = r.region.id;
  region_epoch = epoch r;
  change_peer = elim (get_peer_by_store_id to_store r) [
    | some p ↦ none
    | none ↦
        some
          (record { peer = record { id = peer_id; store_id = to_store }; change_type = add_node })
  ];
  transfer_leader = none;
}
command_of r (Operator.remove_peer from_store) = record {
  region_id = r.region.id;
  region_epoch = epoch r;
  change_peer = elim (get_peer_by_store_id from_store r) [
    | some p ↦ some (record { peer = p; change_type = remove_node })
    | none ↦ none
  ];
  transfer_leader = none;
}

send_schedule_command : RegionInfo → OpStep → OperatorController → OperatorController
unfolding command_of
send_schedule_command r step c = record c { hb_streams = c.hb_streams ++ (command_of r step ∷ []) }

-- The source of a call of `dispatch`.
pub data Source : Type 0 where
  heartbeat active_push create : Source

abbrev from_heartbeat : Source → Bool
from_heartbeat heartbeat = true
from_heartbeat _ = false

-- The operator left the list, with its last status.
retire : ℕ → Operator → OperatorStatus → OperatorController → OperatorController
unfolding update_counts put_op_record
retire id op status c =
    put_op_record op status (update_counts (record c { operators = remove id c.operators }))

-- A step that is finished in the region is left behind.
unfoldable pub advanced : RegionInfo → Operator → Operator
advanced r op = elim (get_elem? op.steps op.current_step) [
  | none ↦ op
  | some step ↦ if is_finish r step then next_step op else op
]

-- More changes of the configuration than the step makes.
unfoldable pub is_stale : Source → RegionInfo → Operator → OpStep → Bool
is_stale source r op step =
    from_heartbeat source
    && ltb (if conf_ver_changed r step then 1 else 0)
        ((epoch r).conf_ver - op.region_epoch.conf_ver)

send_or_cancel : Source → RegionInfo → Operator → OperatorController → OperatorController
unfolding retire send_schedule_command
send_or_cancel source r op c = elim (check r op) [
  | none ↦ c
  | some step ↦
      if is_stale source r op step
      then retire r.region.id op cancel c
      else send_schedule_command r step c
]

dispatch_operator : ℕ → Source → RegionInfo → Operator → OperatorController → OperatorController
unfolding send_or_cancel retire
dispatch_operator now source r op c =
    let op1 = advanced r op in
    let c1 = record c { operators = insert r.region.id op1 c.operators } in
    if leb (length op1.steps) op1.current_step
    then retire r.region.id op1 success c1
    else if is_timeout now op
    then retire r.region.id op1 timeout c1
    else send_or_cancel source r op1 c1

unfoldable pub dispatch : ℕ → Source → RegionInfo → OperatorController → OperatorController
unfolding dispatch_operator
dispatch now source r c = elim (lookup r.region.id c.operators) [
  | none ↦ c
  | some op ↦ dispatch_operator now source r op c
]

-- A call that takes a lock which it holds itself never returns.
pub data Call {ℓ} (A : Type ℓ) : Type ℓ where
  returns : A → Call A
  deadlock : Call A

abbrev same_epoch : RegionEpoch → RegionEpoch → Bool
same_epoch a b = a.version == b.version && a.conf_ver == b.conf_ver

abbrev pub has_operator : ℕ → Assoc ℕ Operator → Bool
has_operator id m = elim (lookup id m) [ none ↦ false | some op ↦ true ]

abbrev may_add : Operator → OperatorController → Bool
may_add op c = elim (get_region op.region_id c.cluster) [
  | none ↦ false
  | some r ↦ same_epoch (epoch r) op.region_epoch && not (has_operator op.region_id c.operators)
]

unfoldable pub check_add_operator : List Operator → OperatorController → Bool
check_add_operator [] c = true
check_add_operator (op ∷ ops) c = may_add op c && check_add_operator ops c

pub cancel_all : List Operator → OperatorController → OperatorController
unfolding put_op_record
cancel_all [] c = c
cancel_all (op ∷ ops) c = cancel_all ops (put_op_record op cancel c)

-- `add_operator_locked`: the branch that replaces an older operator takes the lock a second time.
unfoldable pub add_operator_locked : ℕ → Operator → OperatorController → Call OperatorController
add_operator_locked now op c = elim (lookup op.region_id c.operators) [
  | some old ↦ deadlock
  | none ↦ returns (record c { operators = insert op.region_id (start now op) c.operators })
]

unfoldable pub add_all : ℕ → List Operator → OperatorController → Call OperatorController
unfolding add_operator_locked
add_all now [] c = returns c
add_all now (op ∷ ops) c = elim (add_operator_locked now op c) [
  | deadlock ↦ deadlock
  | returns c1 ↦ add_all now ops c1
]

unfoldable pub add_operator :
    ℕ → List Operator → OperatorController → Call (Bool × OperatorController)
unfolding check_add_operator cancel_all add_all
add_operator now ops c =
    if check_add_operator ops c
    then (elim (add_all now ops c) [ deadlock ↦ deadlock | returns c1 ↦ returns (true, c1) ])
    else returns (false, cancel_all ops c)

-- `remove_operator`: `update_counts` reads the operators, which this call has locked to write.
unfoldable pub remove_operator : Operator → OperatorController → Call (Bool × OperatorController)
remove_operator op c = elim (lookup op.region_id c.operators) [
  | none ↦ returns (false, c)
  | some current ↦
      if current.region_id == op.region_id && current.create_time == op.create_time
      then deadlock
      else returns (false, c)
]

unfoldable pub get_operator_status : ℕ → OperatorController → Option OperatorWithStatus
get_operator_status id c = elim (lookup id c.operators) [
  | some op ↦ some (record { operator = op; status = running })
  | none ↦ lookup id c.op_records
]
