-- ===== src/Scheduler/Operator.antt =====
-- src/scheduler/operator/operator.rs: an operator, the steps by which a region is to change. Times are
-- nanoseconds; `now` is the clock at the call.
use aegisdb_core.Prelude.{
  ℕ, ◌+◌, ◌-◌, ◌*◌, ◌^◌, Bool, false, not, ◌&&◌, List, [], ◌∷◌, ◌++◌, Option, none, some, ltb,
  if◌then◌else◌, length, get_elem?, String,
}
use aegisdb_core.Scheduler.Region.{
  RegionInfo, RegionEpoch, epoch, leads_on, has_peer, has_id, has_store,
}

pub data OpKind : Type 0 where
  region leader admin : OpKind

-- The implementors of `OpStep`: `AddPeer`, `RemovePeer` and `TransferLeader`.
pub data OpStep : Type 0 where
  add_peer : ℕ → ℕ → OpStep
  remove_peer : ℕ → OpStep
  transfer_leader : ℕ → ℕ → OpStep

unfoldable pub conf_ver_changed : RegionInfo → OpStep → Bool
conf_ver_changed r (add_peer to_store peer_id) = has_peer peer_id to_store r.region.peers
conf_ver_changed r (remove_peer from_store) = not (has_store from_store r.region.peers)
conf_ver_changed r (transfer_leader from_store to_store) = false

unfoldable pub is_finish : RegionInfo → OpStep → Bool
is_finish r (add_peer to_store peer_id) =
    has_peer peer_id to_store r.region.peers && not (has_id peer_id r.pending_peers)
is_finish r (remove_peer from_store) = not (has_store from_store r.region.peers)
is_finish r (transfer_leader from_store to_store) = leads_on to_store r

pub record Operator : Type 0 where
  pub desc : String
  pub region_id : ℕ
  pub region_epoch : RegionEpoch
  pub kind : OpKind
  pub steps : List OpStep
  pub current_step : ℕ
  pub create_time : ℕ
  pub start_time : Option ℕ

-- `Operator::new`
abbrev pub new_operator : ℕ → String → ℕ → RegionEpoch → OpKind → List OpStep → Operator
new_operator now desc region_id e kind steps = record {
  desc = desc;
  region_id = region_id;
  region_epoch = e;
  kind = kind;
  steps = steps;
  current_step = 0;
  create_time = now;
  start_time = none;
}

module _ (now : ℕ) (desc : String) (r : RegionInfo) where
  unfoldable pub create_move_peer_operator : ℕ → ℕ → ℕ → Operator
  create_move_peer_operator from_store to_store new_peer_id =
      new_operator now desc r.region.id (epoch r) region (
        add_peer to_store new_peer_id
        ∷ ((if leads_on from_store r then transfer_leader from_store to_store ∷ [] else [])
            ++ (remove_peer from_store ∷ [])))

  unfoldable pub create_transfer_leader_operator : ℕ → ℕ → Operator
  create_transfer_leader_operator from_store to_store =
      new_operator now desc r.region.id (epoch r) leader (transfer_leader from_store to_store ∷ [])

  unfoldable pub create_add_peer_operator : ℕ → ℕ → Operator
  create_add_peer_operator to_store peer_id =
      new_operator now desc r.region.id (epoch r) region (add_peer to_store peer_id ∷ [])

  unfoldable pub create_remove_peer_operator : ℕ → Operator
  create_remove_peer_operator from_store =
      new_operator now desc r.region.id (epoch r) region (remove_peer from_store ∷ [])

-- The step to be done, if it is not yet finished.
unfoldable pub check : RegionInfo → Operator → Option OpStep
check r op = elim (get_elem? op.steps op.current_step) [
  | none ↦ none
  | some step ↦ if is_finish r step then none else some step
]

-- `Duration::from_secs`
abbrev pub seconds : ℕ → ℕ
seconds n = n * 10 ^ 9

abbrev pub timeout_of : OpKind → ℕ
timeout_of leader = seconds 10
timeout_of region = seconds 600
timeout_of admin = seconds 600

-- The time since the start, or since the creation; none of it where the clock went back.
abbrev pub elapsed : ℕ → Operator → ℕ
elapsed now op = elim op.start_time [ none ↦ now - op.create_time | some start ↦ now - start ]

unfoldable pub is_timeout : ℕ → Operator → Bool
is_timeout now op = ltb (timeout_of op.kind) (elapsed now op)

abbrev pub start : ℕ → Operator → Operator
start now op = record op { start_time = some now }

unfoldable pub next_step : Operator → Operator
next_step op =
    if ltb op.current_step (length op.steps)
    then record op { current_step = op.current_step + 1 }
    else op
