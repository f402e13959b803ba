-- ===== src/Scheduler/Controller/Frame.antt =====
-- src/scheduler/operator_controller.rs: dispatching leaves the cluster as it is.
use aegisdb_core.Prelude.{
  ℕ, ◌≡◌, refl, Bool, true, false, Option, none, some, length, leb, if◌then◌else◌,
}
use aegisdb_core.Prelude.Assoc.{lookup, insert, nat_eq}
use aegisdb_core.Scheduler.Cluster.{BasicCluster}
use aegisdb_core.Scheduler.Controller.{
  OperatorController, OperatorStatus, success, timeout, Source, retire, send_or_cancel,
  send_schedule_command, dispatch_operator, dispatch, update_counts, put_op_record, is_stale,
  advanced, cancel,
}
use aegisdb_core.Scheduler.Operator.{Operator, OpStep, check, is_timeout}
use aegisdb_core.Scheduler.Region.{RegionInfo}

-- The cluster under a choice of controllers that have the same.
either :
    (b : Bool) (x y : OperatorController) (k : BasicCluster)
    → x.cluster ≡ k
    → y.cluster ≡ k
    → (if b then x else y).cluster ≡ k
either true x y k p q = p
either false x y k p q = q

retire-cluster :
    (id : ℕ) (op : Operator) (status : OperatorStatus) (c : OperatorController)
    → (retire id op status c).cluster ≡ c.cluster
unfolding retire update_counts put_op_record
retire-cluster id op status c = refl

sent_cluster :
    (source : Source) (r : RegionInfo) (op : Operator) (c : OperatorController) (o : Option OpStep)
    → (elim o as (λ _. OperatorController) [
      | none ↦ c
      | some step ↦
          if is_stale source r op step
          then retire r.region.id op cancel c
          else send_schedule_command r step c
    ]).cluster
      ≡ c.cluster
unfolding send_schedule_command
sent_cluster source r op c none = refl
sent_cluster source r op c (some step) =
    either (is_stale source r op step) (retire r.region.id op cancel c)
      (send_schedule_command r step c) c.cluster (retire-cluster r.region.id op cancel c) refl

dispatched_cluster :
    (now : ℕ) (source : Source) (r : RegionInfo) (c : OperatorController) (o : Option Operator)
    → (elim o as (λ _. OperatorController) [
      | none ↦ c
      | some op ↦ dispatch_operator now source r op c
    ]).cluster
      ≡ c.cluster
unfolding dispatch_operator send_or_cancel
dispatched_cluster now source r c none = refl
dispatched_cluster now source r c (some op) =
    let op1 = advanced r op in
    let c1 : OperatorController = record c { operators = insert r.region.id op1 c.operators } in
    either (leb (length op1.steps) op1.current_step) (retire r.region.id op1 success c1) _ c.cluster
      (retire-cluster r.region.id op1 success c1)
      (either (is_timeout now op) (retire r.region.id op1 timeout c1) _ c.cluster
        (retire-cluster r.region.id op1 timeout c1) (sent_cluster source r op1 c1 (check r op1)))

-- Dispatching changes operators only.
pub dispatch-cluster :
    (now : ℕ) (source : Source) (r : RegionInfo) (c : OperatorController)
    → (dispatch now source r c).cluster ≡ c.cluster
unfolding dispatch
dispatch-cluster now source r c = dispatched_cluster now source r c (lookup r.region.id c.operators)
