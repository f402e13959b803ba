-- ===== src/Scheduler/Controller/History.antt =====
-- src/scheduler/operator_controller.rs: how a controller comes about, and what it has been shown.
use aegisdb_core.Prelude.{ℕ, ◌<◌, ◌≡◌, ◌⊎◌, Bool, true, List, [], ◌∷◌, some, length, get_elem?, All}
use aegisdb_core.Prelude.Assoc.{lookup, nat_eq}
use aegisdb_core.Scheduler.Region.{RegionInfo}
use aegisdb_core.Scheduler.Cluster.{BasicCluster}
use aegisdb_core.Scheduler.Operator.{Operator, OpStep, is_finish}
use aegisdb_core.Scheduler.Controller.{
  OperatorController, OperatorWithStatus, success, Source, returns, new_controller, dispatch,
  add_operator, remove_operator,
}

-- Some heartbeat of the region showed the step finished.
abbrev pub Seen : List RegionInfo → ℕ → OpStep → Type 0
Seen [] id step = ⊥
Seen (r ∷ h) id step = ((r.region.id ≡ id) × (is_finish r step ≡ true)) ⊎ Seen h id step

-- So for each of the first `n` steps.
abbrev pub SeenAll : List RegionInfo → ℕ → List OpStep → ℕ → Type 0
SeenAll h id steps n =
    (k : ℕ) (step : OpStep) → k < n → get_elem? steps k ≡ some step → Seen h id step

-- What holds of an operator under way, and of a record.
abbrev pub Tracked : List RegionInfo → ℕ → Operator → Type 0
Tracked h id op = (op.region_id ≡ id) × SeenAll h id op.steps op.current_step

abbrev pub Justified : List RegionInfo → ℕ → OperatorWithStatus → Type 0
Justified h id o = o.status ≡ success → SeenAll h id o.operator.steps (length o.operator.steps)

pub record IsHonest (h : List RegionInfo) (c : OperatorController) : Type 0 where
  pub tracked : (id : ℕ) (op : Operator) → lookup id c.operators ≡ some op → Tracked h id op
  pub justified :
      (id : ℕ) (o : OperatorWithStatus) → lookup id c.op_records ≡ some o → Justified h id o

-- What can happen to a controller: it is shown a region, given operators that were just made, asked
-- to remove one, and the cluster that it looks at changes. The list holds the regions shown.
pub data Reach : List RegionInfo → OperatorController → Type 0 where
  begin : (k : BasicCluster) → Reach [] (new_controller k)
  dispatched :
      {h : List RegionInfo} {c : OperatorController} (now : ℕ) (source : Source) (r : RegionInfo)
      → Reach h c
      → Reach (r ∷ h) (dispatch now source r c)
  added :
      {h : List RegionInfo} {c : OperatorController} (now : ℕ) (ops : List Operator) (b : Bool)
      (c' : OperatorController)
      → All (λ (op : Operator). op.current_step ≡ 0) ops
      → add_operator now ops c ≡ returns (b, c')
      → Reach h c
      → Reach h c'
  removed :
      {h : List RegionInfo} {c : OperatorController} (op : Operator) (b : Bool)
      (c' : OperatorController)
      → remove_operator op c ≡ returns (b, c')
      → Reach h c
      → Reach h c'
  clustered :
      {h : List RegionInfo} {c : OperatorController} (k : BasicCluster)
      → Reach h c
      → Reach h (record c { cluster = k })
