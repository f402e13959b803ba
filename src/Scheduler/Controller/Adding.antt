-- ===== src/Scheduler/Controller/Adding.antt =====
-- src/scheduler/operator_controller.rs: operators given to the controller.
use aegisdb_core.Prelude.{ℕ, ◌≡◌, ◌⊎◌, arith, Bool, true, false, List, ◌∷◌, none}
use aegisdb_core.Prelude.Assoc.{lookup, insert, nat_eq}
use aegisdb_core.Scheduler.Operator.{Operator, start}
use aegisdb_core.Scheduler.Controller.{
  OperatorController, returns, add_operator, add_all, add_operator_locked, cancel_all,
  check_add_operator, remove_operator,
}

-- An operator put in its place.
unfoldable pub with_operator : ℕ → Operator → OperatorController → OperatorController
with_operator id op c = record c { operators = insert id op c.operators }

pub add_all_step :
    (now : ℕ) (op : Operator) (ops : List Operator) (c c' : OperatorController)
    → add_all now (op ∷ ops) c ≡ returns c'
    → (lookup op.region_id c.operators ≡ none)
      × (add_all now ops (with_operator op.region_id (start now op) c) ≡ returns c')
unfolding add_all add_operator_locked with_operator
add_all_step now op ops c c' h = ground arith

-- What `add_operator` has done where it returns.
pub add_operator_cases :
    (now : ℕ) (ops : List Operator) (b : Bool) (c c' : OperatorController)
    → add_operator now ops c ≡ returns (b, c')
    → ((b ≡ false) × (check_add_operator ops c ≡ false) × (cancel_all ops c ≡ c'))
      ⊎ ((b ≡ true) × (check_add_operator ops c ≡ true) × (add_all now ops c ≡ returns c'))
unfolding add_operator
add_operator_cases now ops b c c' h = ground arith

-- `remove_operator` returns only where it has removed nothing: its answer is false, and the controller
-- is as it was.
pub remove_operator_lem :
    (op : Operator) (c : OperatorController) (b : Bool) (c' : OperatorController)
    → remove_operator op c ≡ returns (b, c')
    → (b ≡ false) × (c' ≡ c)
unfolding remove_operator
remove_operator_lem op c b c' h = ground arith
