-- ===== src/Scheduler/Controller/Taken.antt =====
-- src/scheduler/operator_controller.rs: which operators `add_operator` takes.
use aegisdb_core.Prelude.{
  ℕ, ◌≡◌, refl, ◌∙◌, ◌⊎◌, inl, inr, arith, Bool, true, false, List, [], ◌∷◌, none, some, ◌==◌,
  if◌then◌else◌, Option-cases, Bool-cases, All,
}
use aegisdb_core.Prelude.Assoc.{Assoc, lookup, insert, lookup-insert, nat_eq}
use aegisdb_core.Scheduler.Region.{RegionInfo, RegionEpoch, epoch}
use aegisdb_core.Scheduler.Cluster.{get_region}
use aegisdb_core.Scheduler.Operator.{Operator, start}
use aegisdb_core.Scheduler.Controller.{
  OperatorController, OperatorWithStatus, cancel, returns, deadlock, put_op_record, add_operator,
  add_all, add_operator_locked, cancel_all, check_add_operator, may_add, same_epoch,
}
use aegisdb_core.Scheduler.Controller.Adding.{with_operator, add_all_step}

-- One of the operators is for the region.
abbrev pub mentions : ℕ → List Operator → Bool
mentions id [] = false
mentions id (op ∷ ops) = let rest = mentions id ops in if op.region_id == id then true else rest

-- The cluster knows the operator's region at the operator's epoch, and the region has no operator.
abbrev pub Fits : OperatorController → Operator → Type 0
Fits c op =
    (lookup op.region_id c.operators ≡ none)
    × (r : RegionInfo) × (get_region op.region_id c.cluster ≡ some r)
    × (epoch r ≡ op.region_epoch)

same_epoch_eq : (a b : RegionEpoch) → same_epoch a b ≡ true → a ≡ b
same_epoch_eq a b h = ground arith

same_epoch_refl : (a b : RegionEpoch) → a ≡ b → same_epoch a b ≡ true
same_epoch_refl a b h = ground arith

may_add_lem : (op : Operator) (c : OperatorController) → may_add op c ≡ true → Fits c op
may_add_lem op c h = elim (Option-cases (get_region op.region_id c.cluster)) [
  | inl unknown ↦ ground arith
  | inr (r, known) ↦
      (ground arith, r, known, ground (arith, same_epoch_eq (epoch r) op.region_epoch))
]

Fits-may_add : (op : Operator) (c : OperatorController) → Fits c op → may_add op c ≡ true
Fits-may_add op c (free, r, known, same) =
    let e = same_epoch_refl (epoch r) op.region_epoch same in ground arith

check_lem :
    (ops : List Operator) (c : OperatorController)
    → check_add_operator ops c ≡ true
    → All (Fits c) ops
unfolding check_add_operator
check_lem [] c h = tt
check_lem (op ∷ ops) c h = elim (Bool-cases (may_add op c)) [
  | inl yes_one ↦ (may_add_lem op c yes_one, check_lem ops c (ground arith))
  | inr no_one ↦ ground arith
]

fitting_taken :
    (ops : List Operator) (c : OperatorController)
    → All (Fits c) ops
    → check_add_operator ops c ≡ true
unfolding check_add_operator
fitting_taken [] c f = refl
fitting_taken (op ∷ ops) c (f, fs) = rw (Fits-may_add op c f, fitting_taken ops c fs) refl

add_all-kept :
    (now id : ℕ) (x : Operator) (ops : List Operator) (c c' : OperatorController)
    → add_all now ops c ≡ returns c'
    → lookup id c.operators ≡ some x
    → lookup id c'.operators ≡ some x
unfolding add_all with_operator
add_all-kept now id x [] c c' h e = cc
add_all-kept now id x (op ∷ ops) c c' h e =
    let (free, more) = add_all_step now op ops c c' h in
    add_all-kept now id x ops (with_operator op.region_id (start now op) c) c' more
      (ground (arith, lookup-insert op.region_id id (start now op) c.operators))

add_all-others :
    (now id : ℕ) (ops : List Operator) (c c' : OperatorController)
    → add_all now ops c ≡ returns c'
    → mentions id ops ≡ false
    → lookup id c'.operators ≡ lookup id c.operators
unfolding add_all with_operator
add_all-others now id [] c c' h m = cc
add_all-others now id (op ∷ ops) c c' h m =
    let (free, more) = add_all_step now op ops c c' h in
    add_all-others now id ops (with_operator op.region_id (start now op) c) c' more (ground arith)
    ∙ ground (arith, lookup-insert op.region_id id (start now op) c.operators)

add_all-started :
    (now : ℕ) (ops : List Operator) (c c' : OperatorController)
    → add_all now ops c ≡ returns c'
    → All (λ (op : Operator). lookup op.region_id c'.operators ≡ some (start now op)) ops
unfolding with_operator
add_all-started now [] c c' h = tt
add_all-started now (op ∷ ops) c c' h =
    let (free, more) = add_all_step now op ops c c' h in
    (
      add_all-kept now op.region_id (start now op) ops (with_operator op.region_id (start now op) c)
          c' more
          (ground (arith, lookup-insert op.region_id op.region_id (start now op) c.operators)),
      add_all-started now ops (with_operator op.region_id (start now op) c) c' more,
    )

add_all-frame :
    (now : ℕ) (ops : List Operator) (c c' : OperatorController)
    → add_all now ops c ≡ returns c'
    → (c'.op_records ≡ c.op_records)
      × (c'.hb_streams ≡ c.hb_streams)
      × (c'.cluster ≡ c.cluster)
      × (c'.counts ≡ c.counts)
unfolding add_all with_operator
add_all-frame now [] c c' h = (cc, cc, cc, cc)
add_all-frame now (op ∷ ops) c c' h =
    let (free, more) = add_all_step now op ops c c' h in
    add_all-frame now ops (with_operator op.region_id (start now op) c) c' more

-- Distinct regions.
abbrev pub Distinct : List Operator → Type 0
Distinct [] = Unit {0}
Distinct (op ∷ ops) = (mentions op.region_id ops ≡ false) × Distinct ops

still_free :
    (id : ℕ) (x : Operator) (m : Assoc ℕ Operator) (ops : List Operator)
    → All (λ (op : Operator). lookup op.region_id m ≡ none) ops
    → mentions id ops ≡ false
    → All (λ (op : Operator). lookup op.region_id (insert id x m) ≡ none) ops
still_free id x m [] f d = tt
still_free id x m (op ∷ ops) (free, f) d =
    (ground (arith, lookup-insert id op.region_id x m), still_free id x m ops f (ground arith))

add_all-returns :
    (now : ℕ) (ops : List Operator) (c : OperatorController)
    → All (λ (op : Operator). lookup op.region_id c.operators ≡ none) ops
    → Distinct ops
    → (c' : OperatorController) × (add_all now ops c ≡ returns c')
unfolding add_all add_operator_locked with_operator
add_all-returns now [] c f d = (c, refl)
add_all-returns now (op ∷ ops) c (free, f) (d, ds) =
    let (c', e) =
      add_all-returns now ops (with_operator op.region_id (start now op) c)
        (still_free op.region_id (start now op) c.operators ops f d) ds in
    (c', ground (arith, e))

-- The record of an operator that is cancelled.
abbrev pub cancelled : Operator → OperatorWithStatus
cancelled op = record { operator = op; status = cancel }

cancel_all-frame :
    (ops : List Operator) (c : OperatorController)
    → ((cancel_all ops c).operators ≡ c.operators)
      × ((cancel_all ops c).hb_streams ≡ c.hb_streams)
      × ((cancel_all ops c).cluster ≡ c.cluster)
      × ((cancel_all ops c).counts ≡ c.counts)
unfolding cancel_all put_op_record
cancel_all-frame [] c = (refl, refl, refl, refl)
cancel_all-frame (op ∷ ops) c = cancel_all-frame ops (put_op_record op cancel c)

cancel_all-others :
    (id : ℕ) (ops : List Operator) (c : OperatorController)
    → mentions id ops ≡ false
    → lookup id (cancel_all ops c).op_records ≡ lookup id c.op_records
unfolding cancel_all put_op_record
cancel_all-others id [] c m = refl
cancel_all-others id (op ∷ ops) c m =
    cancel_all-others id ops (put_op_record op cancel c) (ground arith)
    ∙ ground (arith, lookup-insert op.region_id id (cancelled op) c.op_records)

cancel_all-cancelled :
    (ops : List Operator) (c : OperatorController)
    → Distinct ops
    → All
        (λ (op : Operator). lookup op.region_id (cancel_all ops c).op_records ≡ some (cancelled op))
        ops
unfolding cancel_all put_op_record
cancel_all-cancelled [] c d = tt
cancel_all-cancelled (op ∷ ops) c (d, ds) = (
  cancel_all-others op.region_id ops (put_op_record op cancel c) d
      ∙ ground (arith, lookup-insert op.region_id op.region_id (cancelled op) c.op_records),
  cancel_all-cancelled ops (put_op_record op cancel c) ds,
)

-- All operators are taken, each for a region that the cluster knows at its epoch and that had none; or
-- one of them does not fit, and all are recorded as cancelled. Nothing else changes.
abbrev pub Outcome : ℕ → List Operator → OperatorController → Bool → OperatorController → Type 0
Outcome now ops c b c' =
    (c'.hb_streams ≡ c.hb_streams)
    × (c'.cluster ≡ c.cluster)
    × (c'.counts ≡ c.counts)
    × (((b ≡ true)
          × All (Fits c) ops
          × All (λ (op : Operator). lookup op.region_id c'.operators ≡ some (start now op)) ops
          × ((id : ℕ) → mentions id ops ≡ false → lookup id c'.operators ≡ lookup id c.operators)
          × (c'.op_records ≡ c.op_records))
        ⊎ ((b ≡ false)
            × (¬ All (Fits c) ops)
            × (c'.operators ≡ c.operators)
            × All (λ (op : Operator). lookup op.region_id c'.op_records ≡ some (cancelled op)) ops
            × ((id : ℕ)
                → mentions id ops ≡ false
                → lookup id c'.op_records ≡ lookup id c.op_records)))

free-All :
    (ops : List Operator) (c : OperatorController)
    → All (Fits c) ops
    → All (λ (op : Operator). lookup op.region_id c.operators ≡ none) ops
free-All [] c h = tt
free-All (op ∷ ops) c (f, h) = (f.0, free-All ops c h)

-- Given operators for distinct regions, `add_operator` returns. Where each of them fits, that is, the
-- cluster knows its region at its epoch and the region has no operator, the answer is true, each is under
-- way, started now, and nothing else has changed. Where one does not fit, the answer is false, each
-- region's record is that of its operator, cancelled, and nothing else has changed.
pub add_operator_lem :
    (now : ℕ) (ops : List Operator) (c : OperatorController)
    → Distinct ops
    → (b : Bool) × (c' : OperatorController) × (add_operator now ops c ≡ returns (b, c'))
      × Outcome now ops c b c'
unfolding add_operator
add_operator_lem now ops c d = elim (Bool-cases (check_add_operator ops c)) [
  | inr bad ↦
      let (same, sent, cluster, counts) = cancel_all-frame ops c in
      let misfit : ¬ All (Fits c) ops = λ fits. (let good = fitting_taken ops c fits in cc) in
      (
        false,
        cancel_all ops c,
        rw bad refl,
        (
          sent,
          cluster,
          counts,
          inr (
            refl,
            misfit,
            same,
            cancel_all-cancelled ops c d,
            λ id m. cancel_all-others id ops c m,
          ),
        ),
      )
  | inl good ↦
      let fits = check_lem ops c good in
      let (c', e) = add_all-returns now ops c (free-All ops c fits) d in
      let (records, sent, cluster, counts) = add_all-frame now ops c c' e in
      (
        true,
        c',
        rw (good, e) refl,
        (
          sent,
          cluster,
          counts,
          inl (
            refl,
            fits,
            add_all-started now ops c c' e,
            λ id m. add_all-others now id ops c c' e m,
            records,
          ),
        ),
      )
]

-- Two operators for one region, both of which pass the checks, make `add_operator` wait for itself.
pub add_operator_deadlocks :
    (now : ℕ) (a b : Operator) (ops : List Operator) (c : OperatorController)
    → check_add_operator (a ∷ b ∷ ops) c ≡ true
    → a.region_id ≡ b.region_id
    → add_operator now (a ∷ b ∷ ops) c ≡ deadlock
unfolding add_operator add_all add_operator_locked with_operator
add_operator_deadlocks now a b ops c good same =
    let (fa, fb) = check_lem (a ∷ b ∷ ops) c good in
    let busy : lookup b.region_id (insert a.region_id (start now a) c.operators)
        ≡ some (start now a) =
      ground (arith, lookup-insert a.region_id b.region_id (start now a) c.operators) in
    rw (good, fa.0, busy) refl
