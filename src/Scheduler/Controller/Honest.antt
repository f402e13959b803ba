-- ===== src/Scheduler/Controller/Honest.antt =====
-- src/scheduler/operator_controller.rs: operators against the heartbeats that the controller was shown.
use native.Mathlib.Decide.{dec_lt}
use aegisdb_core.Prelude.{
  ℕ, ◌+◌, ◌≡◌, refl, sym, ap, ◌∙◌, ◌⊎◌, inl, inr, arith, Bool, true, List, [], ◌∷◌, some, ltb, leb,
  length, get_elem?, get_elem?_bound, lt→ltb, leb→le, subst, Option-cases, Bool-cases, All,
}
use aegisdb_core.Prelude.Assoc.{lookup, remove, lookup-insert_cases, lookup-remove_left, nat_eq}
use aegisdb_core.Scheduler.Region.{RegionInfo}
use aegisdb_core.Scheduler.Operator.{
  Operator, OpStep, is_finish, next_step, is_timeout, start, check,
}
use aegisdb_core.Scheduler.Controller.{
  OperatorController, OperatorWithStatus, OperatorStatus, success, timeout, cancel, Source, returns,
  dispatch, dispatch_operator, send_or_cancel, retire, put_op_record, update_counts,
  send_schedule_command, advanced, is_stale, add_operator, add_all, cancel_all,
}
use aegisdb_core.Scheduler.Controller.History.{
  SeenAll, Tracked, Justified, IsHonest, Reach, begin, dispatched, added, removed, clustered,
}
use aegisdb_core.Scheduler.Controller.Adding.{
  with_operator, add_all_step, add_operator_cases, remove_operator_lem,
}

SeenAll-more :
    (h : List RegionInfo) (r : RegionInfo) (id n : ℕ) (steps : List OpStep)
    → SeenAll h id steps n
    → SeenAll (r ∷ h) id steps n
SeenAll-more h r id n steps s k step l e = inr (s k step l e)

-- An operator stays where it is, or leaves behind a step that the region shows finished.
advanced_cases :
    (r : RegionInfo) (op : Operator)
    → (advanced r op ≡ op)
      ⊎ ((step : OpStep) × (get_elem? op.steps op.current_step ≡ some step)
          × (is_finish r step ≡ true)
          × (advanced r op ≡ record op { current_step = op.current_step + 1 }))
unfolding advanced next_step
advanced_cases r op = elim (Option-cases (get_elem? op.steps op.current_step)) [
  | inl none_left ↦ inl (rw (none_left, advanced) refl)
  | inr (step, at) ↦ elim (Bool-cases (is_finish r step)) [
    | inl fin ↦
        let more : ltb op.current_step (length op.steps) ≡ true =
          lt→ltb _ _ (get_elem?_bound op.steps op.current_step step at) in
        inr (step, at, fin, rw (at, advanced, fin, next_step, more) refl)
    | inr not_fin ↦ inl (rw (at, advanced, not_fin) refl)
  ]
]

Tracked-step :
    (h : List RegionInfo) (r : RegionInfo) (op : Operator) (step : OpStep)
    → Tracked h r.region.id op
    → get_elem? op.steps op.current_step ≡ some step
    → is_finish r step ≡ true
    → Tracked (r ∷ h) r.region.id (record op { current_step = op.current_step + 1 })
Tracked-step h r op step (e, s) at fin = (
  e,
  λ k step1 l found. elim (dec_lt k op.current_step) [
    | yes before ↦ inr (s k step1 before found)
    | no last ↦
        let same : k ≡ op.current_step = omega arith in
        let same_step : some step ≡ some step1 =
          sym at ∙ ap (get_elem? op.steps) (sym same) ∙ found in
        inl (refl, sym (ap (is_finish r) (cc same_step)) ∙ fin)
  ],
)

advanced-Tracked :
    (h : List RegionInfo) (r : RegionInfo) (op : Operator)
    → Tracked h r.region.id op
    → Tracked (r ∷ h) r.region.id (advanced r op)
advanced-Tracked h r op t = elim (advanced_cases r op) [
  | inl same ↦
      subst (Tracked (r ∷ h) r.region.id) (sym same)
        (t.0, SeenAll-more h r r.region.id op.current_step op.steps t.1)
  | inr (step, at, fin, moved) ↦
      subst (Tracked (r ∷ h) r.region.id) (sym moved) (Tracked-step h r op step t at fin)
]

IsHonest-more :
    (h : List RegionInfo) (r : RegionInfo) (c : OperatorController)
    → IsHonest h c
    → IsHonest (r ∷ h) c
IsHonest-more h r c v = record {
  tracked = λ id op e.
      let (own, s) = v.tracked id op e in (own, SeenAll-more h r id op.current_step op.steps s);
  justified = λ id o e won.
      SeenAll-more h r id (length o.operator.steps) o.operator.steps (v.justified id o e won);
}

with_operator-IsHonest :
    (h : List RegionInfo) (id : ℕ) (op : Operator) (c : OperatorController)
    → IsHonest h c
    → Tracked h id op
    → IsHonest h (with_operator id op c)
unfolding with_operator
with_operator-IsHonest h id op c v t = record {
  tracked = λ j o e. elim (lookup-insert_cases id j op o c.operators e) [
    | inl (same, is_op) ↦
        subst (λ (u : Operator). Tracked h j u) is_op (subst (λ i. Tracked h i op) same t)
    | inr before ↦ v.tracked j o before
  ];
  justified = v.justified;
}

put-IsHonest :
    (h : List RegionInfo) (op : Operator) (status : OperatorStatus) (c : OperatorController)
    → IsHonest h c
    → Justified h op.region_id (record { operator = op; status = status })
    → IsHonest h (put_op_record op status c)
unfolding put_op_record
put-IsHonest h op status c v t = record {
  tracked = v.tracked;
  justified = λ j o e.
      let rec : OperatorWithStatus = record { operator = op; status = status } in
      elim (lookup-insert_cases op.region_id j rec o c.op_records e) [
        | inl (same, is_o) ↦ subst (Justified h j) is_o (subst (λ i. Justified h i rec) same t)
        | inr before ↦ v.justified j o before
      ];
}

retire-IsHonest :
    (h : List RegionInfo) (id : ℕ) (op : Operator) (status : OperatorStatus)
    (c : OperatorController)
    → IsHonest h c
    → Justified h op.region_id (record { operator = op; status = status })
    → IsHonest h (retire id op status c)
unfolding retire update_counts
retire-IsHonest h id op status c v t =
    put-IsHonest h op status (update_counts (record c { operators = remove id c.operators }))
      (record {
        tracked = λ j o e. v.tracked j o (lookup-remove_left id j o c.operators e);
        justified = v.justified;
      })
      t

send-IsHonest :
    (h : List RegionInfo) (r : RegionInfo) (step : OpStep) (c : OperatorController)
    → IsHonest h c
    → IsHonest h (send_schedule_command r step c)
unfolding send_schedule_command
send-IsHonest h r step c v = record { tracked = v.tracked; justified = v.justified }

send_or_cancel-IsHonest :
    (h : List RegionInfo) (source : Source) (r : RegionInfo) (op : Operator)
    (c : OperatorController)
    → IsHonest h c
    → IsHonest h (send_or_cancel source r op c)
unfolding send_or_cancel
send_or_cancel-IsHonest h source r op c v = elim (Option-cases (check r op)) [
  | inl e ↦ rw (e, send_or_cancel) v
  | inr (step, e) ↦ elim (Bool-cases (is_stale source r op step)) [
    | inl stale ↦
        rw (e, send_or_cancel, stale) (retire-IsHonest h r.region.id op cancel c v (λ w. cc w))
    | inr fresh ↦ rw (e, send_or_cancel, fresh) (send-IsHonest h r step c v)
  ]
]

dispatch_operator-IsHonest :
    (h : List RegionInfo) (now : ℕ) (source : Source) (r : RegionInfo) (op : Operator)
    (c : OperatorController)
    → IsHonest h c
    → Tracked h r.region.id op
    → IsHonest (r ∷ h) (dispatch_operator now source r op c)
unfolding dispatch_operator with_operator
dispatch_operator-IsHonest h now source r op c v t =
    let op1 = advanced r op in
    let c1 = with_operator r.region.id op1 c in
    let t1 = advanced-Tracked h r op t in
    let v1 : IsHonest (r ∷ h) c1 =
      with_operator-IsHonest (r ∷ h) r.region.id op1 c (IsHonest-more h r c v) t1 in
    elim (Bool-cases (leb (length op1.steps) op1.current_step)) [
      | inl over ↦ rw over (
          retire-IsHonest (r ∷ h) r.region.id op1 success c1 v1 λ _.
            subst (λ i. SeenAll (r ∷ h) i op1.steps (length op1.steps)) (sym t1.0)
              λ k step l e. t1.1 k step (omega (arith, leb→le _ _ over)) e)
      | inr more ↦ elim (Bool-cases (is_timeout now op)) [
        | inl late ↦
            rw (more, late) (retire-IsHonest (r ∷ h) r.region.id op1 timeout c1 v1 (λ w. cc w))
        | inr in_time ↦ rw (more, in_time) (send_or_cancel-IsHonest (r ∷ h) source r op1 c1 v1)
      ]
    ]

dispatch-IsHonest :
    (h : List RegionInfo) (now : ℕ) (source : Source) (r : RegionInfo) (c : OperatorController)
    → IsHonest h c
    → IsHonest (r ∷ h) (dispatch now source r c)
unfolding dispatch
dispatch-IsHonest h now source r c v = elim (Option-cases (lookup r.region.id c.operators)) [
  | inl e ↦ rw (e, dispatch) (IsHonest-more h r c v)
  | inr (op, e) ↦
      rw (e, dispatch)
        (dispatch_operator-IsHonest h now source r op c v (v.tracked r.region.id op e))
]

Tracked-new :
    (h : List RegionInfo) (now : ℕ) (op : Operator)
    → op.current_step ≡ 0
    → Tracked h op.region_id (start now op)
Tracked-new h now op z = (refl, λ k step l e. absurd (omega arith))

cancel_all-IsHonest :
    (h : List RegionInfo) (ops : List Operator) (c : OperatorController)
    → IsHonest h c
    → IsHonest h (cancel_all ops c)
unfolding cancel_all put_op_record
cancel_all-IsHonest h [] c v = v
cancel_all-IsHonest h (op ∷ ops) c v =
    cancel_all-IsHonest h ops (put_op_record op cancel c) (put-IsHonest h op cancel c v (λ w. cc w))

add_all-IsHonest :
    (h : List RegionInfo) (now : ℕ) (ops : List Operator) (c c' : OperatorController)
    → All (λ (op : Operator). op.current_step ≡ 0) ops
    → IsHonest h c
    → add_all now ops c ≡ returns c'
    → IsHonest h c'
unfolding add_all
add_all-IsHonest h now [] c c' z v e = let same : c ≡ c' = cc e in subst (IsHonest h) same v
add_all-IsHonest h now (op ∷ ops) c c' (z, zs) v e =
    add_all-IsHonest h now ops (with_operator op.region_id (start now op) c) c' zs
      (with_operator-IsHonest h op.region_id (start now op) c v (Tracked-new h now op z))
      (add_all_step now op ops c c' e).1

add_operator-IsHonest :
    (h : List RegionInfo) (now : ℕ) (ops : List Operator) (b : Bool) (c c' : OperatorController)
    → All (λ (op : Operator). op.current_step ≡ 0) ops
    → IsHonest h c
    → add_operator now ops c ≡ returns (b, c')
    → IsHonest h c'
add_operator-IsHonest h now ops b c c' z v e = elim (add_operator_cases now ops b c c' e) [
  | inl (_, _, same) ↦ subst (IsHonest h) same (cancel_all-IsHonest h ops c v)
  | inr (_, _, all) ↦ add_all-IsHonest h now ops c c' z v all
]

-- In whatever way a controller came about, every operator under way has, for each of its steps up to
-- the current one, been shown a region of its own in which the step is finished; and an operator that
-- is recorded as a success has been shown that for all of its steps.
pub reached-IsHonest : {h : List RegionInfo} {c : OperatorController} → Reach h c → IsHonest h c
unfolding lookup
reached-IsHonest (begin k) = record { tracked = λ id op e. cc; justified = λ id o e. cc }
reached-IsHonest (dispatched {h} {c} now source r reach) =
    dispatch-IsHonest h now source r c (reached-IsHonest reach)
reached-IsHonest (added {h} {c} now ops b c' z e reach) =
    add_operator-IsHonest h now ops b c c' z (reached-IsHonest reach) e
reached-IsHonest (removed {h} {c} op b c' e reach) =
    subst (IsHonest h) (sym (remove_operator_lem op c b c' e).1) (reached-IsHonest reach)
reached-IsHonest (clustered {h} {c} k reach) =
    let v = reached-IsHonest reach in record { tracked = v.tracked; justified = v.justified }
