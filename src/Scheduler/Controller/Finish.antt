-- ===== src/Scheduler/Controller/Finish.antt =====
-- src/scheduler/operator_controller.rs: operators whose steps come about, and operators that are cancelled.
use aegisdb_core.Prelude.{
  ℕ, ◌+◌, ◌≤◌, ◌<◌, ◌≡◌, refl, sym, ap, ◌∙◌, ◌⊎◌, inl, inr, arith, true, false, List, [], ◌∷◌, none,
  some, ltb, leb, ==_refl, length, get_elem?, get_elem?_bound, lt→ltb, subst, String, Option-cases,
  Bool-cases,
}
use aegisdb_core.Prelude.Assoc.{lookup, insert, lookup-insert, lookup-remove, nat_eq}
use aegisdb_core.Scheduler.Region.{RegionInfo, epoch, has_peer, has_id, has_store, leads_on}
use aegisdb_core.Scheduler.Operator.{
  Operator, OpStep, is_finish, next_step, is_timeout, check, conf_ver_changed,
  create_move_peer_operator, start, timeout_of, region, add_peer, remove_peer, transfer_leader,
}
use aegisdb_core.Scheduler.Controller.{
  OperatorController, OperatorStatus, success, cancel, Source, heartbeat, from_heartbeat, dispatch,
  dispatch_operator, send_or_cancel, retire, put_op_record, update_counts, send_schedule_command,
  advanced, is_stale,
}

-- A call of `dispatch`.
pub record Beat : Type 0 where
  pub now : ℕ
  pub source : Source
  pub region : RegionInfo

unfoldable pub drive : List Beat → OperatorController → OperatorController
drive [] c = c
drive (b ∷ bs) c = drive bs (dispatch b.now b.source b.region c)

abbrev pub stepped : Operator → Operator
stepped op = record op { current_step = op.current_step + 1 }

-- Each call shows the operator's region with the next step finished, in time, and no configuration
-- newer than the operator's, unless it is no heartbeat.
abbrev pub Follows : ℕ → Operator → List Beat → Type 0
Follows id op [] = Unit {0}
Follows id op (b ∷ bs) =
    (b.region.region.id ≡ id)
    × ((step : OpStep) × (get_elem? op.steps op.current_step ≡ some step)
        × (is_finish b.region step ≡ true))
    × (is_timeout b.now op ≡ false)
    × ((from_heartbeat b.source ≡ false) ⊎ ((epoch b.region).conf_ver ≤ op.region_epoch.conf_ver))
    × Follows id (stepped op) bs

finished-advanced :
    (r : RegionInfo) (op : Operator) (step : OpStep)
    → get_elem? op.steps op.current_step ≡ some step
    → is_finish r step ≡ true
    → advanced r op ≡ stepped op
unfolding advanced next_step
finished-advanced r op step at fin =
    let more : ltb op.current_step (length op.steps) ≡ true =
      lt→ltb _ _ (get_elem?_bound op.steps op.current_step step at) in
    rw (at, advanced, fin, next_step, more) refl

-- What `retire` leaves behind.
retire_lem :
    (id : ℕ) (op : Operator) (status : OperatorStatus) (c : OperatorController)
    → op.region_id ≡ id
    → (lookup id (retire id op status c).operators ≡ none)
      × (lookup id (retire id op status c).op_records
          ≡ some (record { operator = op; status = status }))
unfolding retire put_op_record update_counts
retire_lem id op status c e = (
  ground (arith, lookup-remove id id c.operators),
  ground (
    arith,
    lookup-insert op.region_id id (record { operator = op; status = status }) c.op_records,
  ),
)

send-operators :
    (r : RegionInfo) (step : OpStep) (c : OperatorController)
    → (send_schedule_command r step c).operators ≡ c.operators
unfolding send_schedule_command
send-operators r step c = refl

-- The last step.
dispatch-success :
    (now : ℕ) (source : Source) (r : RegionInfo) (op : Operator) (step : OpStep)
    (c : OperatorController)
    → lookup r.region.id c.operators ≡ some op
    → get_elem? op.steps op.current_step ≡ some step
    → is_finish r step ≡ true
    → op.current_step + 1 ≡ length op.steps
    → (c1 : OperatorController) × (dispatch now source r c
        ≡ retire r.region.id (stepped op) success c1)
unfolding dispatch dispatch_operator
dispatch-success now source r op step c found at fin last =
    let adv = finished-advanced r op step at fin in
    let over : leb (length op.steps) (op.current_step + 1) ≡ true = ground arith in
    (
      record c { operators = insert r.region.id (stepped op) c.operators },
      rw (found, dispatch, adv, over) refl,
    )

not-is_stale :
    (source : Source) (r : RegionInfo) (op : Operator) (step : OpStep)
    → (from_heartbeat source ≡ false) ⊎ ((epoch r).conf_ver ≤ op.region_epoch.conf_ver)
    → is_stale source r op step ≡ false
unfolding is_stale
not-is_stale source r op step (inl e) = ground arith
not-is_stale source r op step (inr l) = ground arith

send_or_cancel-kept :
    (source : Source) (r : RegionInfo) (op : Operator) (c : OperatorController)
    → (from_heartbeat source ≡ false) ⊎ ((epoch r).conf_ver ≤ op.region_epoch.conf_ver)
    → (send_or_cancel source r op c).operators ≡ c.operators
unfolding send_or_cancel
send_or_cancel-kept source r op c quiet = elim (Option-cases (check r op)) [
  | inl e ↦ rw (e, send_or_cancel) refl
  | inr (step, e) ↦
      rw (e, send_or_cancel, not-is_stale source r op step quiet) (send-operators r step c)
]

-- A step before the last.
dispatch-kept :
    (now : ℕ) (source : Source) (r : RegionInfo) (op : Operator) (step : OpStep)
    (c : OperatorController)
    → lookup r.region.id c.operators ≡ some op
    → get_elem? op.steps op.current_step ≡ some step
    → is_finish r step ≡ true
    → op.current_step + 1 < length op.steps
    → is_timeout now op ≡ false
    → (from_heartbeat source ≡ false) ⊎ ((epoch r).conf_ver ≤ op.region_epoch.conf_ver)
    → lookup r.region.id (dispatch now source r c).operators ≡ some (stepped op)
unfolding dispatch dispatch_operator
dispatch-kept now source r op step c found at fin more in_time quiet =
    let adv = finished-advanced r op step at fin in
    let c1 = record c { operators = insert r.region.id (stepped op) c.operators } in
    let under : leb (length op.steps) (op.current_step + 1) ≡ false = ground arith in
    rw (found, dispatch, adv, under, in_time)
      (ap (lookup r.region.id) (send_or_cancel-kept source r (stepped op) c1 quiet)
        ∙ rw (lookup-insert r.region.id r.region.id (stepped op) c.operators, ==_refl r.region.id)
            refl)

-- An operator under way for a region, shown one after the other its remaining steps finished, each in
-- time and with no configuration newer than its own (or by a call that is no heartbeat), is under way
-- no longer after as many calls as it had steps left, and is recorded as a success.
pub drive_finishes :
    (id : ℕ) (op : Operator) (bs : List Beat) (c : OperatorController)
    → lookup id c.operators ≡ some op
    → op.region_id ≡ id
    → 0 < length bs
    → op.current_step + length bs ≡ length op.steps
    → Follows id op bs
    → let c' = drive bs c in
      (lookup id c'.operators ≡ none)
      × (lookup id c'.op_records
          ≡ some (record {
            operator = record op { current_step = length op.steps };
            status = success;
          }))
unfolding drive
drive_finishes id op [] c found own some_left all f = absurd (omega arith)
drive_finishes id op (b ∷ []) c found own some_left all (here, (step, at, fin), in_time, quiet, _) =
    let (c1, e) =
      dispatch-success b.now b.source b.region op step c
        (ap (λ i. lookup i c.operators) here ∙ found) at fin (omega arith) in
    let (gone, recorded) = retire_lem id (stepped op) success c1 own in
    rw (e ∙ ap (λ i. retire i (stepped op) success c1) here) (
      gone,
      recorded
          ∙ ap (λ n. some (record { operator = record op { current_step = n }; status = success }))
              (omega arith),
    )
drive_finishes id op (b ∷ b2 ∷ bs) c found own some_left all
      (here, (step, at, fin), in_time, quiet, f) =
    drive_finishes id (stepped op) (b2 ∷ bs) (dispatch b.now b.source b.region c)
      (sym (ap (λ i. lookup i (dispatch b.now b.source b.region c).operators) here)
        ∙ dispatch-kept b.now b.source b.region op step c
            (ap (λ i. lookup i c.operators) here ∙ found) at fin (omega arith) in_time quiet)
      own (omega arith) (omega arith) f

check-next :
    (r : RegionInfo) (op : Operator) (step : OpStep)
    → get_elem? op.steps op.current_step ≡ some step
    → is_finish r step ≡ false
    → check r op ≡ some step
unfolding check
check-next r op step at unfinished = rw (at, check, unfinished) refl

stale-cancelled :
    (source : Source) (r : RegionInfo) (op : Operator) (step : OpStep) (c : OperatorController)
    → check r op ≡ some step
    → is_stale source r op step ≡ true
    → send_or_cancel source r op c ≡ retire r.region.id op cancel c
unfolding send_or_cancel
stale-cancelled source r op step c e stale = rw (e, send_or_cancel, stale) refl

newer-is_stale :
    (r : RegionInfo) (op : Operator) (step : OpStep)
    → conf_ver_changed r step ≡ false
    → op.region_epoch.conf_ver < (epoch r).conf_ver
    → is_stale heartbeat r op step ≡ true
unfolding is_stale
newer-is_stale r op step unchanged newer = ground arith

-- The first step finished, and the second not, with a newer configuration than the operator's.
overtaken :
    (now : ℕ) (r : RegionInfo) (op : Operator) (step step2 : OpStep) (c : OperatorController)
    → lookup r.region.id c.operators ≡ some op
    → op.region_id ≡ r.region.id
    → get_elem? op.steps op.current_step ≡ some step
    → is_finish r step ≡ true
    → get_elem? op.steps (op.current_step + 1) ≡ some step2
    → is_finish r step2 ≡ false
    → conf_ver_changed r step2 ≡ false
    → is_timeout now op ≡ false
    → op.region_epoch.conf_ver < (epoch r).conf_ver
    → let c' = dispatch now heartbeat r c in
      (lookup r.region.id c'.operators ≡ none)
      × (lookup r.region.id c'.op_records
          ≡ some (record { operator = stepped op; status = cancel }))
unfolding dispatch dispatch_operator
overtaken now r op step step2 c found own at fin at2 unfinished unchanged in_time newer =
    let adv = finished-advanced r op step at fin in
    let c1 = record c { operators = insert r.region.id (stepped op) c.operators } in
    let under : leb (length op.steps) (op.current_step + 1) ≡ false =
      ground (arith, get_elem?_bound op.steps (op.current_step + 1) step2 at2) in
    let Left = λ (d : OperatorController).
      (lookup r.region.id d.operators ≡ none)
      × (lookup r.region.id d.op_records
          ≡ some (record { operator = stepped op; status = cancel })) in
    let next = check-next r (stepped op) step2 at2 unfinished in
    let stale = newer-is_stale r (stepped op) step2 unchanged newer in
    rw (found, dispatch, adv, under, in_time)
      (subst Left (sym (stale-cancelled heartbeat r (stepped op) step2 c1 next stale))
        (retire_lem r.region.id (stepped op) cancel c1 own))

-- An operator that moves a peer, created at one time and started at another, is cancelled by the heartbeat in which its first step is done: where
-- the new peer is there and not pending, the old peer is still there, a leader on the old store has not
-- moved, and the change has raised the version of the configuration, as long as it is not
-- timed out since its start.
pub move_peer_cancelled :
    (created started now : ℕ) (desc : String) (r0 r : RegionInfo) (from_store to_store peer : ℕ)
    (c : OperatorController)
    → let op = create_move_peer_operator created desc r0 from_store to_store peer in
      lookup r.region.id c.operators ≡ some (start started op)
      → r0.region.id ≡ r.region.id
      → has_peer peer to_store r.region.peers ≡ true
      → has_id peer r.pending_peers ≡ false
      → has_store from_store r.region.peers ≡ true
      → (leads_on from_store r0 ≡ true → leads_on to_store r ≡ false)
      → now ≤ started + timeout_of region
      → (epoch r0).conf_ver < (epoch r).conf_ver
      → let c' = dispatch now heartbeat r c in
        (lookup r.region.id c'.operators ≡ none)
        × (lookup r.region.id c'.op_records
            ≡ some (record { operator = stepped (start started op); status = cancel }))
unfolding create_move_peer_operator is_finish conf_ver_changed is_timeout
move_peer_cancelled created started now desc r0 r from_store to_store peer c found same there ready
      old held in_time newer =
    let op = create_move_peer_operator created desc r0 from_store to_store peer in
    let late : is_timeout now (start started op) ≡ false = ground arith in
    elim (Bool-cases (leads_on from_store r0)) [
      | inl led ↦
          overtaken now r (start started op) (add_peer to_store peer)
            (transfer_leader from_store to_store) c found same refl (rw (there, ready) refl)
            (rw led refl) (held led) refl late newer
      | inr unled ↦
          overtaken now r (start started op) (add_peer to_store peer) (remove_peer from_store) c
            found same refl (rw (there, ready) refl) (rw unled refl) (rw old refl) (rw old refl)
            late newer
    ]
