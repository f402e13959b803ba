-- ===== src/RaftStore/Health/History.antt =====
-- src/raftstore/failure_detector.rs: what must have happened before a node is taken for failed.
use aegisdb_core.Prelude.{
  ℕ, ◌+◌, ◌%◌, ◌^◌, ◌≤◌, ◌<◌, ◌≡◌, ◌⊎◌, refl, subst, inl, inr, Bool, true, false, ◌||◌, List, [],
  ◌∷◌, Option, none, some, ltb, if◌then◌else◌, Bool-cases, arith, ◌==◌, ==_iff, ◌∙◌,
}
use aegisdb_core.Prelude.Assoc.{Assoc, lookup, insert, remove, nat_eq, lookup-insert, lookup-remove}
use aegisdb_core.RaftStore.Health.{
  healthy, failed, NodeHealth, new_health, beaten, count_failure, check_health, FailureDetector,
  new_detector, register_node, update_heartbeat, record_failure, get_status, check_nodes,
  check_all_nodes, remove_node, time_since_heartbeat, status_of,
}
use aegisdb_core.Scheduler.Cluster.{modify, map_option, lookup-modify}

-- A call of the detector.
pub data Event : Type 0 where
  registered : ℕ → Event
  heard : ℕ → ℕ → Event
  failure : ℕ → Event
  checked : ℕ → Event
  removed : ℕ → Event

abbrev pub step : Event → FailureDetector → FailureDetector
step (registered id) d = register_node id d
step (heard now id) d = update_heartbeat now id d
step (failure id) d = record_failure id d
step (checked now) d = (check_all_nodes now d).0
step (removed id) d = remove_node id d

unfoldable pub run : List Event → FailureDetector → FailureDetector
run [] d = d
run (e ∷ es) d = run es (step e d)

-- What the calls so far tell of one node: the failures recorded since it was last heard, registered or
-- removed, the time it was last heard, and whether a check since then came too late after that.
pub record History : Type 0 where
  pub failures : ℕ
  pub last_heard : Option ℕ
  pub overdue : Bool

abbrev pub no_history : History
no_history = record { failures = 0; last_heard = none; overdue = false }

abbrev pub observe : ℕ → ℕ → Event → History → History
observe timeout id (registered i) s = if i == id then no_history else s
observe timeout id (heard now i) s =
    if i == id then record { failures = 0; last_heard = some now; overdue = false } else s
observe timeout id (failure i) s = if i == id then record s { failures = s.failures + 1 } else s
observe timeout id (checked now) s = record s {
  overdue = s.overdue || ltb timeout (time_since_heartbeat now s.last_heard);
}
observe timeout id (removed i) s = if i == id then no_history else s

unfoldable pub history : ℕ → ℕ → List Event → History → History
history timeout id [] s = s
history timeout id (e ∷ es) s = history timeout id es (observe timeout id e s)

-- The record of a node agrees with its history.
pub record Agrees (threshold : ℕ) (s : History) (h : NodeHealth) : Type 0 where
  pub counted : h.consecutive_failures ≡ s.failures % 2 ^ 32
  pub heard_at : h.last_heartbeat ≡ s.last_heard
  pub late : (h.status ≡ healthy) ⊎ (s.overdue ≡ true)
  pub enough : (h.status ≡ failed) → threshold ≤ s.failures

abbrev AgreesIfKnown : ℕ → History → Option NodeHealth → Type 0
AgreesIfKnown threshold s none = Unit
AgreesIfKnown threshold s (some h) = Agrees threshold s h

module _ (threshold : ℕ) (s : History) where
  new_health-Agrees : Agrees threshold no_history new_health
  new_health-Agrees = record {
    counted = omega arith;
    heard_at = refl;
    late = inl refl;
    enough = λ e. cc;
  }

  beat-Agrees :
      (now : ℕ) (o : Option NodeHealth)
      → Agrees threshold
          (record { failures = 0; last_heard = some now; overdue = false })
          (beaten now o)
  beat-Agrees now none = record {
    counted = omega arith;
    heard_at = refl;
    late = inl refl;
    enough = λ e. cc;
  }
  beat-Agrees now (some h) = record {
    counted = omega arith;
    heard_at = refl;
    late = inl refl;
    enough = λ e. cc;
  }

  count_failure-Agrees :
      (h : NodeHealth)
      → Agrees threshold s h
      → Agrees threshold (record s { failures = s.failures + 1 }) (count_failure h)
  count_failure-Agrees h a = record {
    counted = omega (arith, a.counted);
    heard_at = a.heard_at;
    late = a.late;
    enough = λ e. omega (arith, a.enough e);
  }

  check_health-Agrees :
      (now timeout : ℕ) (h : NodeHealth)
      → Agrees threshold s h
      → Agrees threshold
          (observe timeout 0 (checked now) s)
          (check_health now timeout threshold h).0
  unfolding check_health
  check_health-Agrees now timeout h a = record {
    counted = ground (arith, a.counted);
    heard_at = ground (arith, a.heard_at);
    late = ground (arith, a.late, a.heard_at);
    enough = ground (arith, a.counted, a.enough);
  }

abbrev check_known : ℕ → ℕ → ℕ → Option NodeHealth → Option NodeHealth
check_known now timeout threshold none = none
check_known now timeout threshold (some h) = some (check_health now timeout threshold h).0

-- A check treats each node by itself.
pub lookup-check_nodes :
    (now timeout threshold id : ℕ) (l : Assoc ℕ NodeHealth)
    → lookup id (check_nodes now timeout threshold l).0
      ≡ check_known now timeout threshold (lookup id l)
unfolding check_nodes lookup
lookup-check_nodes now timeout threshold id [] = refl
lookup-check_nodes now timeout threshold id ((i, h) ∷ l) = elim (Bool-cases (i == id)) [
  | inl same ↦ rw same refl
  | inr other ↦ rw other (lookup-check_nodes now timeout threshold id l)
]

module _ (threshold id : ℕ) (d : FailureDetector) (s : History)
    (known : AgreesIfKnown threshold s (lookup id d.nodes)) where
  insert-Agrees :
      (i : ℕ) (s' : History) (h : NodeHealth)
      → ((i ≡ id) → Agrees threshold s' h)
      → AgreesIfKnown threshold (if i == id then s' else s) (lookup id (insert i h d.nodes))
  insert-Agrees i s' h new = elim (Bool-cases (i == id)) [
    | inl same ↦ rw (lookup-insert i id h d.nodes, same) (new ((==_iff i id).0 same))
    | inr other ↦ rw (lookup-insert i id h d.nodes, other) known
  ]

  remove-Agrees :
      (i : ℕ)
      → AgreesIfKnown threshold (if i == id then no_history else s) (lookup id (remove i d.nodes))
  remove-Agrees i = elim (Bool-cases (i == id)) [
    | inl same ↦ rw (lookup-remove i id d.nodes, same) tt
    | inr other ↦ rw (lookup-remove i id d.nodes, other) known
  ]

  count_known :
      (o : Option NodeHealth)
      → AgreesIfKnown threshold s o
      → AgreesIfKnown threshold
          (record s { failures = s.failures + 1 })
          (map_option count_failure o)
  count_known none k = tt
  count_known (some h) k = count_failure-Agrees threshold s h k

  failure-Agrees :
      (i : ℕ)
      → AgreesIfKnown threshold
          (if i == id then record s { failures = s.failures + 1 } else s)
          (lookup id (modify i count_failure d.nodes))
  failure-Agrees i = elim (Bool-cases (i == id)) [
    | inl same ↦
        rw (lookup-modify id i count_failure d.nodes, same) (count_known (lookup id d.nodes) known)
    | inr other ↦ rw (lookup-modify id i count_failure d.nodes, other) known
  ]

  check_known-Agrees :
      (now timeout : ℕ) (o : Option NodeHealth)
      → AgreesIfKnown threshold s o
      → AgreesIfKnown threshold
          (observe timeout id (checked now) s)
          (check_known now timeout threshold o)
  check_known-Agrees now timeout none k = tt
  check_known-Agrees now timeout (some h) k = check_health-Agrees threshold s now timeout h k

  step-Agrees :
      (e : Event)
      → d.failure_threshold ≡ threshold
      → AgreesIfKnown threshold (observe d.heartbeat_timeout id e s) (lookup id (step e d).nodes)
  step-Agrees (registered i) same =
      insert-Agrees i no_history new_health (λ e. new_health-Agrees threshold s)
  step-Agrees (heard now i) same =
      insert-Agrees i (record { failures = 0; last_heard = some now; overdue = false })
        (beaten now (lookup i d.nodes)) (λ e. beat-Agrees threshold s now (lookup i d.nodes))
  step-Agrees (failure i) same = failure-Agrees i
  step-Agrees (checked now) same =
      rw (lookup-check_nodes now d.heartbeat_timeout d.failure_threshold id d.nodes, same)
        (check_known-Agrees now d.heartbeat_timeout (lookup id d.nodes) known)
  step-Agrees (removed i) same = remove-Agrees i

-- No call changes what the detector was made with.
step-timeout :
    (e : Event) (d : FailureDetector) → (step e d).heartbeat_timeout ≡ d.heartbeat_timeout
step-timeout (registered i) d = refl
step-timeout (heard now i) d = refl
step-timeout (failure i) d = refl
step-timeout (checked now) d = refl
step-timeout (removed i) d = refl

step-threshold :
    (e : Event) (d : FailureDetector) → (step e d).failure_threshold ≡ d.failure_threshold
step-threshold (registered i) d = refl
step-threshold (heard now i) d = refl
step-threshold (failure i) d = refl
step-threshold (checked now) d = refl
step-threshold (removed i) d = refl

run-Agrees :
    (timeout threshold id : ℕ) (es : List Event) (d : FailureDetector) (s : History)
    → d.heartbeat_timeout ≡ timeout
    → d.failure_threshold ≡ threshold
    → AgreesIfKnown threshold s (lookup id d.nodes)
    → AgreesIfKnown threshold (history timeout id es s) (lookup id (run es d).nodes)
unfolding run history
run-Agrees timeout threshold id [] d s t k known = known
run-Agrees timeout threshold id (e ∷ es) d s t k known =
    run-Agrees timeout threshold id es (step e d) (observe timeout id e s) (step-timeout e d ∙ t)
      (step-threshold e d ∙ k)
      (subst (λ n. AgreesIfKnown threshold (observe n id e s) (lookup id (step e d).nodes)) t
        (step-Agrees threshold id d s known e k))

health_known :
    (threshold : ℕ) (s : History) (o : Option NodeHealth)
    → AgreesIfKnown threshold s o
    → status_of o ≡ some failed
    → (threshold ≤ s.failures) × (s.overdue ≡ true)
health_known threshold s none known e = cc
health_known threshold s (some h) known e =
    let is_failed : h.status ≡ failed = ground arith in
    (known.enough is_failed, ground (arith, known.late))

-- Whatever calls a new detector gets, a node that it calls failed has had at least as many failures
-- recorded as the threshold since it was last heard, registered or removed, and since then some check came
-- later than the timeout after it was last heard.
pub failed_lem :
    (timeout threshold id : ℕ) (es : List Event)
    → get_status id (run es (new_detector timeout threshold)) ≡ some failed
    → (threshold ≤ (history timeout id es no_history).failures)
      × ((history timeout id es no_history).overdue ≡ true)
failed_lem timeout threshold id es =
    health_known threshold (history timeout id es no_history)
      (lookup id (run es (new_detector timeout threshold)).nodes)
      (run-Agrees timeout threshold id es (new_detector timeout threshold) no_history refl refl
        (unfold lookup in tt))

-- A check later than the timeout after a node was last heard takes it for failed if its failures reach
-- the threshold; a node that was not late keeps its status.
pub expired_node_fails :
    (now id : ℕ) (d : FailureDetector) (h : NodeHealth)
    → lookup id d.nodes ≡ some h
    → (d.heartbeat_timeout < time_since_heartbeat now h.last_heartbeat
        → d.failure_threshold ≤ h.consecutive_failures
        → get_status id (check_all_nodes now d).0 ≡ some failed)
      × (time_since_heartbeat now h.last_heartbeat ≤ d.heartbeat_timeout
          → get_status id (check_all_nodes now d).0 ≡ some h.status)
expired_node_fails now id d h known =
    let each = lookup-check_nodes now d.heartbeat_timeout d.failure_threshold id d.nodes in
    (
      (λ late enough. rw (each, known) (unfold check_health in ground arith)),
      (λ soon. rw (each, known) (unfold check_health in ground arith)),
    )
