-- ===== src/Raft/RawNode.antt =====
-- src/raft/rawnode.rs: the node as the application drives it, by rounds of `ready` and `advance`.
pub mod Rounds
use aegisdb_core.Prelude.{
  ℕ, Bool, true, false, not, ◌&&◌, ◌||◌, List, [], ◌∷◌, Option, none, some, Result, ok, err, ◌>>=◌,
  ltb, leb, ◌==◌, if◌then◌else◌, last?,
}
use aegisdb_core.Prelude.Assoc.{Assoc, lookup, keys, nat_eq}
use aegisdb_core.Raft.Types.{
  Message, Entry, Snapshot, HardState, ConfState, ConfChange, add_node, remove_node, StateType,
  follower, candidate, leader, RaftConfig, is_empty, is_initial, is_local, is_response, new_message,
  new_normal, new_conf_change, hup, propose, transfer_leader as transfer,
}
use aegisdb_core.Prelude.Bytes.{Bytes}
use aegisdb_core.Raft.Log
use aegisdb_core.Raft.Log.{
  RaftLog, last_index, unstable_entries, next_entries, take_pending_snapshot,
}
use aegisdb_core.Raft.Progress.{Progress}
use aegisdb_core.Raft.State.{Raft, Rand, Outcome, done, Mode, in_memory, is_leader}
use aegisdb_core.Raft.Replicate.{sort}
use aegisdb_core.Raft.Step
use aegisdb_core.Raft.Step.{step, is_nil, add_peer, remove_peer}

pub record SoftState : Type 0 where
  pub lead : ℕ
  pub raft_state : StateType

abbrev same_role : StateType → StateType → Bool
same_role follower follower = true
same_role candidate candidate = true
same_role leader leader = true
same_role _ _ = false

-- `SoftState::is_updated`
abbrev pub is_updated : SoftState → SoftState → Bool
is_updated a b = not (a.lead == b.lead) || not (same_role a.raft_state b.raft_state)

abbrev pub same_hard_state : HardState → HardState → Bool
same_hard_state a b = a.term == b.term && (a.vote == b.vote && a.commit == b.commit)

pub record Ready : Type 0 where
  pub soft_state : Option SoftState
  pub hard_state : HardState
  pub entries : List Entry
  pub snapshot : Option Snapshot
  pub committed_entries : List Entry
  pub messages : List Message
  pub must_sync : Bool

-- The part of `RawNode` beside the node itself.
pub record Seen : Type 0 where
  pub soft : SoftState
  pub hard : HardState
  pub stabled : ℕ
  pub applied : ℕ

pub record RawNode : Type 0 where
  pub raft : Raft
  pub prev : Seen

abbrev pub soft_state_of : Raft → SoftState
soft_state_of r = record { lead = r.lead; raft_state = r.state }

abbrev pub hard_state_of : Raft → HardState
hard_state_of r = record { term = r.term; vote = r.vote; commit = r.raft_log.committed }

abbrev pub empty_hard_state : HardState
empty_hard_state = record { term = 0; vote = 0; commit = 0 }

abbrev hard_changed : RawNode → Bool
hard_changed n =
    not (is_initial (hard_state_of n.raft))
    && not (same_hard_state (hard_state_of n.raft) n.prev.hard)

-- The pending snapshot, if it is not empty.
abbrev ready_snapshot : Option Snapshot → Option Snapshot
ready_snapshot none = none
ready_snapshot (some s) = if is_empty s then none else some s

abbrev is_some {ℓ} : {A : Type ℓ} → Option A → Bool
is_some none = false
is_some (some a) = true

-- `ready`: what is to be stored, sent and applied. The messages are taken from the node.
unfoldable pub ready : RawNode → Result (Ready × RawNode)
ready n = do
  unstable ← unstable_entries n.raft.raft_log
  committed ←
      if ltb n.raft.raft_log.applied n.raft.raft_log.committed
      then next_entries n.raft.raft_log
      else ok []
  let snap = ready_snapshot n.raft.raft_log.pending_snapshot
  let rd : Ready = record {
    soft_state =
        if is_updated (soft_state_of n.raft) n.prev.soft then some (soft_state_of n.raft) else none;
    hard_state = if hard_changed n then hard_state_of n.raft else empty_hard_state;
    entries = unstable;
    snapshot = snap;
    committed_entries = committed;
    messages = n.raft.msgs;
    must_sync = hard_changed n || is_some snap;
  }
  ok (rd, record n { raft = record (n.raft) { msgs = [] } })

unfoldable pub has_ready : RawNode → Bool
has_ready n =
    is_updated (soft_state_of n.raft) n.prev.soft
    || (hard_changed n
        || (ltb n.raft.raft_log.stabled (last_index n.raft.raft_log)
            || (is_some (ready_snapshot n.raft.raft_log.pending_snapshot)
                || (ltb n.raft.raft_log.applied n.raft.raft_log.committed
                    || not (is_nil n.raft.msgs)))))

with_log : RawNode → RaftLog → Seen → RawNode
with_log n l prev = record { raft = record (n.raft) { raft_log = l }; prev = prev }

advance_soft : Option SoftState → RawNode → RawNode
advance_soft none n = n
advance_soft (some s) n = record n { prev = record (n.prev) { soft = s } }

advance_hard : HardState → RawNode → RawNode
advance_hard h n = if is_initial h then n else record n { prev = record (n.prev) { hard = h } }

advance_stabled : Option Entry → RawNode → RawNode
unfolding with_log
advance_stabled none n = n
advance_stabled (some e) n =
    with_log n (record (n.raft.raft_log) { stabled = e.index })
      (record (n.prev) { stabled = e.index })

advance_applied : Option Entry → RawNode → RawNode
unfolding with_log
advance_applied none n = n
advance_applied (some e) n =
    with_log n (record (n.raft.raft_log) { applied = e.index })
      (record (n.prev) { applied = e.index })

advance_snapshot : Option Snapshot → RawNode → RawNode
unfolding with_log
advance_snapshot none n = n
advance_snapshot (some s) n =
    let at = s.metadata.index in
    if is_empty s
    then n
    else with_log n
        (take_pending_snapshot (record (n.raft.raft_log) { stabled = at; applied = at }))
        (record (n.prev) { stabled = at; applied = at })

-- `advance`: the application has done what `ready` asked for.
unfoldable pub advance : Ready → RawNode → RawNode
unfolding advance_soft advance_hard advance_stabled advance_applied advance_snapshot
advance rd n = advance_snapshot rd.snapshot (
    advance_applied (last? rd.committed_entries) (
      advance_stabled (last? rd.entries)
        (advance_hard rd.hard_state (advance_soft rd.soft_state n))))

-- A call of the node inside.
abbrev inside : RawNode → Outcome → Result (Unit {0}) × RawNode
inside n (res, r) = (res, record n { raft = r })

module _ (rand : Rand) where
  -- `RawNode::new`
  unfoldable pub new : RaftConfig → ℕ → Result RawNode
  new c seed = do
    r ← Step.new rand c seed
    ok (record {
      raft = r;
      prev = record {
        soft = soft_state_of r;
        hard = hard_state_of r;
        stabled = r.raft_log.stabled;
        applied = r.raft_log.applied;
      };
    })

  unfoldable pub tick : RawNode → Result (Unit {0}) × RawNode
  tick n = inside n (Step.tick rand n.raft)

  unfoldable pub campaign : RawNode → Result (Unit {0}) × RawNode
  campaign n =
      inside n
        (step rand in_memory (record new_message { msg_type = hup; from = n.raft.id }) n.raft)

  propose_entry : Entry → RawNode → Result (Unit {0}) × RawNode
  propose_entry e n = inside n (
      step rand in_memory
        (record new_message { msg_type = propose; from = n.raft.id; entries = e ∷ [] }) n.raft)

  unfoldable pub propose_bytes : Bytes → RawNode → Result (Unit {0}) × RawNode
  unfolding propose_entry
  propose_bytes payload n = propose_entry (new_normal n.raft.term 0 payload) n

  -- `propose_conf_change`, where `serialize` is that of the crate `bincode`
  unfoldable pub propose_conf_change :
      (ConfChange → Result Bytes) → ConfChange → RawNode → Result (Unit {0}) × RawNode
  unfolding propose_entry
  propose_conf_change serialize cc n = elim (serialize cc) [
    | ok payload ↦ propose_entry (new_conf_change n.raft.term 0 payload) n
    | err e ↦ (err "failed to serialize conf change", n)
    | Result.panic ↦ (Result.panic, n)
  ]

  -- `step`: only network messages, and answers only from peers
  unfoldable pub step_remote : Message → RawNode → Result (Unit {0}) × RawNode
  step_remote m n =
      if is_local m.msg_type
      then (err "cannot step local message", n)
      else if is_response m.msg_type && not (is_some (lookup m.from n.raft.prs))
      then (err "peer not found", n)
      else inside n (step rand in_memory m n.raft)

  unfoldable pub transfer_leader : ℕ → RawNode → Result (Unit {0}) × RawNode
  transfer_leader id n =
      if not (is_leader n.raft.state)
      then (err "not leader", n)
      else if id == n.raft.id
      then (ok tt, n)
      else if not (is_some (lookup id n.raft.prs))
      then (err "transferee not found", n)
      else inside n (
          step rand in_memory
            (record new_message { msg_type = transfer; from = n.raft.id; to = id }) n.raft)

change_peers : ConfChange → Raft → Outcome
change_peers cc r = elim cc.change_type [
  | add_node ↦ done (add_peer cc.node_id r)
  | remove_node ↦ remove_peer cc.node_id r
]

-- `apply_conf_change`, with the member list that it returns
unfoldable pub apply_conf_change : ConfChange → RawNode → Result ConfState × RawNode
unfolding change_peers sort
apply_conf_change cc n =
    let (res, n1) = inside n (change_peers cc n.raft) in
    (res >>= λ _. ok (record { nodes = sort (n1.raft.id ∷ keys n1.raft.prs) }), n1)

unfoldable pub get_progress : RawNode → Option (Assoc ℕ Progress)
get_progress n = if is_leader n.raft.state then some n.raft.prs else none
