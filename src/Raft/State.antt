-- ===== src/Raft/State.antt =====
-- src/raft/raft.rs: the state of a node, and how its methods are put together. A method changes the
-- node and then succeeds, returns an error or panics, so it gives the node back in each case.
use aegisdb_core.Prelude.{
  ◌≡◌, refl, ℕ, ◌+◌, ◌/◌, ◌≤◌, Bool, true, false, List, [], ◌∷◌, ◌++◌, Option, none, some, Result,
  ok, err, panic, unwrap_or, ok_or, length,
}
use aegisdb_core.Prelude.Assoc.{Assoc}
use aegisdb_core.Raft.Types.{Message, StateType, leader}
use aegisdb_core.Raft.Log
use aegisdb_core.Raft.Log.{RaftLog}
use aegisdb_core.Raft.Progress.{Progress}

-- `rand::thread_rng().gen_range(lo..=hi)`: the value drawn and the next state of the generator.
pub record Rand : Type 0 where
  pub gen_range : ℕ → ℕ → ℕ → ℕ × ℕ
  pub in_range :
      (seed lo hi : ℕ) → lo ≤ hi → (lo ≤ (gen_range seed lo hi).0) × ((gen_range seed lo hi).0 ≤ hi)

pub record Raft : Type 0 where
  pub id : ℕ
  pub term : ℕ
  pub vote : ℕ
  pub raft_log : RaftLog
  pub prs : Assoc ℕ Progress
  pub state : StateType
  pub votes : Assoc ℕ Bool
  pub msgs : List Message
  pub lead : ℕ
  pub heartbeat_timeout : ℕ
  pub election_timeout : ℕ
  pub heartbeat_elapsed : ℕ
  pub election_elapsed : ℕ
  pub random_election_timeout : ℕ
  pub seed : ℕ

-- What a method of the node returns, and the node after it.
abbrev pub Outcome : Type 0
Outcome = Result (Unit {0}) × Raft

abbrev pub done : Raft → Outcome
done r = (ok tt, r)

-- `self.f()?; self.g()`
infixl 5 ◌▹◌
abbrev pub ◌▹◌ : Outcome → (Raft → Outcome) → Outcome
(ok _, r) ▹ f = f r
(err e, r) ▹ f = (err e, r)
(panic, r) ▹ f = (panic, r)

-- `let a = e?; …` for an `e` that changes nothing
abbrev pub try {ℓ} : {A : Type ℓ} → Result A → Raft → (A → Outcome) → Outcome
try (ok a) r f = f a
try (err e) r f = (err e, r)
try panic r f = (panic, r)

-- `self.f().ok();`, which drops an error
abbrev pub swallow : Outcome → Outcome
swallow (ok _, r) = (ok tt, r)
swallow (err e, r) = (ok tt, r)
swallow (panic, r) = (panic, r)

-- `self.msgs.push(m)`
abbrev pub push : Message → Raft → Raft
push m r = record r { msgs = r.msgs ++ (m ∷ []) }

abbrev pub is_leader : StateType → Bool
is_leader leader = true
is_leader _ = false

-- `Raft::quorum`
unfoldable pub quorum : Raft → ℕ
quorum r = (length r.prs + 1) / 2 + 1

-- Most handlers stand twice in the source: a version that looks for terms in memory only, and an
-- `async` one that may ask the storage.
pub data Mode : Type 0 where
  in_memory stored : Mode

-- `term_sync(index).ok_or_else(…)?` or `term(index).await?`
abbrev pub require_term : Mode → RaftLog → ℕ → Result ℕ
require_term in_memory l i = ok_or (Log.term_sync l i) "cannot get term for index"
require_term stored l i = Log.term l i

abbrev pub or_zero : Option ℕ → ℕ
or_zero none = 0
or_zero (some t) = t

-- `term_sync(index).unwrap_or(0)` or `term(index).await?`
abbrev pub checked_term : Mode → RaftLog → ℕ → Result ℕ
checked_term in_memory l i = ok (or_zero (Log.term_sync l i))
checked_term stored l i = Log.term l i

-- `term_sync(index).unwrap_or(0)` or `term(index).await.unwrap_or(0)`
abbrev pub prev_term : Mode → RaftLog → ℕ → Result ℕ
prev_term in_memory l i = ok (or_zero (Log.term_sync l i))
prev_term stored l i = unwrap_or (Log.term l i) 0

-- A property of the node after `try` and `swallow`.
pub try_ind {ℓ κ} :
    {A : Type ℓ} (P : Raft → Type κ) (a : Result A) (r : Raft) (f : A → Outcome)
    → P r
    → ((x : A) → a ≡ ok x → P (f x).1)
    → P (try a r f).1
try_ind P (ok a) r f h k = k a refl
try_ind P (err e) r f h k = h
try_ind P panic r f h k = h

pub swallow-node : (o : Outcome) → (swallow o).1 ≡ o.1
swallow-node (ok _, r) = refl
swallow-node (err e, r) = refl
swallow-node (panic, r) = refl

pub andthen_ind {κ} :
    (P : Raft → Type κ) (x : Outcome) (f : Raft → Outcome)
    → P x.1
    → ((s : Raft) → P s → P (f s).1)
    → P (x ▹ f).1
andthen_ind P (ok _, s) f h k = k s h
andthen_ind P (err e, s) f h k = h
andthen_ind P (panic, s) f h k = h
