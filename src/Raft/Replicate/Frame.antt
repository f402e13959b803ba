-- ===== src/Raft/Replicate/Frame.antt =====
-- src/raft/raft.rs: the parts of a node that sending leaves alone.
use aegisdb_core.Prelude.{
  ℕ, ◌≡◌, refl, ap, ◌∙◌, Option-cases, Bool, List, [], ◌∷◌, Result, ok, err, panic, arith, inl, inr,
  if◌then◌else◌, not, ◌==◌,
}
use aegisdb_core.Prelude.Assoc.{lookup, nat_eq, keys}
use aegisdb_core.Raft.State.{Raft, Outcome, ◌▹◌, try, Mode}
use aegisdb_core.Raft.Replicate.{
  send_append, send_from, append_to_all, bcast_append, send_heartbeat, heartbeat_to_all,
  bcast_heartbeat,
}

-- `s` is `r` with other messages.
abbrev pub SameButMsgs : Raft → Raft → Type 0
SameButMsgs r s = s ≡ record r { msgs = s.msgs }

SameButMsgs-trans : (r s t : Raft) → SameButMsgs r s → SameButMsgs s t → SameButMsgs r t
SameButMsgs-trans r s t h k = k ∙ ap (λ (x : Raft). record x { msgs = t.msgs }) h

try-SameButMsgs {ℓ} :
    {A : Type ℓ} (r : Raft) (a : Result A) (f : A → Outcome)
    → ((x : A) → SameButMsgs r (f x).1)
    → SameButMsgs r (try a r f).1
try-SameButMsgs r (ok a) f h = h a
try-SameButMsgs r (err e) f h = refl
try-SameButMsgs r panic f h = refl

if-SameButMsgs :
    (r : Raft) (b : Bool) (x y : Outcome)
    → SameButMsgs r x.1
    → SameButMsgs r y.1
    → SameButMsgs r (if b then x else y).1
if-SameButMsgs r Bool.true x y h k = h
if-SameButMsgs r Bool.false x y h k = k

andthen-SameButMsgs :
    (r : Raft) (x : Outcome) (f : Raft → Outcome)
    → SameButMsgs r x.1
    → ((s : Raft) → SameButMsgs s (f s).1)
    → SameButMsgs r (x ▹ f).1
andthen-SameButMsgs r (ok _, s) f h k = SameButMsgs-trans r s (f s).1 h (k s)
andthen-SameButMsgs r (err e, s) f h k = h
andthen-SameButMsgs r (panic, s) f h k = h

send_from-frame :
    (mode : Mode) (r : Raft) (to next : ℕ) → SameButMsgs r (send_from mode r to next).1
unfolding send_from
send_from-frame mode r to next = ground arith

pub send_append-frame : (mode : Mode) (r : Raft) (to : ℕ) → SameButMsgs r (send_append mode r to).1
unfolding send_append
send_append-frame mode r to = elim (Option-cases (lookup to r.prs)) [
  | inl e ↦ rw (e, send_append) refl
  | inr (p, e) ↦ rw (e, send_append) (send_from-frame mode r to p.next_index)
]

append_to_all-frame :
    (mode : Mode) (ids : List ℕ) (r : Raft) → SameButMsgs r (append_to_all mode ids r).1
unfolding append_to_all
append_to_all-frame mode [] r = refl
append_to_all-frame mode (to ∷ ids) r =
    andthen-SameButMsgs r _ (append_to_all mode ids)
      (if-SameButMsgs r (not (to == r.id)) _ _ (send_append-frame mode r to) refl)
      (append_to_all-frame mode ids)

-- Broadcasting the log changes nothing but the messages.
pub bcast_append-frame : (mode : Mode) (r : Raft) → SameButMsgs r (bcast_append mode r).1
unfolding bcast_append
bcast_append-frame mode r = append_to_all-frame mode (keys r.prs) r

heartbeat_to_all-frame : (ids : List ℕ) (r : Raft) → SameButMsgs r (heartbeat_to_all ids r)
unfolding heartbeat_to_all send_heartbeat
heartbeat_to_all-frame [] r = refl
heartbeat_to_all-frame (to ∷ ids) r =
    SameButMsgs-trans r (if not (to == r.id) then send_heartbeat r to else r) _ (ground arith)
      (heartbeat_to_all-frame ids _)

-- So does broadcasting heartbeats.
pub bcast_heartbeat-frame : (r : Raft) → SameButMsgs r (bcast_heartbeat r).1
unfolding bcast_heartbeat
bcast_heartbeat-frame r = heartbeat_to_all-frame (keys r.prs) r
