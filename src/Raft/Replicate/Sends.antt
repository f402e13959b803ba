-- ===== src/Raft/Replicate/Sends.antt =====
-- What a leader sends to a peer whose next index lies in its log.
use aegisdb_core.Prelude.{
  ℕ, zero, suc, ◌+◌, ◌-◌, ◌≤◌, ◌≡◌, refl, ap, ◌∙◌, sym, subst, Bool-cases, Option-cases, List, [],
  ◌∷◌, some, Result, ok, arith, inl, inr, ltb, leb, ◌==◌, true, false, length, drop, take_all,
  length-drop, min, add64-eq, sub64-eq,
}
use aegisdb_core.Prelude.Assoc.{lookup, keys, nat_eq}
use aegisdb_core.Raft.Types.{Message, new_message, append}
use aegisdb_core.Raft.Progress.{Progress}
use aegisdb_core.Raft.Log.{RaftLog, last_index, first_index, term_sync}
use aegisdb_core.Raft.Log.Shape.{IsRow, Numbered, Numbered-drop, last_index_lem}
use aegisdb_core.Raft.Log.Views.{slice_lem}
use aegisdb_core.Raft.State.{Raft, Outcome, done, push, in_memory, or_zero, ◌▹◌}
use aegisdb_core.Raft.Replicate.{send_append, send_from, unsent, append_to_all, bcast_append}
use aegisdb_core.Raft.Replicate.Frame.{send_append-frame}

drop_all {ℓ} : {A : Type ℓ} (n : ℕ) (xs : List A) → length xs ≤ n → drop n xs ≡ []
drop_all zero [] h = refl
drop_all zero (x ∷ xs) h = absurd (omega arith)
drop_all (suc n) [] h = refl
drop_all (suc n) (x ∷ xs) h = drop_all n xs (omega arith)

unsent_lem :
    (l : RaftLog) (next : ℕ)
    → IsRow l
    → first_index l ≤ next
    → next ≤ last_index l + 1
    → unsent l next ≡ ok (drop (next - first_index l) l.entries)
unfolding unsent
unsent_lem l next v h k = elim (Bool-cases (leb next (last_index l))) [
  | inr e ↦
      rw e (
        ap ok
          (sym (drop_all (next - first_index l) l.entries (ground (arith, last_index_lem l v)))))
  | inl e ↦
      let end = last_index_lem l v in
      let inside : next ≤ last_index l = ground arith in
      let a = sub64-eq next (first_index l) h (omega (arith, end, v.fits)) in
      let b = sub64-eq (last_index l) (first_index l) (omega arith) (omega (arith, end, v.fits)) in
      let c = add64-eq (last_index l - first_index l) 1 (omega (arith, end, v.fits)) in
      let d : min (last_index l - first_index l + 1) (length l.entries) ≡ length l.entries =
        omega (arith, end) in
      rw (e, a, b, c, d)
        (slice_lem (next - first_index l) (length l.entries) l.entries (omega (arith, end))
            (omega arith)
          ∙ ap ok (
              take_all (length l.entries - (next - first_index l))
                (drop (next - first_index l) l.entries)
                (omega (arith, length-drop (next - first_index l) l.entries))))
]

-- The message with the entries from `next` on.
abbrev pub append_from : Raft → ℕ → ℕ → Message
append_from r to next = record new_message {
  msg_type = append;
  to = to;
  from = r.id;
  term = r.term;
  log_term = or_zero (term_sync r.raft_log (next - 1));
  index = next - 1;
  entries = drop (next - first_index r.raft_log) r.raft_log.entries;
  commit = r.raft_log.committed;
}

send_from_lem :
    (r : Raft) (to next : ℕ)
    → IsRow r.raft_log
    → first_index r.raft_log ≤ next
    → next ≤ last_index r.raft_log + 1
    → send_from in_memory r to next ≡ done (push (append_from r to next) r)
unfolding send_from
send_from_lem r to next v h k =
    let end = last_index_lem r.raft_log v in
    let a = add64-eq (last_index r.raft_log) 1 (omega (arith, end, v.fits)) in
    let b = sub64-eq next 1 (omega (arith, v.from_one)) (omega (arith, end, v.fits)) in
    let c : ltb (last_index r.raft_log + 1) next ≡ false = ground arith in
    let d : ltb 0 next ≡ true = ground (arith, v.from_one) in
    rw (a, c, unsent_lem r.raft_log next v h k, d, b) refl

-- To a peer whose next index lies between the first index of a settled, gapless log and the one
-- after its last, the leader sends, in the synchronous version, every entry from there on, numbered
-- without a gap, with the index and term just before them; nothing else changes, and no slice is out
-- of range.
send_append_lem :
    (r : Raft) (to : ℕ) (p : Progress)
    → IsRow r.raft_log
    → lookup to r.prs ≡ some p
    → first_index r.raft_log ≤ p.next_index
    → p.next_index ≤ last_index r.raft_log + 1
    → (send_append in_memory r to ≡ done (push (append_from r to p.next_index) r))
      × Numbered p.next_index (append_from r to p.next_index).entries
      × (p.next_index + length (append_from r to p.next_index).entries ≡ last_index r.raft_log + 1)
unfolding send_append
send_append_lem r to p v e h k =
    let n : ℕ = p.next_index - first_index r.raft_log in
    let at : first_index r.raft_log + n ≡ p.next_index = omega arith in
    (
      rw (e, send_append) (send_from_lem r to p.next_index v h k),
      rw at at (Numbered-drop (first_index r.raft_log) n r.raft_log.entries v.numbered),
      omega (arith, last_index_lem r.raft_log v, length-drop n r.raft_log.entries),
    )

-- Every peer's next index lies in the log or just behind it.
pub record InRange (r : Raft) : Type 0 where
  pub at :
      (to : ℕ) (p : Progress)
      → lookup to r.prs ≡ some p
      → (first_index r.raft_log ≤ p.next_index) × (p.next_index ≤ last_index r.raft_log + 1)

send_append-ok :
    (r : Raft) (to : ℕ) → IsRow r.raft_log → InRange r → (send_append in_memory r to).0 ≡ ok tt
unfolding send_append
send_append-ok r to v g = elim (Option-cases (lookup to r.prs)) [
  | inl e ↦ rw (e, send_append) refl
  | inr (p, e) ↦
      ap (λ (o : Outcome). o.0) ((send_append_lem r to p v e (g.at to p e).0 (g.at to p e).1).0)
]

andthen-ok :
    (x : Outcome) (f : Raft → Outcome) → x.0 ≡ ok tt → (f x.1).0 ≡ ok tt → (x ▹ f).0 ≡ ok tt
andthen-ok (ok _, s) f h k = k
andthen-ok (Result.err e, s) f h k = cc
andthen-ok (Result.panic, s) f h k = cc

append_to_all-ok :
    (ids : List ℕ) (r : Raft)
    → IsRow r.raft_log
    → InRange r
    → (append_to_all in_memory ids r).0 ≡ ok tt
unfolding append_to_all
append_to_all-ok [] r v g = refl
append_to_all-ok (to ∷ ids) r v g = elim (Bool-cases (to == r.id)) [
  | inl e ↦ rw e (append_to_all-ok ids r v g)
  | inr e ↦ rw e (
      andthen-ok (send_append in_memory r to) (append_to_all in_memory ids)
        (send_append-ok r to v g)
        (let same = send_append-frame in_memory r to in
          append_to_all-ok ids (send_append in_memory r to).1
            (subst (λ (s : Raft). IsRow s.raft_log) (sym same) v)
            (subst InRange (sym same) (record { at = g.at }))))
]

-- A broadcast to peers in range succeeds.
pub bcast_append-ok :
    (r : Raft) → IsRow r.raft_log → InRange r → (bcast_append in_memory r).0 ≡ ok tt
unfolding bcast_append
bcast_append-ok r v g = append_to_all-ok (keys r.prs) r v g
