-- ===== src/Server/Prewrite/Conflicts.antt =====
-- src/server/transaction_api.rs: the check of kv_prewrite for write conflicts.
use aegisdb_core.Prelude.{
  ℕ, ◌≤◌, ◌≡◌, refl, ap, inl, inr, arith, false, List, [], ◌∷◌, ◌++◌, Option, none, some, Result,
  ok, err, panic, ltb, ◌==◌, bind-ok, subst, le→ltb, Bool-cases,
}
use aegisdb_core.Prelude.Bytes.{Bytes}
use aegisdb_core.Latches.{Latches}
use aegisdb_core.Mvcc.Records
use aegisdb_core.Mvcc.Records.{Lock}
use aegisdb_core.Mvcc.Txn.{
  MvccTxn, new_txn, get_lock, most_recent_write, put_value, delete_value, put_lock,
}
use aegisdb_core.Mvcc.Txn.Visible.{find_write-le}
use aegisdb_core.Server.Types
use aegisdb_core.Server.Types.{
  Engine, Mutation, PrewriteRequest, PrewriteResponse, KeyError, locked_error, abort_error,
}
use aegisdb_core.Server.Latched.{answer, submit, latched_answer}
use aegisdb_core.Server.Prewrite.{
  kv_prewrite, prewrite_mutations, prewrite_unless_locked, write_unless_conflict, write_mutation,
  verdict_of, lock_info, Progress,
}

-- None of the errors is a conflict.
abbrev pub NoConflict : List KeyError → Type 0
NoConflict [] = Unit {0}
NoConflict (e ∷ es) = (e.conflict ≡ none) × NoConflict es

NoConflict-snoc :
    (es : List KeyError) (e : KeyError)
    → NoConflict es
    → e.conflict ≡ none
    → NoConflict (es ++ (e ∷ []))
NoConflict-snoc [] e h k = (k, tt)
NoConflict-snoc (x ∷ es) e (p, h) k = (p, NoConflict-snoc es e h k)

abbrev Quiet : PrewriteRequest → Progress → Type 0
Quiet req p = (p.0.start_ts ≡ req.start_version) × NoConflict p.1

Quiet-ok :
    (req : PrewriteRequest) (p p' : Progress)
    → Quiet req p
    → ◌≡◌ {A = Result Progress} (ok p) (ok p')
    → Quiet req p'
Quiet-ok req p p' q h = let same : p ≡ p' = cc h in subst (Quiet req) same q

write_mutation-Quiet :
    (req : PrewriteRequest) (m : Mutation) (op : Types.Op) (p : Progress)
    → Quiet req p
    → Quiet req (write_mutation req m op p)
unfolding write_mutation put_value put_lock delete_value
write_mutation-Quiet req m Types.put (t, es) q = q
write_mutation-Quiet req m Types.del (t, es) q = q
write_mutation-Quiet req m Types.rollback (t, es) (s, n) = (s, NoConflict-snoc es _ n refl)

most_recent_write-le :
    (key : Bytes) (t : MvccTxn) (w : Records.Write) (ts : ℕ)
    → most_recent_write key t ≡ ok (some w, ts)
    → ts ≤ t.start_ts
unfolding most_recent_write
most_recent_write-le key t w ts h = find_write-le t.start_ts key _ w ts h

write_unless_conflict-Quiet :
    (req : PrewriteRequest) (m : Mutation) (p p' : Progress)
    (found : Result (Option Records.Write × ℕ))
    → ((w : Records.Write) (ts : ℕ) → found ≡ ok (some w, ts) → ts ≤ req.start_version)
    → Quiet req p
    → write_unless_conflict req m p found ≡ ok p'
    → Quiet req p'
unfolding write_unless_conflict
write_unless_conflict-Quiet req m (t, es) p' (ok (some w, ts)) early q h =
    let no : ltb req.start_version ts ≡ false = le→ltb req.start_version ts (early w ts refl) in
    Quiet-ok req (write_mutation req m m.op (t, es)) p' (write_mutation-Quiet req m m.op (t, es) q)
      (ground (arith, no, h))
write_unless_conflict-Quiet req m p p' (ok (none, ts)) early q h =
    Quiet-ok req (write_mutation req m m.op p) p' (write_mutation-Quiet req m m.op p q) h
write_unless_conflict-Quiet req m p p' (err e) early q h =
    Quiet-ok req (write_mutation req m m.op p) p' (write_mutation-Quiet req m m.op p q) h
write_unless_conflict-Quiet req m p p' panic early q h = cc

unless_locked-Quiet :
    (req : PrewriteRequest) (m : Mutation) (p p' : Progress) (found : Option Lock)
    → Quiet req p
    → prewrite_unless_locked req m p found ≡ ok p'
    → Quiet req p'
unfolding prewrite_unless_locked
unless_locked-Quiet req m (t, es) p' none q h =
    write_unless_conflict-Quiet req m (t, es) p' (most_recent_write m.key t)
      (λ w ts e. subst (λ x. ts ≤ x) q.0 (most_recent_write-le m.key t w ts e)) q h
unless_locked-Quiet req m (t, es) p' (some l) q h = elim (Bool-cases (l.ts == req.start_version)) [
  | inl e ↦
      write_unless_conflict-Quiet req m (t, es) p' (most_recent_write m.key t)
        (λ w ts e. subst (λ x. ts ≤ x) q.0 (most_recent_write-le m.key t w ts e)) q
        (ground (arith, e, h))
  | inr e ↦
      Quiet-ok req (t, es ++ (locked_error (lock_info m.key l) ∷ [])) p'
        (q.0, NoConflict-snoc es (locked_error (lock_info m.key l)) q.1 refl) (ground (arith, e, h))
]

mutations-Quiet :
    (req : PrewriteRequest) (ms : List Mutation) (p p' : Progress)
    → Quiet req p
    → prewrite_mutations req ms p ≡ ok p'
    → Quiet req p'
unfolding prewrite_mutations
mutations-Quiet req [] p p' q h = Quiet-ok req p p' q h
mutations-Quiet req (m ∷ ms) (t, es) p' q h =
    let (found, got, h1) = bind-ok (get_lock m.key t) _ p' h in
    let (p1, one, h2) = bind-ok (prewrite_unless_locked req m (t, es) found) _ p' h1 in
    mutations-Quiet req ms p1 p' (unless_locked-Quiet req m (t, es) p1 found q one) h2

errors_none : (resp : PrewriteResponse) → record { errors = [] } ≡ resp → [] ≡ resp.errors
errors_none resp h = ap (λ (r : PrewriteResponse). r.errors) h

verdict-errors :
    (p : Progress) (resp : PrewriteResponse) → verdict_of p ≡ answer resp → p.1 ≡ resp.errors
verdict-errors (t, []) resp h = cc
verdict-errors (t, e ∷ es) resp h = cc h

submit-NoConflict :
    (p : Progress) (t : MvccTxn) (resp : PrewriteResponse)
    → verdict_of p ≡ submit t resp
    → NoConflict resp.errors
submit-NoConflict (u, []) t resp h = subst NoConflict (errors_none resp (cc h)) tt
submit-NoConflict (u, e ∷ es) t resp h = cc

-- `kv_prewrite` never reports a write conflict: whatever the store holds, later commits of other
-- transactions on the same keys too, none of the errors in its answer is a conflict.
pub prewrite-NoConflict {ℓ} :
    {S : Type ℓ} (e : Engine S) (req : PrewriteRequest) (l l' : Latches) (s s' : S)
    (resp : PrewriteResponse)
    → kv_prewrite e req l s ≡ some (ok resp, s', l')
    → NoConflict resp.errors
unfolding kv_prewrite
prewrite-NoConflict e req l l' s s' resp h =
    let (d, latches) = latched_answer e _ _ _ l l' s s' resp h in
    elim d [
      | inl (v, same) ↦
          let (reader, r, h1) = bind-ok (e.reader s) _ (answer resp) v in
          let (p, q, h2) =
            bind-ok (prewrite_mutations req req.mutations (new_txn reader req.start_version, [])) _
              (answer resp) h1 in
          subst NoConflict (verdict-errors p resp (cc h2))
            (mutations-Quiet req req.mutations (new_txn reader req.start_version, []) p (refl, tt)
              q).1
      | inr (t, v, w) ↦
          let (reader, r, h1) = bind-ok (e.reader s) _ (submit t resp) v in
          let (p, q, h2) =
            bind-ok (prewrite_mutations req req.mutations (new_txn reader req.start_version, [])) _
              (submit t resp) h1 in
          submit-NoConflict p t resp (cc h2)
    ]
