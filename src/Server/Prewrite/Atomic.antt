-- ===== src/Server/Prewrite/Atomic.antt =====
-- src/server/transaction_api.rs: what kv_prewrite writes, and when.
use aegisdb_core.Prelude.{
  ℕ, ◌≡◌, ◌≢◌, refl, sym, ap, ◌∙◌, ◌⊎◌, inl, inr, arith, List, [], ◌∷◌, ◌++◌, Option, none, some,
  Result, ok, err, panic, ◌>>=◌, append_assoc, append-nil, bind-ok, subst,
}
use aegisdb_core.Prelude.Bytes.{Bytes}
use aegisdb_core.Latches.{Latches}
use aegisdb_core.Latches.Exclusion.{holder}
use aegisdb_core.Mvcc.Codec.{encode_key}
use aegisdb_core.Mvcc.Records
use aegisdb_core.Mvcc.Records.{Lock, lock_to_bytes}
use aegisdb_core.Mvcc.Txn
use aegisdb_core.Mvcc.Txn.{
  MvccTxn, Modify, Reader, new_txn, get_lock, most_recent_write, put_value, delete_value, put_lock,
}
use aegisdb_core.Server.Types
use aegisdb_core.Server.Types.{
  Engine, Mutation, PrewriteRequest, PrewriteResponse, KeyError, locked_error,
}
use aegisdb_core.Server.Latched.{Verdict, answer, submit, submit-inj, latched_answer}
use aegisdb_core.Server.Prewrite.{
  kv_prewrite, prewrite_mutations, prewrite_unless_locked, write_unless_conflict, write_mutation,
  new_lock, verdict_of, conflict_of, lock_info,
}

-- What the batch holds for a mutation: the value under the start time, and the lock.
abbrev pub planned_one : ℕ → PrewriteRequest → Mutation → Types.Op → List Modify
planned_one start req m Types.put =
    Txn.put (encode_key m.key start) m.value Txn.default
    ∷ Txn.put m.key (lock_to_bytes (new_lock req Records.put)) Txn.lock
    ∷ []
planned_one start req m Types.del =
    Txn.delete (encode_key m.key start) Txn.default
    ∷ Txn.put m.key (lock_to_bytes (new_lock req Records.delete)) Txn.lock
    ∷ []
planned_one start req m Types.rollback = []

abbrev pub planned : ℕ → PrewriteRequest → List Mutation → List Modify
planned start req [] = []
planned start req (m ∷ ms) = planned_one start req m m.op ++ planned start req ms

-- No lock, or one of the transaction itself.
abbrev pub Free : PrewriteRequest → Option Lock → Type 0
Free req none = Unit {0}
Free req (some l) = l.ts ≡ req.start_version

-- The transaction after writes.
abbrev with_writes : MvccTxn → List Modify → MvccTxn
with_writes t ws = record t { writes = t.writes ++ ws }

snoc-not-nil {ℓ} : {A : Type ℓ} (xs : List A) (a : A) → xs ++ (a ∷ []) ≢ []
snoc-not-nil [] a h = cc
snoc-not-nil (x ∷ xs) a h = cc

write_mutation_lem :
    (req : PrewriteRequest) (m : Mutation) (op : Types.Op) (t t' : MvccTxn) (errors : List KeyError)
    → write_mutation req m op (t, errors) ≡ (t', [])
    → (errors ≡ []) × (t' ≡ with_writes t (planned_one t.start_ts req m op))
unfolding write_mutation put_value put_lock delete_value
write_mutation_lem req m Types.put t t' errors h = (
  ap (λ (p : MvccTxn × List KeyError). p.1) h,
  sym (ap (λ (p : MvccTxn × List KeyError). p.0) h) ∙ rw append_assoc refl,
)
write_mutation_lem req m Types.del t t' errors h = (
  ap (λ (p : MvccTxn × List KeyError). p.1) h,
  sym (ap (λ (p : MvccTxn × List KeyError). p.0) h) ∙ rw append_assoc refl,
)
write_mutation_lem req m Types.rollback t t' errors h =
    elim (snoc-not-nil errors _ (ap (λ (p : MvccTxn × List KeyError). p.1) h)) [ ]

conflict_free_lem :
    (req : PrewriteRequest) (m : Mutation) (t t' : MvccTxn) (errors : List KeyError)
    (found : Result (Option Records.Write × ℕ))
    → write_unless_conflict req m (t, errors) found ≡ ok (t', [])
    → (errors ≡ []) × (t' ≡ with_writes t (planned_one t.start_ts req m m.op))
unfolding write_unless_conflict
conflict_free_lem req m t t' errors (ok (some w, ts)) h =
    ground
      (arith, snoc-not-nil errors (conflict_of req m ts), write_mutation_lem req m m.op t t' errors)
conflict_free_lem req m t t' errors (ok (none, ts)) h =
    write_mutation_lem req m m.op t t' errors (cc h)
conflict_free_lem req m t t' errors (err e) h = write_mutation_lem req m m.op t t' errors (cc h)
conflict_free_lem req m t t' errors panic h = cc

unlocked_lem :
    (req : PrewriteRequest) (m : Mutation) (t t' : MvccTxn) (errors : List KeyError)
    (found : Option Lock)
    → prewrite_unless_locked req m (t, errors) found ≡ ok (t', [])
    → (errors ≡ []) × (t' ≡ with_writes t (planned_one t.start_ts req m m.op)) × Free req found
unfolding prewrite_unless_locked
unlocked_lem req m t t' errors none h =
    let (e, w) = conflict_free_lem req m t t' errors (most_recent_write m.key t) h in (e, w, tt)
unlocked_lem req m t t' errors (some l) h = ground (
  arith,
  snoc-not-nil errors (locked_error (lock_info m.key l)),
  conflict_free_lem req m t t' errors (most_recent_write m.key t),
)

-- The locks on the keys are of the transaction itself, or there are none.
abbrev pub AllFree : PrewriteRequest → MvccTxn → List Mutation → Type 0
AllFree req t [] = Unit {0}
AllFree req t (m ∷ ms) =
    ((found : Option Lock) × (get_lock m.key t ≡ ok found) × Free req found) × AllFree req t ms

AllFree-writes :
    (req : PrewriteRequest) (t : MvccTxn) (ws : List Modify) (ms : List Mutation)
    → AllFree req (with_writes t ws) ms
    → AllFree req t ms
unfolding get_lock
AllFree-writes req t ws [] h = tt
AllFree-writes req t ws (m ∷ ms) (h, hs) = (h, AllFree-writes req t ws ms hs)

same-writes : (t t' : MvccTxn) → t ≡ t' → t' ≡ with_writes t []
same-writes t t' h = sym h ∙ rw append-nil refl

mutations_lem :
    (req : PrewriteRequest) (ms : List Mutation) (t t' : MvccTxn) (errors : List KeyError)
    → prewrite_mutations req ms (t, errors) ≡ ok (t', [])
    → (errors ≡ []) × (t' ≡ with_writes t (planned t.start_ts req ms)) × AllFree req t ms
unfolding prewrite_mutations
mutations_lem req [] t t' errors h = (cc h, same-writes t t' (cc h), tt)
mutations_lem req (m ∷ ms) t t' errors h =
    let (found, got, h1) = bind-ok (get_lock m.key t) _ (t', []) h in
    let ((t1, errors1), one, h2) =
      bind-ok (prewrite_unless_locked req m (t, errors) found) _ (t', []) h1 in
    let (e1, w1, free) = mutations_lem req ms t1 t' errors1 h2 in
    let (e, w, own) = unlocked_lem req m t t1 errors found (one ∙ ap (λ es. ok (t1, es)) e1) in
    (
      e,
      w1 ∙ ap (λ u. with_writes u (planned u.start_ts req ms)) w ∙ rw append_assoc refl,
      ((found, got, own), AllFree-writes req t _ ms (subst (λ u. AllFree req u ms) w free)),
    )

verdict_cases :
    (p : MvccTxn × List KeyError) (v : Verdict PrewriteResponse)
    → ok (verdict_of p) ≡ ok v
    → ((p.1 ≡ []) × (v ≡ submit p.0 (record { errors = [] })))
      ⊎ ((p.1 ≢ []) × (v ≡ answer (record { errors = p.1 })))
verdict_cases (t, []) v h = inl (refl, cc h)
verdict_cases (t, e ∷ es) v h = inr (λ n. cc n, cc h)

-- What `kv_prewrite` decides over a reader.
verdict_lem :
    (req : PrewriteRequest) (t0 : MvccTxn) (v : Verdict PrewriteResponse)
    → prewrite_mutations req req.mutations (t0, []) >>= (λ p. ok (verdict_of p)) ≡ ok v
    → ((t : MvccTxn) × (v ≡ submit t (record { errors = [] }))
        × (t ≡ with_writes t0 (planned t0.start_ts req req.mutations))
        × AllFree req t0 req.mutations)
      ⊎ ((resp : PrewriteResponse) × (v ≡ answer resp) × (resp.errors ≢ []))
verdict_lem req t0 v h =
    let ((t, errors), q, h1) =
      bind-ok (prewrite_mutations req req.mutations (t0, [])) (λ p. ok (verdict_of p)) v h in
    elim (verdict_cases (t, errors) v h1) [
      | inl (none_left, c) ↦
          let (_, w, free) =
            mutations_lem req req.mutations t0 t [] (q ∙ ap (λ es. ok (t, es)) none_left) in
          inl (t, c, w, free)
      | inr (n, c) ↦ inr (record { errors = errors }, c, n)
    ]

-- What an answer of `kv_prewrite` means for the store.
abbrev pub Prewritten {ℓ} :
    {S : Type ℓ} → Engine S → PrewriteRequest → PrewriteResponse → S → S → Type ℓ
Prewritten e req resp s s' =
    ((resp.errors ≢ []) × (s' ≡ s))
    ⊎ ((resp.errors ≡ [])
        × (reader : Reader) × (e.reader s ≡ ok reader)
        × AllFree req (new_txn reader req.start_version) req.mutations
        × (e.write (planned req.start_version req req.mutations) s ≡ (ok tt, s')))

-- If `kv_prewrite` answers with errors, the store is as it was; if it answers without, then no key of
-- the request had a lock of another transaction, and the store has taken, as one batch, the value and
-- the lock of every mutation, in order, under the start time. In both cases the latches are as before.
pub prewrite_all_or_nothing {ℓ} :
    {S : Type ℓ} (e : Engine S) (req : PrewriteRequest) (l l' : Latches) (s s' : S)
    (resp : PrewriteResponse)
    → kv_prewrite e req l s ≡ some (ok resp, s', l')
    → Prewritten e req resp s s' × ((key : Bytes) → holder key l' ≡ holder key l)
unfolding kv_prewrite
prewrite_all_or_nothing e req l l' s s' resp h =
    let (d, latches) = latched_answer e _ _ _ l l' s s' resp h in
    (
      elim d [
        | inl (v, same) ↦
            let (reader, r, h1) = bind-ok (e.reader s) _ (answer resp) v in
            elim (verdict_lem req (new_txn reader req.start_version) (answer resp) h1) [
              | inl (t, c, w, free) ↦ cc c
              | inr (resp1, c, n) ↦ inl (λ z. n (cc (c, z)), same)
            ]
        | inr (t, v, w) ↦
            let (reader, r, h1) = bind-ok (e.reader s) _ (submit t resp) v in
            elim (verdict_lem req (new_txn reader req.start_version) (submit t resp) h1) [
              | inl (t1, c, ws, free) ↦ inr (
                cc c,
                reader,
                r,
                free,
                ap (λ (u : MvccTxn). e.write u.writes s) (sym ws ∙ sym (submit-inj t t1 _ _ c)) ∙ w,
              )
              | inr (resp1, c, n) ↦ cc c
            ]
      ],
      latches,
    )
