-- ===== src/Server/Rollback/Atomic.antt =====
-- src/server/transaction_api.rs: what kv_batch_rollback writes, and when.
use aegisdb_core.Prelude.{
  ℕ, ◌≡◌, refl, sym, ap, ◌∙◌, ◌⊎◌, inl, inr, arith, List, [], ◌∷◌, ◌++◌, Option, none, some, Result,
  ok, err, panic, ◌>>=◌, append_assoc, append-nil, bind-ok, Bool-cases, ◌==◌,
}
use aegisdb_core.Prelude.Bytes.{Bytes}
use aegisdb_core.Latches.{Latches}
use aegisdb_core.Latches.Exclusion.{holder}
use aegisdb_core.Mvcc.Codec.{encode_key}
use aegisdb_core.Mvcc.Records
use aegisdb_core.Mvcc.Records.{Lock, write_to_bytes}
use aegisdb_core.Mvcc.Txn
use aegisdb_core.Mvcc.Txn.{
  MvccTxn, Modify, Reader, new_txn, get_lock, current_write, put_write, delete_lock, delete_value,
}
use aegisdb_core.Server.Types.{Engine, BatchRollbackRequest, BatchRollbackResponse, KeyError}
use aegisdb_core.Server.Latched.{Verdict, answer, submit, submit-inj, latched-Decided}
use aegisdb_core.Server.Rollback.{
  kv_batch_rollback, rollback_keys, rollback_key, rollback_uncommitted, rollback_write,
  put_rollback, Outcome, going, refused, verdict_of,
}

abbrev pub with_writes : MvccTxn → List Modify → MvccTxn
with_writes t ws = record t { writes = t.writes ++ ws }

-- The end of the transaction's lock on the key, where it has one.
abbrev pub unlock_one : Bytes → Option Lock → List Modify
unlock_one key none = []
unlock_one key (some l) = Txn.delete key Txn.lock ∷ []

-- The rollback record, and the end of the value.
abbrev pub rollback_one : ℕ → Bytes → List Modify
rollback_one start key =
    Txn.put (encode_key key start) (write_to_bytes (rollback_write start)) Txn.write
    ∷ Txn.delete (encode_key key start) Txn.default
    ∷ []

abbrev pub Own : ℕ → Option Lock → Type 0
Own start none = Unit {0}
Own start (some l) = l.ts ≡ start

-- No key is locked by another transaction, and the batch is that of the keys in their order.
abbrev pub Plan : ℕ → MvccTxn → List Bytes → List Modify → Type 0
Plan start t [] ws = ws ≡ []
Plan start t (key ∷ keys) ws =
    (found : Option Lock) × (rest : List Modify) × (get_lock key t ≡ ok found)
    × Own start found
    × (ws ≡ unlock_one key found ++ (rollback_one start key ++ rest))
    × Plan start t keys rest

pub put_rollback_lem :
    (start : ℕ) (key : Bytes) (t : MvccTxn)
    → t.start_ts ≡ start
    → put_rollback start key t ≡ with_writes t (rollback_one start key)
unfolding put_rollback put_write delete_value
put_rollback_lem start key t s = rw (s, append_assoc) refl

going-inj : (t u : MvccTxn) → ◌≡◌ {A = Result Outcome} (ok (going t)) (ok (going u)) → t ≡ u
going-inj t u h = cc h

outcome_cases :
    (o : Outcome) → ((t : MvccTxn) × (o ≡ going t)) ⊎ ((ke : KeyError) × (o ≡ refused ke))
outcome_cases (going t) = inl (t, refl)
outcome_cases (refused ke) = inr (ke, refl)

uncommitted_lem :
    (req : BatchRollbackRequest) (key : Bytes) (t u : MvccTxn)
    (found : Result (Option Records.Write × ℕ))
    → rollback_uncommitted req key t found ≡ ok (going u)
    → put_rollback req.start_version key t ≡ u
unfolding rollback_uncommitted
uncommitted_lem req key t u (ok (some w, ts)) h = ground arith
uncommitted_lem req key t u (ok (none, ts)) h = cc h
uncommitted_lem req key t u (err e) h = cc h
uncommitted_lem req key t u panic h = cc h

rollback_key_lem :
    (req : BatchRollbackRequest) (key : Bytes) (t u : MvccTxn) (found : Option Lock)
    → t.start_ts ≡ req.start_version
    → rollback_key req key t found ≡ ok (going u)
    → Own req.start_version found
      × (u ≡ with_writes t (unlock_one key found ++ rollback_one req.start_version key))
unfolding rollback_key delete_lock
rollback_key_lem req key t u none s h = (
  tt,
  sym (uncommitted_lem req key t u (current_write key t) h)
      ∙ put_rollback_lem req.start_version key t s,
)
rollback_key_lem req key t u (some l) s h = elim (Bool-cases (l.ts == req.start_version)) [
  | inr other ↦ ground arith
  | inl own ↦
      let t1 = delete_lock key t in
      let h1 : rollback_uncommitted req key t1 (current_write key t1) ≡ ok (going u) =
        ground arith in
      (
        ground arith,
        sym (uncommitted_lem req key t1 u (current_write key t1) h1)
            ∙ put_rollback_lem req.start_version key t1 s
            ∙ rw append_assoc refl,
      )
]

went_on :
    (o : Outcome) (u : MvccTxn) (f : MvccTxn → Result Outcome)
    → (elim o [ refused e ↦ ok (refused e) | going t1 ↦ f t1 ]) ≡ ok (going u)
    → (t1 : MvccTxn) × (o ≡ going t1) × (f t1 ≡ ok (going u))
went_on (going t1) u f h = (t1, refl, h)
went_on (refused e) u f h = cc h

rollback_keys_lem :
    (req : BatchRollbackRequest) (keys : List Bytes) (t u t' : MvccTxn) (ws : List Modify)
    → t.start_ts ≡ req.start_version
    → u ≡ with_writes t ws
    → rollback_keys req keys u ≡ ok (going t')
    → (more : List Modify) × (t' ≡ with_writes t (ws ++ more)) × Plan req.start_version t keys more
unfolding rollback_keys get_lock
rollback_keys_lem req [] t u t' ws s e h =
    ([], sym (going-inj u t' h) ∙ e ∙ rw append-nil refl, refl)
rollback_keys_lem req (key ∷ keys) t u t' ws s e h =
    let (found, got, h1) = bind-ok (get_lock key u) _ (going t') h in
    let (o, now, h2) = bind-ok (rollback_key req key u found) _ (going t') h1 in
    let (u1, o1, h3) = went_on o t' (rollback_keys req keys) h2 in
    let (own, w) =
      rollback_key_lem req key u u1 found (ap (λ (x : MvccTxn). x.start_ts) e ∙ s)
        (now ∙ ap ok o1) in
    let this = unlock_one key found ++ rollback_one req.start_version key in
    let (more, e1, plan) =
      rollback_keys_lem req keys t u1 t' (ws ++ this) s
        (w
          ∙ ap (λ x. with_writes x this) e
          ∙ ap (λ x. record t { writes = x }) (append_assoc t.writes ws this))
        h3 in
    (
      this ++ more,
      e1 ∙ ap (with_writes t) (append_assoc ws this more),
      (
        found,
        more,
        sym (ap (get_lock key) e) ∙ got,
        own,
        append_assoc (unlock_one key found) (rollback_one req.start_version key) more,
        plan,
      ),
    )

-- What an answer of `kv_batch_rollback` means for the store.
abbrev pub RolledBack {ℓ} :
    {S : Type ℓ} → Engine S → BatchRollbackRequest → BatchRollbackResponse → S → S → Type ℓ
RolledBack e req resp s s' =
    ((ke : KeyError) × (resp.error ≡ some ke) × (s' ≡ s))
    ⊎ ((reader : Reader) × (ws : List Modify) × (resp.error ≡ none)
        × (e.reader s ≡ ok reader)
        × Plan req.start_version (new_txn reader req.start_version) req.keys ws
        × (e.write ws s ≡ (ok tt, s')))

verdict_lem :
    (req : BatchRollbackRequest) (t0 : MvccTxn) (v : Verdict BatchRollbackResponse)
    → t0.start_ts ≡ req.start_version
    → rollback_keys req req.keys t0 >>= (λ o. ok (verdict_of o)) ≡ ok v
    → ((t : MvccTxn) × (ws : List Modify) × (v ≡ submit t (record { error = none }))
        × (t ≡ with_writes t0 ws)
        × Plan req.start_version t0 req.keys ws)
      ⊎ ((ke : KeyError) × (v ≡ answer (record { error = some ke })))
verdict_lem req t0 v s h =
    let (o, done, h1) = bind-ok (rollback_keys req req.keys t0) _ v h in
    elim (outcome_cases o) [
      | inr (ke, e) ↦ inr (ke, cc (h1, e))
      | inl (t, e) ↦
          let (ws, w, plan) =
            rollback_keys_lem req req.keys t0 t0 t [] s (rw append-nil refl) (done ∙ ap ok e) in
          inl (t, ws, cc (h1, e), w, plan)
    ]

-- If `kv_batch_rollback` answers with an error, the store is as it was; if it answers without, then no
-- key of the request has a lock of another transaction, and the store has taken, as one batch, for
-- every key in order the end of its lock, if it has one, a rollback record at the start time, and the
-- end of the value. In both cases the latches are as before.
pub rollback_all_or_nothing {ℓ} :
    {S : Type ℓ} (e : Engine S) (req : BatchRollbackRequest) (l l' : Latches) (s s' : S)
    (resp : BatchRollbackResponse)
    → kv_batch_rollback e req l s ≡ some (ok resp, s', l')
    → RolledBack e req resp s s' × ((key : Bytes) → holder key l' ≡ holder key l)
unfolding kv_batch_rollback
rollback_all_or_nothing e req l l' s s' resp h =
    let ((reader, r, d), latches) = latched-Decided e _ _ _ l l' s s' resp h in
    let t0 = new_txn reader req.start_version in
    (
      elim d [
        | inl (v, same) ↦ elim (verdict_lem req t0 (answer resp) refl v) [
          | inl (t, ws, c, w, plan) ↦ cc c
          | inr (ke, c) ↦ inl (ke, cc c, same)
        ]
        | inr (t, v, w) ↦ elim (verdict_lem req t0 (submit t resp) refl v) [
          | inl (t1, ws, c, u, plan) ↦ inr (
            reader,
            ws,
            cc c,
            r,
            plan,
            ap (λ (x : MvccTxn). e.write x.writes s) (sym u ∙ sym (submit-inj t t1 _ _ c)) ∙ w,
          )
          | inr (ke, c) ↦ cc c
        ]
      ],
      latches,
    )
