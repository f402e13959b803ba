-- ===== src/Server/CheckTxn/Status.antt =====
-- src/server/transaction_api.rs: what kv_check_txn_status answers and writes.
use aegisdb_core.Prelude.{
  ℕ, ◌≤◌, ◌<◌, ◌≡◌, refl, sym, ap, ◌∙◌, ◌⊎◌, inl, inr, arith, [], ◌∷◌, ◌++◌, Option, none, some,
  Result, ok, err, panic, ltb, ◌==◌, Bool-cases, add64, subst, ==_iff,
}
use aegisdb_core.Prelude.Bytes.{Bytes}
use aegisdb_core.Latches.{Latches}
use aegisdb_core.Latches.Exclusion.{holder}
use aegisdb_core.Mvcc.Codec.{encode_key, physical_time}
use aegisdb_core.Mvcc.Records
use aegisdb_core.Mvcc.Records.{Lock, write_to_bytes}
use aegisdb_core.Mvcc.Txn
use aegisdb_core.Mvcc.Txn.{
  MvccTxn, Modify, Reader, new_txn, get_lock, current_write, put_write, delete_lock, delete_value,
}
use aegisdb_core.Mvcc.Txn.Current.{current_write_lem}
use aegisdb_core.Server.Types.{
  Engine, CheckTxnStatusRequest, CheckTxnStatusResponse, locked, committed, rolled_back,
  ttl_expire_rollback, lock_not_exist_rollback,
}
use aegisdb_core.Server.Latched.{Verdict, answer, submit, Decided, latched-Decided, bind-Decided}
use aegisdb_core.Server.Rollback.{rollback_write, put_rollback}
use aegisdb_core.Server.CheckTxn.{
  kv_check_txn_status, status_of, without_lock, expire, record_rollback, is_expired,
}

-- The rollback record of the primary key.
abbrev pub rollback_record : CheckTxnStatusRequest → Modify
rollback_record req =
    Txn.put (encode_key req.primary_key req.lock_ts) (write_to_bytes (rollback_write req.lock_ts))
      Txn.write

submitted_txn :
    (t u : MvccTxn) (a b : CheckTxnStatusResponse)
    → ◌≡◌ {A = Result (Verdict CheckTxnStatusResponse)} (ok (submit t a)) (ok (submit u b))
    → t ≡ u
submitted_txn t u a b h = cc h

module _ {ℓ} {S : Type ℓ} (e : Engine S) (req : CheckTxnStatusRequest) where
  -- The lock stays, or it is the transaction's own and its time is over.
  abbrev pub WithLock : Lock → CheckTxnStatusResponse → S → S → Type ℓ
  WithLock l resp s s' =
      ((resp ≡ locked l.ttl)
        × (s' ≡ s)
        × (l.ts ≡ req.lock_ts → physical_time req.current_ts ≤ add64 (physical_time l.ts) l.ttl))
      ⊎ ((l.ts ≡ req.lock_ts)
          × (add64 (physical_time l.ts) l.ttl < physical_time req.current_ts)
          × (resp ≡ rolled_back ttl_expire_rollback)
          × (e.write
                (Txn.delete req.primary_key Txn.lock
                  ∷ rollback_record req
                  ∷ Txn.delete (encode_key req.primary_key req.lock_ts) Txn.default
                  ∷ [])
                s
              ≡ (ok tt, s')))

  -- No record is found, or the read fails, or the record is of the time 0.
  abbrev pub NotFound : Result (Option Records.Write × ℕ) → Type 0
  NotFound (ok (some w, c)) = c ≡ 0
  NotFound (ok (none, c)) = Unit
  NotFound (err m) = Unit
  NotFound panic = ⊥

  -- A record of whatever kind is found at the start time and taken for a commit, or none is and a rollback
  -- record is left.
  abbrev pub WithoutLock : MvccTxn → CheckTxnStatusResponse → S → S → Type ℓ
  WithoutLock t resp s s' =
      ((w : Records.Write) × (current_write req.primary_key t ≡ ok (some w, req.lock_ts))
        × (0 < req.lock_ts)
        × (resp ≡ committed req.lock_ts)
        × (s' ≡ s))
      ⊎ (NotFound (current_write req.primary_key t)
          × (resp ≡ rolled_back lock_not_exist_rollback)
          × (e.write (rollback_record req ∷ []) s ≡ (ok tt, s')))

  abbrev pub Found : MvccTxn → Option Lock → CheckTxnStatusResponse → S → S → Type ℓ
  Found t none resp s s' = WithoutLock t resp s s'
  Found t (some l) resp s s' = WithLock l resp s s'

  answered :
      (a resp : CheckTxnStatusResponse) (s s' : S)
      → Decided e (ok (answer a)) resp s s'
      → (resp ≡ a) × (s' ≡ s)
  answered a resp s s' (inl (v, same)) = (cc v, same)
  answered a resp s s' (inr (u, v, w)) = cc v

  submitted :
      (t : MvccTxn) (a resp : CheckTxnStatusResponse) (s s' : S)
      → Decided e (ok (submit t a)) resp s s'
      → (resp ≡ a) × (e.write t.writes s ≡ (ok tt, s'))
  submitted t a resp s s' (inl (v, same)) = cc v
  submitted t a resp s s' (inr (u, v, w)) =
      (cc v, ap (λ (x : MvccTxn). e.write x.writes s) (submitted_txn t u a resp v) ∙ w)

  recorded :
      (t : MvccTxn) (resp : CheckTxnStatusResponse) (s s' : S)
      → t.writes ≡ []
      → NotFound (current_write req.primary_key t)
      → Decided e (ok (record_rollback req t)) resp s s'
      → WithoutLock t resp s s'
  unfolding record_rollback put_write
  recorded t resp s s' empty missing d =
      let (same, w) = submitted _ _ resp s s' d in
      inr (missing, same, sym (ap (λ ws. e.write (ws ++ (rollback_record req ∷ [])) s) empty) ∙ w)

  without_lock_lem :
      (t : MvccTxn) (resp : CheckTxnStatusResponse) (s s' : S)
      (found : Result (Option Records.Write × ℕ))
      → t.writes ≡ []
      → t.start_ts ≡ req.lock_ts
      → current_write req.primary_key t ≡ found
      → Decided e (without_lock req t found) resp s s'
      → WithoutLock t resp s s'
  unfolding without_lock
  without_lock_lem t resp s s' (ok (some w, c)) empty start now d =
      let at_start : c ≡ req.lock_ts = current_write_lem req.primary_key t w c now ∙ start in
      elim (Bool-cases (ltb 0 c)) [
        | inl after ↦
            let (same, kept) =
              answered (committed c) resp s s'
                (subst (λ v. Decided e v resp s s') (rw after refl) d) in
            inl (
              w,
              now ∙ ap (λ x. ok (some w, x)) at_start,
              ground (arith, after, at_start),
              same ∙ ap committed at_start,
              kept,
            )
        | inr zero_time ↦
            recorded t resp s s' empty (subst NotFound (sym now) (ground (arith, zero_time)))
              (subst (λ v. Decided e v resp s s') (rw zero_time refl) d)
      ]
  without_lock_lem t resp s s' (ok (none, c)) empty start now d =
      recorded t resp s s' empty (subst NotFound (sym now) tt) d
  without_lock_lem t resp s s' (err m) empty start now d =
      recorded t resp s s' empty (subst NotFound (sym now) tt) d
  without_lock_lem t resp s s' panic empty start now (inl (v, same)) = cc v
  without_lock_lem t resp s s' panic empty start now (inr (u, v, w)) = cc v

  status_lem :
      (t : MvccTxn) (resp : CheckTxnStatusResponse) (s s' : S) (found : Option Lock)
      → t.writes ≡ []
      → t.start_ts ≡ req.lock_ts
      → Decided e (status_of req t found) resp s s'
      → Found t found resp s s'
  unfolding status_of expire put_rollback put_write delete_lock delete_value
  status_lem t resp s s' none empty start d =
      without_lock_lem t resp s s' (current_write req.primary_key t) empty start refl d
  status_lem t resp s s' (some l) empty start d = elim (Bool-cases (l.ts == req.lock_ts)) [
    | inr other ↦
        let (same, kept) =
          answered (locked l.ttl) resp s s'
            (subst (λ v. Decided e v resp s s') (rw other refl) d) in
        inl (same, kept, λ own. ground arith)
    | inl own ↦ elim (Bool-cases (is_expired req.current_ts l)) [
      | inr live ↦
          let (same, kept) =
            answered (locked l.ttl) resp s s'
              (subst (λ v. Decided e v resp s s') (rw (own, live) refl) d) in
          inl (same, kept, λ _. ground arith)
      | inl over ↦
          let (same, w) =
            submitted (expire req t) (rolled_back ttl_expire_rollback) resp s s'
              (subst (λ v. Decided e v resp s s') (rw (own, over) refl) d) in
          inr (
            (==_iff l.ts req.lock_ts).0 own,
            ground arith,
            same,
            sym (
                  ap
                    (λ ws.
                      e.write
                        (((ws ++ (Txn.delete req.primary_key Txn.lock ∷ []))
                            ++ (rollback_record req ∷ []))
                          ++ (Txn.delete (encode_key req.primary_key t.start_ts) Txn.default ∷ []))
                        s)
                    empty
                  ∙ ap
                      (λ ts.
                        e.write
                          (Txn.delete req.primary_key Txn.lock
                            ∷ rollback_record req
                            ∷ Txn.delete (encode_key req.primary_key ts) Txn.default
                            ∷ [])
                          s)
                      start)
                ∙ w,
          )
    ]
  ]

  -- What an answer of `kv_check_txn_status` means for the store.
  abbrev pub Checked : CheckTxnStatusResponse → S → S → Type ℓ
  Checked resp s s' =
      (reader : Reader) × (found : Option Lock) × (e.reader s ≡ ok reader)
      × (get_lock req.primary_key (new_txn reader req.lock_ts) ≡ ok found)
      × Found (new_txn reader req.lock_ts) found resp s s'

  -- Where `kv_check_txn_status` answers, a lock on the primary key that is another transaction's, or
  -- whose time is not over, stays, its ttl is the answer, and the store is as it was; an own lock whose
  -- time is over is rolled back in one batch: the lock, a rollback record, the value. Without a
  -- lock: where `current_write` finds a record at `lock_ts` itself, which is not 0, the answer is a commit
  -- at that time, even if the record is a rollback, and the store is as it was; where it finds none or
  -- fails, or finds one at the time 0, the answer is a rollback and the store takes a rollback record. The
  -- latches are as before.
  pub check_txn_status_lem :
      (l l' : Latches) (s s' : S) (resp : CheckTxnStatusResponse)
      → kv_check_txn_status e req l s ≡ some (ok resp, s', l')
      → Checked resp s s' × ((key : Bytes) → holder key l' ≡ holder key l)
  unfolding kv_check_txn_status
  check_txn_status_lem l l' s s' resp h =
      let ((reader, r, d), latches) = latched-Decided e _ _ _ l l' s s' resp h in
      let t = new_txn reader req.lock_ts in
      let (found, got, d1) =
        bind-Decided e (get_lock req.primary_key t) (status_of req t) resp s s' d in
      ((reader, found, r, got, status_lem t resp s s' found refl refl d1), latches)
