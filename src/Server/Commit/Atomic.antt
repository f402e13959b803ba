-- ===== src/Server/Commit/Atomic.antt =====
-- src/server/transaction_api.rs: what kv_commit writes, and when.
use aegisdb_core.Prelude.{
  ℕ, ◌≡◌, refl, sym, ap, ◌∙◌, ◌⊎◌, inl, inr, arith, List, [], ◌∷◌, ◌++◌, Option, none, some, Result,
  ok, err, panic, ◌>>=◌, ==_refl, append_assoc, append-nil, bind-ok, Option-cases,
}
use aegisdb_core.Prelude.Bytes.{Bytes}
use aegisdb_core.Latches.{Latches}
use aegisdb_core.Latches.Exclusion.{holder}
use aegisdb_core.Mvcc.Codec.{encode_key}
use aegisdb_core.Mvcc.Records
use aegisdb_core.Mvcc.Records.{Lock, write_to_bytes}
use aegisdb_core.Mvcc.Txn
use aegisdb_core.Mvcc.Txn.{
  MvccTxn, Modify, Reader, new_txn, get_lock, current_write, put_write, delete_lock,
}
use aegisdb_core.Mvcc.Txn.Current.{current_write_lem}
use mathlib.Core.List.{Memᴰ}
use aegisdb_core.Server.Types.{Engine, CommitRequest, CommitResponse, KeyError}
use aegisdb_core.Server.Latched.{Verdict, answer, submit, submit-inj, latched_answer}
use aegisdb_core.Server.Commit.{
  kv_commit, check_keys, key_error, unlocked_error, commit_keys, commit_key, commit_checked,
}

-- A key may be committed: it has a lock of the transaction; or it has no lock and `current_write` finds
-- some record of it, of whatever kind, at the commit time, which then is the start time.
abbrev pub Settled : CommitRequest → MvccTxn → Bytes → Option Lock → Type 0
Settled req t key none =
    (w : Records.Write) × (current_write key t ≡ ok (some w, req.commit_version))
    × (req.commit_version ≡ t.start_ts)
Settled req t key (some l) = l.ts ≡ req.start_version

abbrev AllSettled : CommitRequest → MvccTxn → List Bytes → Type 0
AllSettled req t [] = Unit {0}
AllSettled req t (key ∷ keys) =
    ((found : Option Lock) × (get_lock key t ≡ ok found) × Settled req t key found)
    × AllSettled req t keys

-- What the batch holds for a key: the commit record for its lock, and the lock's end.
abbrev pub commit_one : CommitRequest → Bytes → Option Lock → List Modify
commit_one req key none = []
commit_one req key (some l) =
    Txn.put (encode_key key req.commit_version)
      (write_to_bytes (record { start_ts = req.start_version; kind = l.kind })) Txn.write
    ∷ Txn.delete key Txn.lock
    ∷ []

-- Every key may be committed, and the batch is that of the keys in their order.
abbrev pub Plan : CommitRequest → MvccTxn → List Bytes → List Modify → Type 0
Plan req t [] ws = ws ≡ []
Plan req t (key ∷ keys) ws =
    (found : Option Lock) × (rest : List Modify) × (get_lock key t ≡ ok found)
    × Settled req t key found
    × (ws ≡ commit_one req key found ++ rest)
    × Plan req t keys rest

unlocked_error_lem :
    (req : CommitRequest) (found : Result (Option Records.Write × ℕ))
    → unlocked_error req found ≡ ok none
    → (w : Records.Write) × (found ≡ ok (some w, req.commit_version))
unfolding unlocked_error
unlocked_error_lem req (ok (some w, ts)) h = (w, ap (λ c. ok (some w, c)) (ground arith))
unlocked_error_lem req (ok (none, ts)) h = cc
unlocked_error_lem req (err e) h = cc
unlocked_error_lem req panic h = cc

key_error_lem :
    (req : CommitRequest) (t : MvccTxn) (key : Bytes) (found : Option Lock)
    → key_error req t key found ≡ ok none
    → Settled req t key found
unfolding key_error
key_error_lem req t key none h =
    let (w, found) = unlocked_error_lem req (current_write key t) h in
    (w, found, current_write_lem key t w req.commit_version found)
key_error_lem req t key (some l) h = ground arith

key_error-unsettled :
    (req : CommitRequest) (t : MvccTxn) (key : Bytes) (found : Option Lock) (ke : KeyError)
    → key_error req t key found ≡ ok (some ke)
    → ¬ Settled req t key found
unfolding key_error unlocked_error
key_error-unsettled req t key none ke h (w, there, _) =
    let fine : unlocked_error req (current_write key t) ≡ ok none =
      ap (unlocked_error req) there ∙ rw (==_refl req.commit_version) refl in
    cc
key_error-unsettled req t key (some l) ke h own = ground (arith, ==_refl req.start_version)

-- Some key of the request may not be committed.
abbrev pub Refused : CommitRequest → MvccTxn → List Bytes → Type 0
Refused req t keys =
    (key : Bytes) × Memᴰ key keys
    × (found : Option Lock) × (get_lock key t ≡ ok found)
    × (¬ Settled req t key found)

Refused-later :
    (req : CommitRequest) (t : MvccTxn) (key : Bytes) (keys : List Bytes)
    → Refused req t keys
    → Refused req t (key ∷ keys)
Refused-later req t key keys (k, m, found, got, unsettled) = (k, Memᴰ.tail m, found, got, unsettled)

next_key : Result (Option KeyError) → Option KeyError → Result (Option KeyError)
next_key rest bad = elim bad [ some e ↦ ok (some e) | none ↦ rest ]

check_keys-Refused :
    (req : CommitRequest) (t : MvccTxn) (keys : List Bytes) (ke : KeyError)
    → check_keys req t keys ≡ ok (some ke)
    → Refused req t keys
unfolding check_keys next_key
check_keys-Refused req t [] ke h = cc
check_keys-Refused req t (key ∷ keys) ke h =
    let (found, got, h1) = bind-ok (get_lock key t) _ (some ke) h in
    let (bad, checked, h2) = bind-ok (key_error req t key found) _ (some ke) h1 in
    elim (Option-cases bad) [
      | inl fine ↦
          Refused-later req t key keys (
            check_keys-Refused req t keys ke
              (ap (next_key (check_keys req t keys)) (sym fine) ∙ h2))
      | inr (e, found_bad) ↦ (
        key,
        Memᴰ.head refl,
        found,
        got,
        key_error-unsettled req t key found e (checked ∙ ap ok found_bad),
      )
    ]

no_bad_key :
    (bad : Option KeyError) (rest : Result (Option KeyError))
    → (elim bad [ some e ↦ ok (some e) | none ↦ rest ]) ≡ ok none
    → (bad ≡ none) × (rest ≡ ok none)
no_bad_key none rest h = (refl, h)
no_bad_key (some e) rest h = cc

check_keys_lem :
    (req : CommitRequest) (t : MvccTxn) (keys : List Bytes)
    → check_keys req t keys ≡ ok none
    → AllSettled req t keys
unfolding check_keys
check_keys_lem req t [] h = tt
check_keys_lem req t (key ∷ keys) h =
    let (found, got, h1) = bind-ok (get_lock key t) _ none h in
    let (bad, checked, h2) = bind-ok (key_error req t key found) _ none h1 in
    let (fine, h3) = no_bad_key bad (check_keys req t keys) h2 in
    (
      (found, got, key_error_lem req t key found (checked ∙ ap ok fine)),
      check_keys_lem req t keys h3,
    )

abbrev with_writes : MvccTxn → List Modify → MvccTxn
with_writes t ws = record t { writes = t.writes ++ ws }

commit_key_lem :
    (req : CommitRequest) (t u : MvccTxn) (key : Bytes) (found : Option Lock)
    → Settled req t key found
    → commit_key req key found u ≡ with_writes u (commit_one req key found)
unfolding commit_key put_write delete_lock
commit_key_lem req t u key none s = rw append-nil refl
commit_key_lem req t u key (some l) s = rw (s, ==_refl, append_assoc) refl

commit_keys_lem :
    (req : CommitRequest) (t u t' : MvccTxn) (keys : List Bytes) (ws : List Modify)
    → u ≡ with_writes t ws
    → AllSettled req t keys
    → commit_keys req keys u ≡ ok t'
    → (more : List Modify) × (t' ≡ with_writes t (ws ++ more)) × Plan req t keys more
unfolding commit_keys get_lock
commit_keys_lem req t u t' [] ws e s h =
    let same : t' ≡ u = cc h in ([], same ∙ e ∙ rw append-nil refl, refl)
commit_keys_lem req t u t' (key ∷ keys) ws e ((found, got, own), s) h =
    let (found1, got1, h1) = bind-ok (get_lock key u) _ t' h in
    let both = sym got1 ∙ ap (get_lock key) e ∙ got in
    let same : found1 ≡ found = cc both in
    let (more, e1, plan) =
      commit_keys_lem req t (commit_key req key found1 u) t' keys (ws ++ commit_one req key found)
        (ap (λ f. commit_key req key f u) same
          ∙ commit_key_lem req t u key found own
          ∙ ap (λ v. with_writes v (commit_one req key found)) e
          ∙ rw append_assoc refl)
        s h1 in
    (
      commit_one req key found ++ more,
      e1 ∙ rw append_assoc refl,
      (found, more, got, own, refl, plan),
    )

verdict_lem :
    (req : CommitRequest) (t0 : MvccTxn) (v : Verdict CommitResponse)
    → check_keys req t0 req.keys >>= (λ bad. commit_checked req t0 bad) ≡ ok v
    → ((t : MvccTxn) × (ws : List Modify) × (v ≡ submit t (record { error = none }))
        × (t ≡ with_writes t0 ws)
        × Plan req t0 req.keys ws)
      ⊎ ((ke : KeyError) × (v ≡ answer (record { error = some ke })) × Refused req t0 req.keys)
unfolding commit_checked
verdict_lem req t0 v h =
    let (bad, checked, h1) = bind-ok (check_keys req t0 req.keys) (commit_checked req t0) v h in
    elim (Option-cases bad) [
      | inr (ke, e) ↦
          let h2 : commit_checked req t0 (some ke) ≡ ok v =
            ap (commit_checked req t0) (sym e) ∙ h1 in
          inr (ke, cc h2, check_keys-Refused req t0 req.keys ke (checked ∙ ap ok e))
      | inl e ↦
          let h2 : commit_checked req t0 none ≡ ok v = ap (commit_checked req t0) (sym e) ∙ h1 in
          let (t, done, h3) = bind-ok (commit_keys req req.keys t0) _ v h2 in
          let (ws, w, plan) =
            commit_keys_lem req t0 t0 t req.keys [] (rw append-nil refl)
              (check_keys_lem req t0 req.keys (checked ∙ ap ok e)) done in
          inl (t, ws, cc h3, w, plan)
    ]

-- What an answer of `kv_commit` means for the store.
abbrev pub Committed {ℓ} : {S : Type ℓ} → Engine S → CommitRequest → CommitResponse → S → S → Type ℓ
Committed e req resp s s' =
    ((reader : Reader) × (ke : KeyError) × (resp.error ≡ some ke)
      × (e.reader s ≡ ok reader)
      × Refused req (new_txn reader req.start_version) req.keys
      × (s' ≡ s))
    ⊎ ((reader : Reader) × (ws : List Modify) × (resp.error ≡ none)
        × (e.reader s ≡ ok reader)
        × Plan req (new_txn reader req.start_version) req.keys ws
        × (e.write ws s ≡ (ok tt, s')))

-- A key is settled where it has a lock of the transaction, or no lock and some record, of whatever kind,
-- that `current_write` finds at the commit time, which then is the start time. If `kv_commit` answers with
-- an error, some key of the request is not settled and the store is as it was; if it answers without,
-- every key is settled, and the store has taken, as one batch, a commit record and the end of the lock for
-- every key with a lock, in order. In both cases the latches are as before.
pub commit_all_or_nothing {ℓ} :
    {S : Type ℓ} (e : Engine S) (req : CommitRequest) (l l' : Latches) (s s' : S)
    (resp : CommitResponse)
    → kv_commit e req l s ≡ some (ok resp, s', l')
    → Committed e req resp s s' × ((key : Bytes) → holder key l' ≡ holder key l)
unfolding kv_commit
commit_all_or_nothing e req l l' s s' resp h =
    let (d, latches) = latched_answer e _ _ _ l l' s s' resp h in
    (
      elim d [
        | inl (v, same) ↦
            let (reader, r, h1) = bind-ok (e.reader s) _ (answer resp) v in
            elim (verdict_lem req (new_txn reader req.start_version) (answer resp) h1) [
              | inl (t, ws, c, w, plan) ↦ cc c
              | inr (ke, c, refused) ↦ inl (reader, ke, cc c, r, refused, same)
            ]
        | inr (t, v, w) ↦
            let (reader, r, h1) = bind-ok (e.reader s) _ (submit t resp) v in
            elim (verdict_lem req (new_txn reader req.start_version) (submit t resp) h1) [
              | inl (t1, ws, c, u, plan) ↦ inr (
                reader,
                ws,
                cc c,
                r,
                plan,
                ap (λ (x : MvccTxn). e.write x.writes s) (sym u ∙ sym (submit-inj t t1 _ _ c)) ∙ w,
              )
              | inr (ke, c, refused) ↦ cc c
            ]
      ],
      latches,
    )
