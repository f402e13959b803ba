-- ===== src/Server/Resolve/Batch.antt =====
-- src/server/transaction_api.rs: what kv_resolve_lock writes.
use aegisdb_core.Prelude.{
  ℕ, ◌≡◌, refl, sym, ap, ◌∙◌, ◌⊎◌, inl, inr, arith, List, [], ◌∷◌, ◌++◌, Option, none, some, Result,
  ok, err, panic, ◌>>=◌, ltb, ◌==◌, append_assoc, append-nil, bind-ok, Bool-cases, All,
  if◌then◌else◌, subst,
}
use mathlib.Core.List.{Memᴰ}
use aegisdb_core.Prelude.Bytes.{Bytes}
use aegisdb_core.Latches.{Latches}
use aegisdb_core.Latches.Exclusion.{holder}
use aegisdb_core.Mvcc.Records.{Lock, parse_lock}
use aegisdb_core.Mvcc.Txn
use aegisdb_core.Mvcc.Txn.{
  MvccTxn, Modify, Reader, Item, new_txn, get_lock, put_write, delete_lock, delete_value,
}
use aegisdb_core.Server.Types.{Engine, ResolveLockRequest, ResolveLockResponse}
use aegisdb_core.Server.Latched.{Verdict, submit, latched-Decided, Decided, bind-Decided}
use aegisdb_core.Server.Commit.{commit_key}
use aegisdb_core.Server.Commit.Atomic.{commit_one}
use aegisdb_core.Server.Rollback.Atomic.{rollback_one, put_rollback_lem, with_writes}
use aegisdb_core.Server.Resolve.{
  kv_resolve_lock, resolve_found, resolve_keys, resolve_key, rollback_key, owned_keys, with_owned,
  commit_of,
}

-- The list has the keys of all items that hold a lock of the transaction.
abbrev pub AllOwned : ℕ → List Item → List Bytes → Type 0
AllOwned start items keys =
    All
      (λ (item : Item).
        (l : Lock) (value : Bytes)
        → item.value ≡ ok value
        → parse_lock value ≡ ok l
        → l.ts ≡ start
        → Memᴰ item.key keys)
      items

with_owned_lem :
    (start : ℕ) (key : Bytes) (l : Result Lock) (keys keys' : List Bytes)
    → with_owned start key l keys ≡ ok keys'
    → ((k : Bytes) → Memᴰ k keys → Memᴰ k keys')
      × ((l1 : Lock) → l ≡ ok l1 → l1.ts ≡ start → Memᴰ key keys')
unfolding with_owned
with_owned_lem start key (ok l) keys keys' h = elim (Bool-cases (l.ts == start)) [
  | inl own ↦
      let same : key ∷ keys ≡ keys' = ground arith in
      (λ k a. subst (Memᴰ k) same (Memᴰ.tail a), λ l1 _ _. subst (Memᴰ key) same (Memᴰ.head refl))
  | inr other ↦
      let same : keys ≡ keys' = ground arith in
      (λ k a. subst (Memᴰ k) same a, λ l1 e own. ground arith)
]
with_owned_lem start key (err e) keys keys' h =
    let same : keys ≡ keys' = cc h in (λ k a. subst (Memᴰ k) same a, λ l1 e own. cc e)
with_owned_lem start key panic keys keys' h = cc h

more_owned :
    (start : ℕ) (items : List Item) (keys keys' : List Bytes)
    → ((k : Bytes) → Memᴰ k keys → Memᴰ k keys')
    → AllOwned start items keys
    → AllOwned start items keys'
more_owned start [] keys keys' f a = tt
more_owned start (item ∷ items) keys keys' f (o, a) =
    (λ l v e p own. f item.key (o l v e p own), more_owned start items keys keys' f a)

owned_keys_lem :
    (start : ℕ) (items : List Item) (keys : List Bytes)
    → owned_keys start items ≡ ok keys
    → AllOwned start items keys
unfolding owned_keys
owned_keys_lem start [] keys h = tt
owned_keys_lem start (item ∷ items) keys h =
    let (v, got, h1) = bind-ok item.value _ keys h in
    let (rest, more, h2) = bind-ok (owned_keys start items) _ keys h1 in
    let (keep, own) = with_owned_lem start item.key (parse_lock v) rest keys h2 in
    (
      λ l v1 e p o. own l (cc (got, e, p)) o,
      more_owned start items rest keys keep (owned_keys_lem start items rest more),
    )

-- What the batch holds for a key whose lock is still the transaction's.
abbrev pub resolve_one : ResolveLockRequest → Bytes → Option Lock → List Modify
resolve_one req key none = []
resolve_one req key (some l) =
    if l.ts == req.start_version
    then (if ltb 0 req.commit_version
        then commit_one (commit_of req []) key (some l)
        else Txn.delete key Txn.lock ∷ rollback_one req.start_version key)
    else []

abbrev pub Plan : ResolveLockRequest → MvccTxn → List Bytes → List Modify → Type 0
Plan req t [] ws = ws ≡ []
Plan req t (key ∷ keys) ws =
    (found : Option Lock) × (rest : List Modify) × (get_lock key t ≡ ok found)
    × (ws ≡ resolve_one req key found ++ rest)
    × Plan req t keys rest

resolve_key_lem :
    (req : ResolveLockRequest) (key : Bytes) (t : MvccTxn) (found : Option Lock)
    → t.start_ts ≡ req.start_version
    → resolve_key req key found t ≡ with_writes t (resolve_one req key found)
unfolding resolve_key rollback_key commit_key put_write delete_lock
resolve_key_lem req key t none s = elim (Bool-cases (ltb 0 req.commit_version)) [
  | inl commits ↦ rw (commits, append-nil) refl
  | inr rolls ↦ rw (rolls, append-nil) refl
]
resolve_key_lem req key t (some l) s = elim (Bool-cases (ltb 0 req.commit_version)) [
  | inl commits ↦ elim (Bool-cases (l.ts == req.start_version)) [
    | inl own ↦ rw (commits, own, append_assoc) refl
    | inr other ↦ rw (commits, other, append-nil) refl
  ]
  | inr rolls ↦ elim (Bool-cases (l.ts == req.start_version)) [
    | inl own ↦
        rw (rolls, own)
          (put_rollback_lem req.start_version key (delete_lock key t) s
            ∙ ap (λ x. record t { writes = x })
                (append_assoc t.writes (Txn.delete key Txn.lock ∷ [])
                  (rollback_one req.start_version key)))
    | inr other ↦ rw (rolls, other, append-nil) refl
  ]
]

resolve_keys_lem :
    (req : ResolveLockRequest) (keys : List Bytes) (t u t' : MvccTxn) (ws : List Modify)
    → t.start_ts ≡ req.start_version
    → u ≡ with_writes t ws
    → resolve_keys req keys u ≡ ok t'
    → (more : List Modify) × (t' ≡ with_writes t (ws ++ more)) × Plan req t keys more
unfolding resolve_keys get_lock
resolve_keys_lem req [] t u t' ws s e h =
    let same : t' ≡ u = cc h in ([], same ∙ e ∙ rw append-nil refl, refl)
resolve_keys_lem req (key ∷ keys) t u t' ws s e h =
    let (found, got, h1) = bind-ok (get_lock key u) _ t' h in
    let this = resolve_one req key found in
    let (more, e1, plan) =
      resolve_keys_lem req keys t (resolve_key req key found u) t' (ws ++ this) s
        (resolve_key_lem req key u found (ap (λ (x : MvccTxn). x.start_ts) e ∙ s)
          ∙ ap (λ x. with_writes x this) e
          ∙ ap (λ x. record t { writes = x }) (append_assoc t.writes ws this))
        h1 in
    (
      this ++ more,
      e1 ∙ ap (with_writes t) (append_assoc ws this more),
      (found, more, sym (ap (get_lock key) e) ∙ got, refl, plan),
    )

no_error :
    (t u : MvccTxn) (resp : ResolveLockResponse)
    → ◌≡◌ {A = Result (Verdict ResolveLockResponse)}
        (ok (submit t (record { error = none })))
        (ok (submit u resp))
    → resp.error ≡ none
no_error t u resp h = cc h

same_txn :
    (t u : MvccTxn) (resp : ResolveLockResponse)
    → ◌≡◌ {A = Result (Verdict ResolveLockResponse)}
        (ok (submit t (record { error = none })))
        (ok (submit u resp))
    → t ≡ u
same_txn t u resp h = cc h

module _ {ℓ} {S : Type ℓ} (e : Engine S) (req : ResolveLockRequest) where
  -- What an answer of `kv_resolve_lock` means for the store.
  abbrev pub Resolved : S → S → Type ℓ
  Resolved s s' =
      (reader : Reader) × (keys : List Bytes) × (e.reader s ≡ ok reader)
      × AllOwned req.start_version (reader.seek Txn.lock []) keys
      × (((keys ≡ []) × (s' ≡ s))
          ⊎ ((ws : List Modify) × Plan req (new_txn reader req.start_version) keys ws
              × (e.write ws s ≡ (ok tt, s'))))

  written :
      (t1 : MvccTxn) (resp : ResolveLockResponse) {s s' : S}
      → Decided e (ok (submit t1 (record { error = none }))) resp s s'
      → (resp.error ≡ none) × (e.write t1.writes s ≡ (ok tt, s'))
  written t1 resp (inl (v, same)) = cc v
  written t1 resp {s} (inr (u, v, w)) =
      (no_error t1 u resp v, ap (λ (x : MvccTxn). e.write x.writes s) (same_txn t1 u resp v) ∙ w)

  submitted :
      (r : Result MvccTxn) (resp : ResolveLockResponse) (s s' : S)
      → Decided e (r >>= λ t1. ok (submit t1 (record { error = none }))) resp s s'
      → (t1 : MvccTxn) × (r ≡ ok t1) × (resp.error ≡ none) × (e.write t1.writes s ≡ (ok tt, s'))
  submitted r resp s s' d =
      let (t1, got, d1) =
        bind-Decided e r (λ t1. ok (submit t1 (record { error = none }))) resp s s' d in
      let (fine, w) = written t1 resp d1 in (t1, got, fine, w)

  reached :
      (keys : Result (List Bytes)) (l l' : Latches) (s s' : S) (resp : ResolveLockResponse)
      → resolve_found e req keys l s ≡ some (ok resp, s', l')
      → (ks : List Bytes) × (keys ≡ ok ks)
  unfolding resolve_found
  reached (ok ks) l l' s s' resp h = (ks, refl)
  reached (err m) l l' s s' resp h = cc h
  reached panic l l' s s' resp h = cc h

  found_lem :
      (reader : Reader) (keys : List Bytes) (l l' : Latches) (s s' : S) (resp : ResolveLockResponse)
      → e.reader s ≡ ok reader
      → AllOwned req.start_version (reader.seek Txn.lock []) keys
      → resolve_found e req (ok keys) l s ≡ some (ok resp, s', l')
      → (resp.error ≡ none) × Resolved s s' × ((key : Bytes) → holder key l' ≡ holder key l)
  unfolding resolve_found
  found_lem reader [] l l' s s' resp r all h =
      let same : s' ≡ s = cc h in
      let kept : l' ≡ l = cc h in
      (cc h, (reader, [], r, all, inl (refl, same)), λ key. ap (holder key) kept)
  found_lem reader (key ∷ keys) l l' s s' resp r all h =
      let ((reader1, r1, d), latches) = latched-Decided e _ _ _ l l' s s' resp h in
      let t0 = new_txn reader1 req.start_version in
      let (t1, got, fine, w) = submitted (resolve_keys req (key ∷ keys) t0) resp s s' d in
      let (ws, e1, plan) =
        resolve_keys_lem req (key ∷ keys) t0 t0 t1 [] refl (rw append-nil refl) got in
      let one : reader1 ≡ reader = cc (r, r1) in
      (
        fine,
        (
          reader,
          key ∷ keys,
          r,
          all,
          inr (
            ws,
            subst (λ rd. Plan req (new_txn rd req.start_version) (key ∷ keys) ws) one plan,
            sym (ap (λ (x : MvccTxn). e.write x.writes s) e1) ∙ w,
          ),
        ),
        latches,
      )

  -- An answer of `kv_resolve_lock` is no error. There is a list with the keys of all the locks of the
  -- transaction that parse; it is empty and the store is as it was, or the store has taken, as one
  -- batch, for every key of it in order whose lock is still the transaction's, the commit record and the
  -- end of the lock, where the request commits, and otherwise the end of the lock, the rollback record
  -- and the end of the value. The latches are as before.
  pub resolve_lock_lem :
      (l l' : Latches) (s s' : S) (resp : ResolveLockResponse)
      → kv_resolve_lock e req l s ≡ some (ok resp, s', l')
      → (resp.error ≡ none) × Resolved s s' × ((key : Bytes) → holder key l' ≡ holder key l)
  unfolding kv_resolve_lock
  resolve_lock_lem l l' s s' resp h =
      let (keys, sought) =
        reached (e.reader s >>= λ reader. owned_keys req.start_version (reader.seek Txn.lock [])) l
          l' s s' resp h in
      let (reader, r, own) = bind-ok (e.reader s) _ keys sought in
      found_lem reader keys l l' s s' resp r
        (owned_keys_lem req.start_version (reader.seek Txn.lock []) keys own)
        (ap (λ x. resolve_found e req x l s) (sym sought) ∙ h)
