-- ===== src/Server/Latched.antt =====
-- src/server/transaction_api.rs: what the handlers share. A handler waits for the latches of its keys,
-- reads, and then answers or writes. Where `?` leaves it early, the latches stay held.
use aegisdb_core.Prelude.{
  ℕ, ◌≡◌, ap, ◌∙◌, ◌⊎◌, inl, inr, arith, List, Option, none, some, Result, ok, err, panic, ◌>>=◌,
  Option-cases, bind-ok,
}
use aegisdb_core.Prelude.Bytes.{Bytes}
use aegisdb_core.Latches.{Latches, wait_for_latches, release_latches}
use aegisdb_core.Latches.Exclusion.{holder, release_after_wait}
use aegisdb_core.Mvcc.Txn.{MvccTxn, Reader, new_txn}
use aegisdb_core.Server.Types.{Engine}

-- What a handler has decided after its reads: an answer at once, or an answer after its writes.
pub data Verdict {ℓ} (A : Type ℓ) : Type ℓ where
  answer : A → Verdict A
  submit : MvccTxn → A → Verdict A

pub submit-inj {ℓ} : {A : Type ℓ} (t u : MvccTxn) (a b : A) → submit t a ≡ submit u b → t ≡ u
submit-inj t u a b h = cc h

-- The result, the store and the latches after a handler, or none where it waits.
abbrev pub Handled {ℓ κ} : Type ℓ → Type κ → Type (ℓ ⊔ κ)
Handled A S = Option (Result A × S × Latches)

module _ {ℓ κ} {A : Type ℓ} {S : Type κ} where
  settle : List Bytes → Latches → A → Result (Unit {0}) × S → Result A × S × Latches
  settle keys l a (ok _, s) = (ok a, s, (release_latches keys l).1)
  settle keys l a (err e, s) = (err e, s, l)
  settle keys l a (panic, s) = (panic, s, l)

  finish : Engine S → List Bytes → Latches → S → Result (Verdict A) → Result A × S × Latches
  unfolding settle
  finish e keys l s (ok (answer a)) = (ok a, s, (release_latches keys l).1)
  finish e keys l s (ok (submit t a)) = settle keys l a (e.write t.writes s)
  finish e keys l s (err m) = (err m, s, l)
  finish e keys l s panic = (panic, s, l)

  unfoldable pub latched :
      Engine S → List Bytes → ℕ → (MvccTxn → Result (Verdict A)) → Latches → S → Handled A S
  unfolding finish
  latched e keys start body l s = elim (wait_for_latches keys l) [
    | none ↦ none
    | some held ↦ some (finish e keys held s (e.reader s >>= λ reader. body (new_txn reader start)))
  ]

  settle_answer :
      (keys : List Bytes) (l l' : Latches) (a a' : A) (w : Result (Unit {0}) × S) (s' : S)
      → settle keys l a w ≡ (ok a', s', l')
      → (a ≡ a') × (w ≡ (ok tt, s')) × (l' ≡ (release_latches keys l).1)
  unfolding settle
  settle_answer keys l l' a a' (ok _, s) s' h = grind arith
  settle_answer keys l l' a a' (err e, s) s' h = cc
  settle_answer keys l l' a a' (panic, s) s' h = cc

  -- What was decided, where a handler answers: to write nothing, or a batch that the store took.
  abbrev pub Decided : Engine S → Result (Verdict A) → A → S → S → Type (ℓ ⊔ κ)
  Decided e v a s s' =
      ((v ≡ ok (answer a)) × (s' ≡ s))
      ⊎ ((t : MvccTxn) × (v ≡ ok (submit t a)) × (e.write t.writes s ≡ (ok tt, s')))

  -- A read before the decision has succeeded.
  pub bind-Decided {ι} :
      {B : Type ι} (e : Engine S) (r : Result B) (f : B → Result (Verdict A)) (a : A) (s s' : S)
      → Decided e (r >>= f) a s s'
      → (b : B) × (r ≡ ok b) × Decided e (f b) a s s'
  bind-Decided e r f a s s' (inl (v, same)) =
      let (b, got, v1) = bind-ok r f (answer a) v in (b, got, inl (v1, same))
  bind-Decided e r f a s s' (inr (t, v, w)) =
      let (b, got, v1) = bind-ok r f (submit t a) v in (b, got, inr (t, v1, w))

  finish_answer :
      (e : Engine S) (keys : List Bytes) (l l' : Latches) (s s' : S) (v : Result (Verdict A))
      (a : A)
      → finish e keys l s v ≡ (ok a, s', l')
      → Decided e v a s s' × (l' ≡ (release_latches keys l).1)
  unfolding finish
  finish_answer e keys l l' s s' (ok (answer b)) a h = grind arith
  finish_answer e keys l l' s s' (ok (submit t b)) a h =
      let (same, w, rel) = settle_answer keys l l' b a (e.write t.writes s) s' h in
      (inr (t, ap (λ (x : A). ok (submit t x)) same, w), rel)
  finish_answer e keys l l' s s' (err m) a h = cc
  finish_answer e keys l l' s s' panic a h = cc

  pub latched_answer :
      (e : Engine S) (keys : List Bytes) (start : ℕ) (body : MvccTxn → Result (Verdict A))
      (l l' : Latches) (s s' : S) (a : A)
      → latched e keys start body l s ≡ some (ok a, s', l')
      → Decided e (e.reader s >>= λ reader. body (new_txn reader start)) a s s'
        × ((key : Bytes) → holder key l' ≡ holder key l)
  unfolding latched
  latched_answer e keys start body l l' s s' a h = elim (Option-cases (wait_for_latches keys l)) [
    | inl none_free ↦ cc (h, none_free)
    | inr (held, got) ↦
        let (d, rel) =
          finish_answer e keys held l' s s' (e.reader s >>= λ reader. body (new_txn reader start)) a
            (cc (h, got)) in
        (d, λ key. ap (holder key) rel ∙ release_after_wait key keys l held got)
  ]

  -- The same, with the reader that the handler was given.
  pub latched-Decided :
      (e : Engine S) (keys : List Bytes) (start : ℕ) (body : MvccTxn → Result (Verdict A))
      (l l' : Latches) (s s' : S) (a : A)
      → latched e keys start body l s ≡ some (ok a, s', l')
      → ((reader : Reader) × (e.reader s ≡ ok reader)
          × Decided e (body (new_txn reader start)) a s s')
        × ((key : Bytes) → holder key l' ≡ holder key l)
  latched-Decided e keys start body l l' s s' a h =
      let (d, rel) = latched_answer e keys start body l l' s s' a h in
      (bind-Decided e (e.reader s) (λ reader. body (new_txn reader start)) a s s' d, rel)
