-- ===== src/Engine/Standalone/Reads.antt =====
-- src/storage/standalone_storage.rs and reader.rs: when a read gives what the database holds.
use aegisdb_core.Prelude.{
  ◌≡◌, ◌≢◌, ◌⊎◌, refl, sym, ap, subst, inl, inr, ◌∙◌, false, List, [], ◌∷◌, ◌++◌, Option, none,
  some, Result, ok, err, panic, Bool-cases, All,
}
use aegisdb_core.Prelude.Bytes.{Bytes, bytes_beq, bytes_beq_iff}
use aegisdb_core.Engine.{Db, key_with_cf, applied, applied_one}
use aegisdb_core.Engine.Keys.{IsFamily, key_with_cf-inj, colon-inj}
use aegisdb_core.Engine.Standalone.{
  Cache, Standalone, cache_key, entry_of, entries_of, update_cache, after_write, write_batch,
  fill_cache, look_up, read_cf,
}
use aegisdb_core.Mvcc.Txn
use aegisdb_core.Mvcc.Txn.{Cf, Modify}

-- The key that a modification is of.
abbrev pub key_of : Modify → Bytes
key_of (Txn.put key value cf) = key
key_of (Txn.delete key cf) = key

abbrev pub family_of : Modify → Cf
family_of (Txn.put key value cf) = cf
family_of (Txn.delete key cf) = cf

bytes_cases : (a b : Bytes) → (a ≡ b) ⊎ (a ≢ b)
bytes_cases a b = elim (Bool-cases (bytes_beq a b)) [
  | inl same ↦ inl ((bytes_beq_iff a b).0 same)
  | inr other ↦ inr (λ e. (let yes_it = (bytes_beq_iff a b).1 e in cc))
]

result_eq {ℓ} :
    {S : Type ℓ} (a b : Option Bytes) (s s' : S)
    → ◌≡◌ {A = Result (Option Bytes) × S} (ok a, s) (ok b, s')
    → a ≡ b
result_eq a b s s' e = cc

state_eq {ℓ κ} :
    {R : Type κ} {S : Type ℓ} (a b : R) (s s' : S) → ◌≡◌ {A = R × S} (a, s) (b, s') → s ≡ s'
state_eq a b s s' e = cc

module _ (db : Db) (cache : Cache) (from_utf8_lossy : Bytes → Bytes) (IsText : Bytes → Type 0) where
  -- What the cache holds for a text is what the database holds.
  abbrev IsCoherentWith : (Bytes → Option Bytes) → cache.State → Type 0
  IsCoherentWith view c =
      (cf : Cf) (key v : Bytes)
      → IsFamily cf
      → IsText key
      → cache.peek c (cache_key db cache from_utf8_lossy cf key) ≡ some v
      → view (key_with_cf cf key) ≡ some v

  abbrev pub IsCoherent : Standalone db cache from_utf8_lossy → Type 0
  IsCoherent s = IsCoherentWith (db.view s.stored) s.cached

  module _ (plain : (key : Bytes) → IsText key → from_utf8_lossy key ≡ key) where
    abbrev text_of : Cf → Bytes → Bytes
    text_of = cache_key db cache from_utf8_lossy

    same_entry :
        (cf other : Cf) (key key' : Bytes)
        → IsFamily cf
        → IsFamily other
        → IsText key
        → IsText key'
        → text_of cf key ≡ text_of other key'
        → key_with_cf cf key ≡ key_with_cf other key'
    same_entry cf other key key' f g t t' e =
        let (c, k) = colon-inj cf other (from_utf8_lossy key) (from_utf8_lossy key') f g e in
        let keys : key ≡ key' = sym (plain key t) ∙ k ∙ plain key' t' in
        λ i. key_with_cf (c i) (keys i)

    other_entry :
        (cf other : Cf) (key key' : Bytes)
        → IsFamily cf
        → IsFamily other
        → text_of cf key ≢ text_of other key'
        → bytes_beq (key_with_cf cf key) (key_with_cf other key') ≡ false
    other_entry cf other key key' f g ne =
        elim (Bool-cases (bytes_beq (key_with_cf cf key) (key_with_cf other key'))) [
          | inr no_it ↦ no_it
          | inl yes_it ↦ absurd (
              let e = (bytes_beq_iff _ _).0 yes_it in
              let (c, k) = key_with_cf-inj cf other key key' f g e in ne (λ i. text_of (c i) (k i)))
        ]

    put-IsCoherent :
        (view : Bytes → Option Bytes) (c : cache.State) (cf : Cf) (key value : Bytes)
        → IsFamily cf
        → IsText key
        → IsCoherentWith view c
        → IsCoherentWith
            (λ k. applied_one (entry_of db cache from_utf8_lossy (Txn.put key value cf)) k (view k))
            (cache.put (text_of cf key) value c)
    put-IsCoherent view c cf key value f t h cf' key' v g t' e =
        elim (bytes_cases (text_of cf key) (text_of cf' key')) [
          | inl same ↦
              let here = (bytes_beq_iff _ _).1 (same_entry cf cf' key key' f g t t' same) in
              let own = cache.peek-put_own c (text_of cf key) value in
              let got =
                subst (λ k. cache.peek (cache.put (text_of cf key) value c) k ≡ some value) same
                  own in
              rw here (sym got ∙ e)
          | inr other ↦ rw (other_entry cf cf' key key' f g other) (
              h cf' key' v g t'
                (cache.peek-put_other c (text_of cf key) value (text_of cf' key') v other e))
        ]

    delete-IsCoherent :
        (view : Bytes → Option Bytes) (c : cache.State) (cf : Cf) (key : Bytes)
        → IsFamily cf
        → IsCoherentWith view c
        → IsCoherentWith
            (λ k. applied_one (entry_of db cache from_utf8_lossy (Txn.delete key cf)) k (view k))
            (cache.pop (text_of cf key) c)
    delete-IsCoherent view c cf key f h cf' key' v g t' e =
        let (other, before) = cache.peek-pop c (text_of cf key) (text_of cf' key') v e in
        rw (other_entry cf cf' key key' f g other) (h cf' key' v g t' before)

    update_cache-IsCoherent :
        (ms : List Modify) (view : Bytes → Option Bytes) (c : cache.State)
        → All (λ m. IsFamily (family_of m) × IsText (key_of m)) ms
        → IsCoherentWith view c
        → IsCoherentWith
            (λ k. applied (entries_of db cache from_utf8_lossy ms) k (view k))
            (update_cache db cache from_utf8_lossy ms c)
    unfolding update_cache applied
    update_cache-IsCoherent [] view c t h = h
    update_cache-IsCoherent (Txn.put key value cf ∷ ms) view c ((f, t), ts) h =
        update_cache-IsCoherent ms
          (λ k. applied_one (entry_of db cache from_utf8_lossy (Txn.put key value cf)) k (view k))
          (cache.put (text_of cf key) value c) ts (put-IsCoherent view c cf key value f t h)
    update_cache-IsCoherent (Txn.delete key cf ∷ ms) view c ((f, t), ts) h =
        update_cache-IsCoherent ms
          (λ k. applied_one (entry_of db cache from_utf8_lossy (Txn.delete key cf)) k (view k))
          (cache.pop (text_of cf key) c) ts (delete-IsCoherent view c cf key f h)

    write-IsCoherent_as :
        (ms : List Modify) (s s' : Standalone db cache from_utf8_lossy)
        (o : Result (Unit {0}) × db.State)
        → db.write s.stored (entries_of db cache from_utf8_lossy ms) ≡ o
        → All (λ m. IsFamily (family_of m) × IsText (key_of m)) ms
        → IsCoherent s
        → after_write db cache from_utf8_lossy ms s o ≡ (ok tt, s')
        → IsCoherent s'
    write-IsCoherent_as ms s s' (ok u, d) w t h e =
        let now : record { stored = d; cached = update_cache db cache from_utf8_lossy ms s.cached }
            ≡ s' =
          ap (λ (p : Result (Unit {0}) × Standalone db cache from_utf8_lossy). p.1) e in
        subst IsCoherent now (λ cf key v fk tk found.
          db.write_lem s.stored d (entries_of db cache from_utf8_lossy ms) w (key_with_cf cf key)
          ∙ update_cache-IsCoherent ms (db.view s.stored) s.cached t h cf key v fk tk found)
    write-IsCoherent_as ms s s' (err x, d) w t h e = cc
    write-IsCoherent_as ms s s' (panic, d) w t h e = cc

    filled-IsCoherent :
        (cf : Cf) (key v : Bytes) (s : Standalone db cache from_utf8_lossy)
        → IsFamily cf
        → IsText key
        → IsCoherent s
        → db.view s.stored (key_with_cf cf key) ≡ some v
        → IsCoherentWith (db.view s.stored) (cache.put (text_of cf key) v s.cached)
    filled-IsCoherent cf key v s f t h there cf' key' w g t' found =
        elim (bytes_cases (text_of cf key) (text_of cf' key')) [
          | inl same ↦
              let here = same_entry cf cf' key key' f g t t' same in
              let own = cache.peek-put_own s.cached (text_of cf key) v in
              let got =
                subst (λ k. cache.peek (cache.put (text_of cf key) v s.cached) k ≡ some v) same
                  own in
              ap (db.view s.stored) (sym here) ∙ there ∙ sym got ∙ found
          | inr other ↦
              h cf' key' w g t'
                (cache.peek-put_other s.cached (text_of cf key) v (text_of cf' key') w other found)
        ]

    fill_as :
        (cf : Cf) (key : Bytes) (s s' : Standalone db cache from_utf8_lossy) (v : Option Bytes)
        (r : Result (Option Bytes))
        → db.get s.stored (key_with_cf cf key) ≡ r
        → IsFamily cf
        → IsText key
        → IsCoherent s
        → fill_cache db cache from_utf8_lossy (text_of cf key) s r ≡ (ok v, s')
        → (v ≡ db.view s.stored (key_with_cf cf key)) × IsCoherent s'
    fill_as cf key s s' v (ok none) got f t h e =
        let seen = db.get_lem s.stored (key_with_cf cf key) none got in
        (
          sym (result_eq none v s s' e) ∙ seen,
          subst IsCoherent (state_eq (ok none) (ok v) s s' e) h,
        )
    fill_as cf key s s' v (ok (some w)) got f t h e =
        let seen = db.get_lem s.stored (key_with_cf cf key) (some w) got in
        let filled = record s { cached = cache.put (text_of cf key) w s.cached } in
        (
          sym (result_eq (some w) v filled s' e) ∙ seen,
          subst IsCoherent (state_eq (ok (some w)) (ok v) filled s' e)
              (filled-IsCoherent cf key w s f t h (sym seen)),
        )
    fill_as cf key s s' v (err x) got f t h e = cc
    fill_as cf key s s' v panic got f t h e = cc

    read_as :
        (cf : Cf) (key : Bytes) (s s' : Standalone db cache from_utf8_lossy) (v o : Option Bytes)
        → cache.peek s.cached (text_of cf key) ≡ o
        → IsFamily cf
        → IsText key
        → IsCoherent s
        → look_up db cache from_utf8_lossy cf key s o ≡ (ok v, s')
        → (v ≡ db.view s.stored (key_with_cf cf key)) × IsCoherent s'
    read_as cf key s s' v (some w) found f t h e = (
      sym (result_eq (some w) v s s' e) ∙ sym (h cf key w f t found),
      subst IsCoherent (state_eq (ok (some w)) (ok v) s s' e) h,
    )
    read_as cf key s s' v none found f t h e =
        fill_as cf key s s' v (db.get s.stored (key_with_cf cf key)) refl f t h e

module _ (db : Db) (cache : Cache) (lossy : Bytes → Bytes) (IsText : Bytes → Type 0)
    (plain : (key : Bytes) → IsText key → lossy key ≡ key) (s s' : Standalone db cache lossy)
    (h : IsCoherent db cache lossy IsText s) where
  -- A batch on texts that is written leaves cache and database agreeing.
  pub write_batch-IsCoherent :
      (batch : List Modify)
      → All (λ m. IsFamily (family_of m) × IsText (key_of m)) batch
      → write_batch db cache lossy batch s ≡ (ok tt, s')
      → IsCoherent db cache lossy IsText s'
  unfolding write_batch
  write_batch-IsCoherent batch t e =
      write-IsCoherent_as db cache lossy IsText plain batch s s'
        (db.write s.stored (entries_of db cache lossy batch)) refl t h e

  -- A read of a text that succeeds gives what the database holds and leaves them agreeing.
  pub read_cf_lem :
      (cf : Cf) (key : Bytes) (v : Option Bytes)
      → IsFamily cf
      → IsText key
      → read_cf db cache lossy cf key s ≡ (ok v, s')
      → (v ≡ db.view s.stored (key_with_cf cf key)) × IsCoherent db cache lossy IsText s'
  unfolding read_cf
  read_cf_lem cf key v f t e =
      read_as db cache lossy IsText plain cf key s s' v
        (cache.peek s.cached (cache_key db cache lossy cf key)) refl f t h e

-- Two keys of a column family that `from_utf8_lossy` maps to one text, neither of them cached: once a read
-- of the first has found its value, a read of the second gives that value, whatever the database holds.
pub cache_mixup :
    (db : Db) (cache : Cache) (from_utf8_lossy : Bytes → Bytes) (cf : Cf) (first second v : Bytes)
    (s : Standalone db cache from_utf8_lossy)
    → from_utf8_lossy first ≡ from_utf8_lossy second
    → cache.peek s.cached (cache_key db cache from_utf8_lossy cf first) ≡ none
    → db.get s.stored (key_with_cf cf first) ≡ ok (some v)
    → let after = (read_cf db cache from_utf8_lossy cf first s).1 in
      read_cf db cache from_utf8_lossy cf second after ≡ (ok (some v), after)
unfolding read_cf
cache_mixup db cache lossy cf first second v s same missing there =
    let own = cache.peek-put_own s.cached (cache_key db cache lossy cf first) v in
    let text : cache_key db cache lossy cf first ≡ cache_key db cache lossy cf second =
      ap (λ t. cf ++ (b':' ∷ t)) same in
    rw (missing, there, ← text, own) refl
