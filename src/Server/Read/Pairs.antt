-- ===== src/Server/Read/Pairs.antt =====
-- src/server/transaction_api.rs: what kv_get and kv_scan answer.
use aegisdb_core.Prelude.{
  ℕ, zero, suc, ◌≤◌, ◌≡◌, refl, sym, ap, ◌∙◌, ◌⊎◌, inl, inr, arith, false, List, [], ◌∷◌, Option,
  none, some, ok, err, panic, ◌==◌, length, All, bind-ok, subst, Bool-cases,
}
use aegisdb_core.Prelude.Bytes.{Bytes}
use aegisdb_core.Mvcc.Codec.{encode_key}
use aegisdb_core.Mvcc.Records.{Lock}
use aegisdb_core.Mvcc.Txn
use aegisdb_core.Mvcc.Txn.{MvccTxn, Item, Reader, new_txn, get_lock}
use aegisdb_core.Mvcc.Scanner.{Scanner, Next, next, new_scanner, set_limit}
use aegisdb_core.Mvcc.Scanner.Sound.{Holds, IsSound, next-IsSound}
use mathlib.Core.List.{Memᴰ}
use aegisdb_core.Prelude.{u64_max}
use aegisdb_core.Server.Types.{Engine, ScanRequest, ScanResponse, KvPair, locked_error}
use aegisdb_core.Server.Prewrite.{lock_info}
use aegisdb_core.Server.Read.{kv_scan, scan_pairs, then_others, pair_of, pair_unless_locked}

module _ (req : ScanRequest) (all : List Item) (t : MvccTxn) where
  abbrev pub OwnOrFree : Option Lock → Type 0
  OwnOrFree none = Unit {0}
  OwnOrFree (some l) = l.ts ≡ req.version

  -- A pair has the value that the items hold for its key, or the lock of another transaction as error.
  abbrev pub Answers : KvPair → Type 0
  Answers p =
      (value : Bytes) × (found : Option Lock) × Holds all t p.key value
      × (get_lock p.key t ≡ ok found)
      × (((p.error ≡ none) × (p.value ≡ value) × OwnOrFree found)
          ⊎ ((l : Lock) × (found ≡ some l)
              × ((l.ts == req.version) ≡ false)
              × (p.error ≡ some (locked_error (lock_info p.key l)))))

  module _ {ℓ} {S : Type ℓ} (e : Engine S) (s : S) where
    pair_lem :
        (key value : Bytes) (found : Option Lock)
        → Holds all t key value
        → get_lock key t ≡ ok found
        → Answers (pair_unless_locked e req s key value found)
    unfolding pair_unless_locked
    pair_lem key value none holds g = (value, none, holds, g, inl (refl, refl, tt))
    pair_lem key value (some l) holds g = elim (Bool-cases (l.ts == req.version)) [
      | inl own ↦ rw own (value, some l, holds, g, inl (refl, refl, ground arith))
      | inr other ↦ rw other (value, some l, holds, g, inr (l, refl, other, refl))
    ]

    pair_of_lem :
        (key value : Bytes) (p : KvPair)
        → e.reader s ≡ ok t.reader
        → t ≡ new_txn t.reader req.version
        → Holds all t key value
        → pair_of e req s key value ≡ ok p
        → Answers p
    unfolding pair_of
    pair_of_lem key value p r same holds h =
        let (reader, r1, h1) = bind-ok (e.reader s) _ p h in
        let (found, g, h2) = bind-ok (get_lock key (new_txn reader req.version)) _ p h1 in
        let one : reader ≡ t.reader = cc (r, r1) in
        let txn : new_txn reader req.version ≡ t = ap (λ x. new_txn x req.version) one ∙ sym same in
        let made : pair_unless_locked e req s key value found ≡ p = cc h2 in
        subst Answers made (pair_lem key value found holds (ap (get_lock key) (sym txn) ∙ g))

    others_lem :
        (n : ℕ) (ps : List KvPair) (now : Next)
        → e.reader s ≡ ok t.reader
        → t ≡ new_txn t.reader req.version
        → IsSound all t now
        → ((sc1 : Scanner) (ps1 : List KvPair)
            → ((x : Item) → Memᴰ x sc1.write_iter → Memᴰ x all)
            → sc1.txn ≡ t
            → scan_pairs e req s n sc1 ≡ ok ps1
            → (length ps1 ≤ n) × All Answers ps1)
        → then_others e req s (scan_pairs e req s n) now ≡ ok ps
        → (length ps ≤ suc n) × All Answers ps
    unfolding then_others
    others_lem n ps (ok (some (key, value)), sc) r same v more h =
        let (p, one, h1) = bind-ok (pair_of e req s key value) _ ps h in
        let (qs, rest, h2) = bind-ok (scan_pairs e req s n sc) _ ps h1 in
        let (short, fine) = more sc qs v.items_left v.same_txn rest in
        let first = pair_of_lem key value p r same (v.held key value refl) one in
        let made : p ∷ qs ≡ ps = cc h2 in
        subst (λ x. (length x ≤ suc n) × All Answers x) made (omega arith, (first, fine))
    others_lem n ps (ok none, sc) r same v more h =
        let none_left : [] ≡ ps = cc h in
        subst (λ x. (length x ≤ suc n) × All Answers x) none_left (omega arith, tt)
    others_lem n ps (err m, sc) r same v more h = cc h
    others_lem n ps (panic, sc) r same v more h = cc h

    scan_pairs_lem :
        (n : ℕ) (sc : Scanner) (ps : List KvPair)
        → e.reader s ≡ ok t.reader
        → t ≡ new_txn t.reader req.version
        → ((x : Item) → Memᴰ x sc.write_iter → Memᴰ x all)
        → sc.txn ≡ t
        → scan_pairs e req s n sc ≡ ok ps
        → (length ps ≤ n) × All Answers ps
    unfolding scan_pairs
    scan_pairs_lem zero sc ps r same within st h =
        let none_left : [] ≡ ps = cc h in
        subst (λ x. (length x ≤ 0) × All Answers x) none_left (omega arith, tt)
    scan_pairs_lem (suc n) sc ps r same within st h =
        others_lem n ps (next sc) r same (next-IsSound all t sc within st)
          (λ sc1 ps1 w1 s1 h1. scan_pairs_lem n sc1 ps1 r same w1 s1 h1) h

-- `kv_scan` gives no more pairs than the limit. Each pair has a key for which the write records from the
-- start key on hold a put, committed no later than the version; it has the value of that put, and then
-- the key has no lock of another transaction, or it has such a lock on the key as its error.
pub scan_lem {ℓ} :
    {S : Type ℓ} (e : Engine S) (req : ScanRequest) (s : S) (resp : ScanResponse)
    → kv_scan e req s ≡ ok resp
    → (reader : Reader) × (e.reader s ≡ ok reader)
      × (length resp.pairs ≤ req.limit)
      × All
          (Answers req
            (reader.seek Txn.write (encode_key req.start_key u64_max))
            (new_txn reader req.version))
          resp.pairs
unfolding kv_scan
scan_lem e req s resp h =
    let (reader, r, h1) = bind-ok (e.reader s) _ resp h in
    let t = new_txn reader req.version in
    let all = reader.seek Txn.write (encode_key req.start_key u64_max) in
    let (ps, scanned, h2) =
      bind-ok (scan_pairs e req s req.limit (set_limit req.limit (new_scanner req.start_key t))) _
        resp h1 in
    let made : ps ≡ resp.pairs = cc h2 in
    let (short, fine) =
      scan_pairs_lem req all t e s req.limit (set_limit req.limit (new_scanner req.start_key t)) ps
        r refl (λ x m. m) refl scanned in
    (
      reader,
      r,
      subst (λ x. length x ≤ req.limit) made short,
      subst (All (Answers req all t)) made fine,
    )
