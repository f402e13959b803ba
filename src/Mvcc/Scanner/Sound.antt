-- ===== src/Mvcc/Scanner/Sound.antt =====
-- src/transaction/mvcc/scanner.rs: what a scanner gives.
use aegisdb_core.Prelude.{
  ℕ, ◌≤◌, ◌≡◌, refl, sym, ap, ◌∙◌, inl, inr, arith, ◌||◌, List, [], ◌∷◌, Option, none, some, Result,
  ok, err, panic, ltb, leb, subst, Bool-cases,
}
use mathlib.Core.List.{Memᴰ}
use aegisdb_core.Prelude.Bytes.{Bytes}
use aegisdb_core.Mvcc.Codec.{encode_key, decode_user_key, decode_timestamp}
use aegisdb_core.Mvcc.Records
use aegisdb_core.Mvcc.Records.{WriteKind, parse_write}
use aegisdb_core.Mvcc.Txn.{MvccTxn, Item, default}
use aegisdb_core.Mvcc.Scanner.{
  Scanner, Next, next, scan_items, at_key, at_time, at_value, at_write, at_kind, take_value,
  past_end, is_current,
}

-- The items hold a put of the key, committed no later than the transaction's start, whose value this is.
abbrev pub Holds : List Item → MvccTxn → Bytes → Bytes → Type 0
Holds all t key value =
    (item : Item) × (ts : ℕ) × (bytes : Bytes) × (start : ℕ) × Memᴰ item all
    × (decode_user_key item.key ≡ ok key)
    × (decode_timestamp item.key ≡ ok ts)
    × (ts ≤ t.start_ts)
    × (item.value ≡ ok bytes)
    × (parse_write bytes ≡ ok (some (record { start_ts = start; kind = Records.put })))
    × (t.reader.get_cf default (encode_key key start) ≡ ok (some value))

-- What is given is held, and the scanner goes on over the same items for the same transaction.
pub record IsSound (all : List Item) (t : MvccTxn) (n : Next) : Type 0 where
  pub same_txn : n.1.txn ≡ t
  pub items_left : (x : Item) → Memᴰ x n.1.write_iter → Memᴰ x all
  pub held : (key value : Bytes) → n.0 ≡ ok (some (key, value)) → Holds all t key value

module _ (all : List Item) (t : MvccTxn) where
  module _ (item : Item) (items : List Item) (rest : Scanner → Next)
      (within : (x : Item) → Memᴰ x (item ∷ items) → Memᴰ x all)
      (more : (sc : Scanner) → sc.txn ≡ t → IsSound all t (rest sc)) where
    same_pair :
        (key k value v : Bytes)
        → ◌≡◌ {A = Result (Option (Bytes × Bytes))} (ok (some (key, value))) (ok (some (k, v)))
        → Holds all t key value
        → Holds all t k v
    same_pair key k value v e h =
        let one : key ≡ k = cc e in
        let two : value ≡ v = cc e in
        subst (λ x. Holds all t x v) one (subst (λ x. Holds all t key x) two h)

    take_value-IsSound :
        (key : Bytes) (sc : Scanner) (found : Result (Option Bytes))
        → sc.txn ≡ t
        → ((value : Bytes) → found ≡ ok (some value) → Holds all t key value)
        → IsSound all t (take_value item items rest key sc found)
    unfolding take_value
    take_value-IsSound key sc (ok (some value)) s h = record {
      same_txn = s;
      items_left = within;
      held = λ k v e. same_pair key k value v e (h value refl);
    }
    take_value-IsSound key sc (ok none) s h = more sc s
    take_value-IsSound key sc (err e) s h = record {
      same_txn = s;
      items_left = within;
      held = λ k v e. cc e;
    }
    take_value-IsSound key sc panic s h = record {
      same_txn = s;
      items_left = within;
      held = λ k v e. cc e;
    }

    at_kind-IsSound :
        (key bytes : Bytes) (ts start : ℕ) (sc : Scanner) (kind : WriteKind)
        → sc.txn ≡ t
        → decode_user_key item.key ≡ ok key
        → decode_timestamp item.key ≡ ok ts
        → ts ≤ t.start_ts
        → item.value ≡ ok bytes
        → parse_write bytes ≡ ok (some (record { start_ts = start; kind = kind }))
        → IsSound all t (at_kind item items rest key sc start kind)
    unfolding at_kind
    at_kind-IsSound key bytes ts start sc Records.put s k d l v p =
        take_value-IsSound key sc (sc.txn.reader.get_cf default (encode_key key start)) s λ value e.
          (
            item,
            ts,
            bytes,
            start,
            within item (Memᴰ.head refl),
            k,
            d,
            l,
            v,
            p,
            sym (ap (λ (x : MvccTxn). x.reader.get_cf default (encode_key key start)) s) ∙ e,
          )
    at_kind-IsSound key bytes ts start sc Records.delete s k d l v p =
        more (record sc { current_key = some key }) s
    at_kind-IsSound key bytes ts start sc Records.rollback s k d l v p =
        more (record sc { current_key = some key }) s

    at_write-IsSound :
        (key bytes : Bytes) (ts : ℕ) (sc : Scanner) (found : Result (Option Records.Write))
        → sc.txn ≡ t
        → decode_user_key item.key ≡ ok key
        → decode_timestamp item.key ≡ ok ts
        → ts ≤ t.start_ts
        → item.value ≡ ok bytes
        → parse_write bytes ≡ found
        → IsSound all t (at_write item items rest key sc found)
    unfolding at_write
    at_write-IsSound key bytes ts sc (ok (some w)) s k d l v p =
        at_kind-IsSound key bytes ts w.start_ts sc w.kind s k d l v p
    at_write-IsSound key bytes ts sc (ok none) s k d l v p = more sc s
    at_write-IsSound key bytes ts sc (err e) s k d l v p = more sc s
    at_write-IsSound key bytes ts sc panic s k d l v p = record {
      same_txn = s;
      items_left = within;
      held = λ k v e. cc e;
    }

    at_value-IsSound :
        (key : Bytes) (ts : ℕ) (sc : Scanner) (found : Result Bytes)
        → sc.txn ≡ t
        → decode_user_key item.key ≡ ok key
        → decode_timestamp item.key ≡ ok ts
        → ts ≤ t.start_ts
        → item.value ≡ found
        → IsSound all t (at_value item items rest key sc found)
    unfolding at_value
    at_value-IsSound key ts sc (ok bytes) s k d l v =
        at_write-IsSound key bytes ts sc (parse_write bytes) s k d l v refl
    at_value-IsSound key ts sc (err e) s k d l v = more sc s
    at_value-IsSound key ts sc panic s k d l v = record {
      same_txn = s;
      items_left = within;
      held = λ k v e. cc e;
    }

    at_time-IsSound :
        (key : Bytes) (sc : Scanner) (found : Result ℕ)
        → sc.txn ≡ t
        → decode_user_key item.key ≡ ok key
        → decode_timestamp item.key ≡ found
        → IsSound all t (at_time item items rest key sc found)
    unfolding at_time
    at_time-IsSound key sc (ok ts) s k d = elim (Bool-cases (ltb sc.txn.start_ts ts)) [
      | inl later ↦ rw later (more sc s)
      | inr in_time ↦
          let l : ts ≤ t.start_ts = ground arith in
          rw in_time (at_value-IsSound key ts sc item.value s k d l refl)
    ]
    at_time-IsSound key sc (err e) s k d = more sc s
    at_time-IsSound key sc panic s k d = record {
      same_txn = s;
      items_left = within;
      held = λ k v e. cc e;
    }

    at_key-IsSound :
        (sc : Scanner) (found : Result Bytes)
        → sc.txn ≡ t
        → decode_user_key item.key ≡ found
        → IsSound all t (at_key item items rest sc found)
    unfolding at_key
    at_key-IsSound sc (ok key) s k = elim (Bool-cases (past_end key sc.end_key)) [
      | inl past ↦ rw past (record { same_txn = s; items_left = within; held = λ k v e. cc e })
      | inr before ↦ elim (Bool-cases (is_current key sc.current_key)) [
        | inl again ↦ rw (before, again) (more sc s)
        | inr new ↦ rw (before, new) (at_time-IsSound key sc (decode_timestamp item.key) s k refl)
      ]
    ]
    at_key-IsSound sc (err e) s k = more sc s
    at_key-IsSound sc panic s k = record { same_txn = s; items_left = within; held = λ k v e. cc e }

  scan_items-IsSound :
      (items : List Item) (sc : Scanner)
      → ((x : Item) → Memᴰ x items → Memᴰ x all)
      → sc.txn ≡ t
      → IsSound all t (scan_items items sc)
  unfolding scan_items
  scan_items-IsSound [] sc within s = record {
    same_txn = s;
    items_left = within;
    held = λ k v e. cc e;
  }
  scan_items-IsSound (item ∷ items) sc within s =
      at_key-IsSound item items (scan_items items) within
        (λ sc1 s1. scan_items-IsSound items sc1 (λ x m. within x (Memᴰ.tail m)) s1) sc
        (decode_user_key item.key) s refl

  pub next-IsSound :
      (sc : Scanner)
      → ((x : Item) → Memᴰ x sc.write_iter → Memᴰ x all)
      → sc.txn ≡ t
      → IsSound all t (next sc)
  unfolding next
  next-IsSound sc within s = elim (Bool-cases (sc.exhausted || leb sc.limit sc.count)) [
    | inl over ↦ rw over (record { same_txn = s; items_left = within; held = λ k v e. cc e })
    | inr more ↦ rw more (scan_items-IsSound sc.write_iter sc within s)
  ]
