-- ===== src/Mvcc/Txn/Current.antt =====
-- src/transaction/mvcc/transaction.rs: what current_write finds.
use aegisdb_core.Prelude.{
  ℕ, ◌≡◌, sym, ◌∙◌, inl, inr, arith, not, List, [], ◌∷◌, Option, some, Result, ok, ◌>>=◌, ◌==◌,
  ==_iff, if◌then◌else◌, bind-ok, Bool-cases,
}
use aegisdb_core.Prelude.Bytes.{Bytes, bytes_beq}
use aegisdb_core.Mvcc.Codec.{decode_user_key, decode_timestamp}
use aegisdb_core.Mvcc.Records
use aegisdb_core.Mvcc.Records.{parse_write}
use aegisdb_core.Mvcc.Txn.{MvccTxn, Item, current_write, at_item, no_write, relabel}

abbrev read_at : ℕ → Bytes → Result (Option Records.Write × ℕ)
read_at ts value = do w ← relabel (parse_write value); ok (w, ts)

abbrev if_now : MvccTxn → Item → ℕ → Result (Option Records.Write × ℕ)
if_now t item ts = if not (ts == t.start_ts) then ok no_write else item.value >>= read_at ts

at_item_lem :
    (t : MvccTxn) (key : Bytes) (items : List Item) (w : Records.Write) (c : ℕ)
    → at_item t key items ≡ ok (some w, c)
    → c ≡ t.start_ts
unfolding at_item
at_item_lem t key [] w c h = cc h
at_item_lem t key (item ∷ _) w c h =
    let (user_key, dec, h1) = bind-ok (decode_user_key item.key) _ (some w, c) h in
    elim (Bool-cases (bytes_beq user_key key)) [
      | inr other ↦ ground arith
      | inl same ↦
          let (ts, dec1, h2) =
            bind-ok (decode_timestamp item.key) (if_now t item) (some w, c)
              (ground (arith, h1, same)) in
          elim (Bool-cases (ts == t.start_ts)) [
            | inr later ↦ ground arith
            | inl now ↦
                let (v, got, h3) =
                  bind-ok item.value (read_at ts) (some w, c) (ground (arith, h2, now)) in
                let (w1, parsed, h4) = bind-ok (relabel (parse_write v)) _ (some w, c) h3 in
                let same_ts : ts ≡ c = cc h4 in sym same_ts ∙ (==_iff ts t.start_ts).0 now
          ]
    ]

-- A write that `current_write` finds has the start time of the transaction as its commit time.
pub current_write_lem :
    (key : Bytes) (t : MvccTxn) (w : Records.Write) (c : ℕ)
    → current_write key t ≡ ok (some w, c)
    → c ≡ t.start_ts
unfolding current_write
current_write_lem key t w c h = at_item_lem t key _ w c h
