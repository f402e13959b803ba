-- ===== src/RaftStore/Meta/RaftLog.antt =====
-- src/raftstore/meta/values.rs: the log that is written is the log that is read.
use aegisdb_core.Prelude.{
  ℕ, ◌+◌, ◌-◌, ◌≤◌, ◌<◌, ◌≡◌, ◌≢◌, ◌⊎◌, refl, sym, ap, subst, ◌∙◌, inl, inr, false, List, [], ◌∷◌,
  some, Result, ok, err, panic, All, length, leb, u64_mod, arith,
}
use aegisdb_core.Prelude.Bytes.{Bytes, bytes_beq_iff}
use aegisdb_core.Engine.{Db, put, applied}
use aegisdb_core.Raft.Types.{Entry}
use aegisdb_core.RaftStore.Meta.{
  Encoding, put_value, and_then, write_raft_log, read_entries, read_raft_log, read_raft_log_entry,
}
use aegisdb_core.RaftStore.Meta.Keys.{raft_log_key, raft_log_key-inj}

-- The entries stand at consecutive indices from `lo` on, all below 2^64.
abbrev pub IsRun : ℕ → List Entry → Type 0
IsRun lo [] = lo ≤ u64_mod
IsRun lo (e ∷ es) = (e.index ≡ lo) × (lo < u64_mod) × IsRun (lo + 1) es

module _ (raft : Db) (enc : Encoding Entry) (region_id : ℕ) where
  -- The database holds an entry under its index.
  abbrev pub IsStored : raft.State → Entry → Type 0
  IsStored s e =
      (b : Bytes) × (enc.serialize e ≡ ok b)
      × (raft.view s (raft_log_key region_id e.index) ≡ some b)

  put_lem :
      (k b : Bytes) (s s' : raft.State)
      → raft.write s (put k b ∷ []) ≡ (ok tt, s')
      → (raft.view s' k ≡ some b) × ((j : Bytes) → k ≢ j → raft.view s' j ≡ raft.view s j)
  unfolding applied
  put_lem k b s s' h =
      let effect = raft.write_lem s s' (put k b ∷ []) h in
      (
        (let own = effect k in let same = (bytes_beq_iff k k).1 refl in ground (arith, own, same)),
        (λ j ne.
            (let there = effect j in let iff = bytes_beq_iff k j in ground (arith, there, iff))),
      )

  -- A step of the loop that does not fail has written its entry and gone on.
  record Stepped (e : Entry) (es : List Entry) (s s' : raft.State) : Type 0 where
    middle : raft.State
    bytes : Bytes
    encoded : enc.serialize e ≡ ok bytes
    first : raft.write s (put (raft_log_key region_id e.index) bytes ∷ []) ≡ (ok tt, middle)
    later : write_raft_log raft enc region_id es middle ≡ (ok tt, s')

  stepped_put :
      (e : Entry) (es : List Entry) (s s' : raft.State) (b : Bytes)
      (o : Result (Unit {0}) × raft.State)
      → enc.serialize e ≡ ok b
      → raft.write s (put (raft_log_key region_id e.index) b ∷ []) ≡ o
      → and_then raft (write_raft_log raft enc region_id es) o ≡ (ok tt, s')
      → Stepped e es s s'
  stepped_put e es s s' b (ok u, m) p w h = record {
    middle = m;
    bytes = b;
    encoded = p;
    first = w;
    later = h;
  }
  stepped_put e es s s' b (err x, m) p w h = cc
  stepped_put e es s s' b (panic, m) p w h = cc

  stepped_as :
      (e : Entry) (es : List Entry) (s s' : raft.State) (r : Result Bytes)
      → enc.serialize e ≡ r
      → and_then raft
          (write_raft_log raft enc region_id es)
          (put_value raft (raft_log_key region_id e.index) r s)
        ≡ (ok tt, s')
      → Stepped e es s s'
  unfolding put_value
  stepped_as e es s s' (ok b) p h =
      stepped_put e es s s' b (raft.write s (put (raft_log_key region_id e.index) b ∷ [])) p refl h
  stepped_as e es s s' (err x) p h = cc
  stepped_as e es s s' panic p h = cc

  stepped :
      (e : Entry) (es : List Entry) (s s' : raft.State)
      → write_raft_log raft enc region_id (e ∷ es) s ≡ (ok tt, s')
      → Stepped e es s s'
  unfolding write_raft_log
  stepped e es s s' h = stepped_as e es s s' (enc.serialize e) refl h

  -- What stands at other keys than those of the entries is untouched.
  write_raft_log-other :
      (es : List Entry) (s s' : raft.State) (k : Bytes)
      → write_raft_log raft enc region_id es s ≡ (ok tt, s')
      → All (λ e. raft_log_key region_id e.index ≢ k) es
      → raft.view s' k ≡ raft.view s k
  unfolding write_raft_log
  write_raft_log-other [] s s' k h all =
      ap (λ (p : Result (Unit {0}) × raft.State). raft.view p.1 k) (sym h)
  write_raft_log-other (e ∷ es) s s' k h (ne, all) =
      let st = stepped e es s s' h in
      write_raft_log-other es st.middle s' k st.later all
      ∙ (put_lem (raft_log_key region_id e.index) st.bytes s st.middle st.first).1 k ne

  -- The entries of a run stand elsewhere than an index before it, or behind it.
  run-apart :
      (lo i : ℕ) (es : List Entry)
      → IsRun lo es
      → i < u64_mod
      → (i < lo) ⊎ (lo + length es ≤ i)
      → All (λ e. raft_log_key region_id e.index ≢ raft_log_key region_id i) es
  run-apart lo i [] h small out = tt
  run-apart lo i (e ∷ es) (at, bound, h) small out = (
    (λ same.
        (let eq = raft_log_key-inj region_id e.index i (omega arith) small same in omega arith)),
    run-apart (lo + 1) i es h small
        (elim out [ inl p ↦ inl (omega arith) | inr p ↦ inr (omega arith) ]),
  )

  pub write_raft_log-IsStored :
      (lo : ℕ) (es : List Entry) (s s' : raft.State)
      → IsRun lo es
      → write_raft_log raft enc region_id es s ≡ (ok tt, s')
      → All (IsStored s') es
  write_raft_log-IsStored lo [] s s' h w = tt
  write_raft_log-IsStored lo (e ∷ es) s s' (at, bound, h) w =
      let st = stepped e es s s' w in
      let there = (put_lem (raft_log_key region_id e.index) st.bytes s st.middle st.first).0 in
      let apart = run-apart (lo + 1) e.index es h (omega arith) (inl (omega arith)) in
      let kept =
        write_raft_log-other es st.middle s' (raft_log_key region_id e.index) st.later apart in
      (
        (st.bytes, st.encoded, kept ∙ there),
        write_raft_log-IsStored (lo + 1) es st.middle s' h st.later,
      )

  module _
      (round_trip : (e : Entry) (b : Bytes) → enc.serialize e ≡ ok b → enc.deserialize b ≡ ok e)
      (s : raft.State) (readable : (k : Bytes) → raft.get s k ≡ ok (raft.view s k)) where
    entry_read :
        (e : Entry)
        → IsStored s e
        → (b : Bytes) × (raft.get s (raft_log_key region_id e.index) ≡ ok (some b))
          × (enc.deserialize b ≡ ok e)
    entry_read e (b, encoded, there) =
        (b, readable (raft_log_key region_id e.index) ∙ ap ok there, round_trip e b encoded)

    -- A stored entry is read at its index.
    pub read_raft_log_entry_lem :
        (e : Entry)
        → IsStored s e
        → read_raft_log_entry raft enc region_id e.index (some s) ≡ ok (some e)
    unfolding read_raft_log_entry
    read_raft_log_entry_lem e stored =
        let (b, got, back) = entry_read e stored in rw (got, back) refl

    read_entries_lem :
        (lo : ℕ) (es : List Entry)
        → IsRun lo es
        → All (IsStored s) es
        → read_entries raft enc region_id (length es) lo s ≡ ok es
    unfolding read_entries
    read_entries_lem lo [] h all = refl
    read_entries_lem lo (e ∷ es) (at, bound, h) (stored, all) =
        let (b, got, back) = entry_read e stored in
        let here = subst (λ i. raft.get s (raft_log_key region_id i) ≡ ok (some b)) at got in
        let more = read_entries_lem (lo + 1) es h all in rw (here, back, more) refl

    pub read_raft_log_lem :
        (lo : ℕ) (es : List Entry)
        → IsRun lo es
        → All (IsStored s) es
        → read_raft_log raft enc region_id lo (lo + length es) (some s) ≡ ok es
    unfolding read_raft_log read_entries
    read_raft_log_lem lo [] h all = ground arith
    read_raft_log_lem lo (e ∷ es) h all =
        let some_left : leb (lo + length (e ∷ es)) lo ≡ false = ground arith in
        let count : lo + length (e ∷ es) - lo ≡ length (e ∷ es) = omega arith in
        rw (some_left) (
          ap (λ n. read_entries raft enc region_id n lo s) count
          ∙ read_entries_lem lo (e ∷ es) h all)

-- Entries at consecutive indices that are written without an error are read back whole and in order, if
-- the encoding is undone by decoding and the reads do not fail. What stands at other indices of the log
-- stays as it was.
pub raft_log_lem :
    (raft : Db) (enc : Encoding Entry) (region_id lo : ℕ) (es : List Entry) (s s' : raft.State)
    → ((e : Entry) (b : Bytes) → enc.serialize e ≡ ok b → enc.deserialize b ≡ ok e)
    → ((k : Bytes) → raft.get s' k ≡ ok (raft.view s' k))
    → IsRun lo es
    → write_raft_log raft enc region_id es s ≡ (ok tt, s')
    → (read_raft_log raft enc region_id lo (lo + length es) (some s') ≡ ok es)
      × ((i : ℕ)
          → i < u64_mod
          → (i < lo) ⊎ (lo + length es ≤ i)
          → raft.view s' (raft_log_key region_id i) ≡ raft.view s (raft_log_key region_id i))
raft_log_lem raft enc region_id lo es s s' round_trip readable run h = (
  read_raft_log_lem raft enc region_id round_trip s' readable lo es run
      (write_raft_log-IsStored raft enc region_id lo es s s' run h),
  (λ i small out.
      write_raft_log-other raft enc region_id es s s' (raft_log_key region_id i) h
        (run-apart raft enc region_id lo i es run small out)),
)
