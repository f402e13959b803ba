-- ===== src/Raft/Log.antt =====
-- src/raft/log.rs: the entries that a node holds in memory, and its positions in them.
pub mod Shape
pub mod Append
pub mod Views
pub mod Terms
use aegisdb_core.Prelude.{
  ℕ, ◌&&◌, not, List, [], ◌∷◌, ◌++◌, Option, none, some, Result, ok, err, panic, ◌>>=◌, ltb, leb,
  ◌==◌, if◌then◌else◌, length, get_elem?, take, drop, last?, min, add64, sub64, slice_from,
  slice_inclusive,
}
use aegisdb_core.Raft.Types.{Entry, Snapshot, Storage, is_empty}

pub record RaftLog : Type 0 where
  pub storage : Storage
  pub committed : ℕ
  pub applied : ℕ
  pub stabled : ℕ
  pub entries : List Entry
  pub pending_snapshot : Option Snapshot

-- `RaftLog::new`; `applied` is set by the caller.
unfoldable pub new_log : Storage → Result RaftLog
new_log s = do
  (hard_state, conf_state) ← s.initial_state
  last ← s.last_index
  first ← s.first_index
  entries ← if leb first last then s.entries first (add64 last 1) else ok []
  ok (record {
    storage = s;
    committed = hard_state.commit;
    applied = 0;
    stabled = last;
    entries = entries;
    pending_snapshot = none;
  })

pub last_entry_index : List Entry → ℕ → ℕ
last_entry_index [] stabled = stabled
last_entry_index (e ∷ es) stabled = elim (last? (e ∷ es)) [ none ↦ stabled | some x ↦ x.index ]

unfoldable pub last_index : RaftLog → ℕ
unfolding last_entry_index
last_index l = elim l.pending_snapshot [
  | none ↦ last_entry_index l.entries l.stabled
  | some s ↦ if is_empty s then last_entry_index l.entries l.stabled else s.metadata.index
]

pub first_entry_index : List Entry → ℕ → ℕ
first_entry_index [] stabled = add64 stabled 1
first_entry_index (e ∷ es) stabled = e.index

unfoldable pub first_index : RaftLog → ℕ
unfolding first_entry_index
first_index l = elim l.pending_snapshot [
  | none ↦ first_entry_index l.entries l.stabled
  | some s ↦ if is_empty s then first_entry_index l.entries l.stabled else add64 s.metadata.index 1
]

-- The offset of the first entry above `position`, which is `applied`, `committed` or `stabled`.
abbrev offset_after : RaftLog → ℕ → ℕ
offset_after l position =
    if leb (first_index l) position then add64 (sub64 position (first_index l)) 1 else 0

unfoldable pub unstable_entries : RaftLog → Result (List Entry)
unstable_entries l = slice_from (offset_after l l.stabled) l.entries

unfoldable pub next_entries : RaftLog → Result (List Entry)
next_entries l =
    slice_inclusive (offset_after l l.applied) (min (offset_after l l.committed) (length l.entries))
      l.entries

-- The term of the pending snapshot, if that is not empty and ends just below `first`.
snapshot_term : RaftLog → ℕ → Option ℕ
snapshot_term l first = elim l.pending_snapshot [
  | none ↦ none
  | some s ↦
      if not (is_empty s) && s.metadata.index == sub64 first 1 then some s.metadata.term else none
]

-- The term of the entry in memory at `index`, which is not below `first_index l`.
memory_term : RaftLog → ℕ → Option ℕ
memory_term l index =
    if leb index (last_index l)
    then (elim (get_elem? l.entries (sub64 index (first_index l))) [
      | none ↦ none
      | some e ↦ some e.term
    ])
    else none

-- `RaftLog::term`, which may ask the storage
unfoldable pub term : RaftLog → ℕ → Result ℕ
unfolding snapshot_term memory_term
term l index =
    let first = first_index l in
    if ltb index first
    then err "index < first"
    else elim (if index == sub64 first 1 then snapshot_term l first else none) [
      | some t ↦ ok t
      | none ↦ elim (memory_term l index) [ some t ↦ ok t | none ↦ l.storage.term index ]
    ]

unfoldable pub term_sync : RaftLog → ℕ → Option ℕ
unfolding snapshot_term memory_term
term_sync l index =
    let first = first_index l in
    if index == 0
    then some 0
    else if ltb index first
    then none
    else if index == sub64 first 1
    then snapshot_term l first
    else memory_term l index

-- `Vec::truncate` where a new entry at `after` overwrites old ones
truncated : RaftLog → ℕ → List Entry
truncated l after =
    let offset = sub64 after (first_index l) in
    if ltb (first_index l) after && ltb offset (length l.entries)
    then take offset l.entries
    else l.entries

unfoldable pub append : RaftLog → List Entry → Result RaftLog
unfolding truncated
append l [] = ok l
append l (e ∷ es) =
    if leb e.index l.committed
    then panic
    else ok (record l { entries = truncated l e.index ++ (e ∷ es) })

unfoldable pub maybe_compact : RaftLog → ℕ → Result RaftLog
maybe_compact l index =
    if leb index (first_index l)
    then ok l
    else if ltb (last_index l) index
    then err "compact_index > last_index"
    else let offset = add64 (sub64 index (first_index l)) 1 in
      ok (if ltb offset (length l.entries) then record l { entries = drop offset l.entries } else l)

unfoldable pub apply_snapshot : RaftLog → Snapshot → Result RaftLog
apply_snapshot l s =
    if is_empty s
    then ok l
    else if leb s.metadata.index l.committed
    then err "snapshot index <= committed"
    else ok (record l {
      pending_snapshot = some s;
      committed = s.metadata.index;
      applied = s.metadata.index;
      stabled = s.metadata.index;
      entries = [];
    })

-- `RaftLog::take_pending_snapshot`, less the snapshot that it returns
unfoldable pub take_pending_snapshot : RaftLog → RaftLog
take_pending_snapshot l = record l { pending_snapshot = none }
