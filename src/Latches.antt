-- ===== src/Latches.antt =====
-- src/transaction/latches/latches.rs: latches on the keys of a command.
pub mod Exclusion
mod Examples
use aegisdb_core.Prelude.{
  ℕ, ◌+◌, ◌≡◌, ◌↔◌, refl, Bool, true, false, ◌&&◌, List, [], ◌∷◌, Option, none, some, arith, ◌==◌,
  ==_iff, if◌then◌else◌,
}
use aegisdb_core.Prelude.Assoc.{Assoc, lookup, insert, remove}
use aegisdb_core.Prelude.Bytes.{Bytes, bytes_eq}

-- `latch_map`: for each locked key the number of the `Notify` on which others wait, and the number of
-- the next `Notify`.
pub record Latches : Type 0 where
  pub latch_map : Assoc Bytes ℕ
  pub next_notify : ℕ

-- The notify of the first key that is locked.
first_locked : List Bytes → Assoc Bytes ℕ → Option ℕ
first_locked [] m = none
first_locked (k ∷ ks) m =
    let rest = first_locked ks m in elim (lookup k m) [ some n ↦ some n | none ↦ rest ]

lock_all : List Bytes → ℕ → Assoc Bytes ℕ → Assoc Bytes ℕ
lock_all [] n m = m
lock_all (k ∷ ks) n m = lock_all ks n (insert k n m)

-- `acquire_latches`: the notify to wait for, or none and all keys locked
unfoldable pub acquire_latches : List Bytes → Latches → Option ℕ × Latches
unfolding first_locked lock_all
acquire_latches keys l = elim (first_locked keys l.latch_map) [
  | some n ↦ (some n, l)
  | none ↦ (
    none,
    record { latch_map = lock_all keys l.next_notify l.latch_map; next_notify = l.next_notify + 1 },
  )
]

unlock_all : List Bytes → Assoc Bytes ℕ → Assoc Bytes ℕ
unlock_all [] m = m
unlock_all (k ∷ ks) m = unlock_all ks (remove k m)

-- `release_latches`, with the notify whose waiters it wakes: that of the first key
unfoldable pub release_latches : List Bytes → Latches → Option ℕ × Latches
unfolding unlock_all
release_latches [] l = (none, l)
release_latches (k ∷ ks) l =
    (lookup k l.latch_map, record l { latch_map = unlock_all (k ∷ ks) l.latch_map })

-- One turn of the loop of `wait_for_latches`: the latches, or none while another holds a key.
unfoldable pub wait_for_latches : List Bytes → Latches → Option Latches
wait_for_latches keys l =
    let (busy, l') = acquire_latches keys l in elim busy [ some n ↦ none | none ↦ some l' ]
