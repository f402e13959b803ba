-- ===== src/Latches/Exclusion.antt =====
-- src/transaction/latches/latches.rs: latches of several commands.
use aegisdb_core.Prelude.{
  ℕ, ◌≡◌, ◌≢◌, refl, ◌⊎◌, Bool, true, false, List, [], ◌∷◌, Option, none, some, arith,
  if◌then◌else◌,
}
use aegisdb_core.Prelude.Assoc.{Assoc, lookup, insert, remove, lookup-insert, lookup-remove}
use aegisdb_core.Prelude.Bytes.{Bytes, bytes_eq, bytes_beq_iff}
use aegisdb_core.Latches.{
  Latches, first_locked, lock_all, unlock_all, acquire_latches, release_latches, wait_for_latches,
}

-- `key` is one of the keys.
abbrev pub contains : Bytes → List Bytes → Bool
contains key [] = false
contains key (k ∷ ks) = let rest = contains key ks in if bytes_eq.beq k key then true else rest

-- The notify under which a key is locked, if it is.
abbrev pub holder : Bytes → Latches → Option ℕ
holder key l = lookup key l.latch_map

lock_all_lem :
    (key : Bytes) (keys : List Bytes) (n : ℕ) (m : Assoc Bytes ℕ)
    → lookup key (lock_all keys n m) ≡ (if contains key keys then some n else lookup key m)
unfolding lock_all
lock_all_lem key [] n m = refl
lock_all_lem key (k ∷ ks) n m =
    ground (arith, lock_all_lem key ks n (insert k n m), lookup-insert k key n m)

unlock_all_lem :
    (key : Bytes) (keys : List Bytes) (m : Assoc Bytes ℕ)
    → lookup key (unlock_all keys m) ≡ (if contains key keys then none else lookup key m)
unfolding unlock_all
unlock_all_lem key [] m = refl
unlock_all_lem key (k ∷ ks) m =
    ground (arith, unlock_all_lem key ks (remove k m), lookup-remove k key m)

first_locked_lem :
    (key : Bytes) (keys : List Bytes) (m : Assoc Bytes ℕ)
    → first_locked keys m ≡ none
    → contains key keys ≡ true
    → lookup key m ≡ none
unfolding first_locked
first_locked_lem key [] m h c = cc
first_locked_lem key (k ∷ ks) m h c = ground (arith, first_locked_lem key ks m, bytes_beq_iff k key)

-- After `wait_for_latches` has returned, a key of the command is locked under one new notify and was
-- not locked before, and any other key is as it was.
wait_for_latches_lem :
    (key : Bytes) (keys : List Bytes) (l l' : Latches)
    → wait_for_latches keys l ≡ some l'
    → (holder key l' ≡ (if contains key keys then some l.next_notify else holder key l))
      × ((contains key keys ≡ false) ⊎ (holder key l ≡ none))
unfolding wait_for_latches acquire_latches
wait_for_latches_lem key keys l l' h =
    ground (
      arith,
      lock_all_lem key keys l.next_notify l.latch_map,
      first_locked_lem key keys l.latch_map,
    )

first_locked_holder :
    (key : Bytes) (keys : List Bytes) (m : Assoc Bytes ℕ) (n : ℕ)
    → contains key keys ≡ true
    → lookup key m ≡ some n
    → first_locked keys m ≢ none
first_locked_holder key keys m n c h none_locked = cc (first_locked_lem key keys m none_locked c, h)

wait_for_latches-blocked :
    (keys : List Bytes) (l : Latches)
    → first_locked keys l.latch_map ≢ none
    → wait_for_latches keys l ≡ none
unfolding wait_for_latches acquire_latches
wait_for_latches-blocked keys l h = ground arith

-- After a command's `wait_for_latches` has returned, another command whose keys share one with it
-- has to wait.
pub exclusion :
    (key : Bytes) (keys others : List Bytes) (l l' : Latches)
    → wait_for_latches keys l ≡ some l'
    → contains key keys ≡ true
    → contains key others ≡ true
    → wait_for_latches others l' ≡ none
exclusion key keys others l l' h c d = wait_for_latches-blocked others l' (
    first_locked_holder key others l'.latch_map l.next_notify d
      (ground (arith, wait_for_latches_lem key keys l l' h)))

-- Releasing the latches that `wait_for_latches` has just acquired leaves every key as it was before.
pub release_after_wait :
    (key : Bytes) (keys : List Bytes) (l l' : Latches)
    → wait_for_latches keys l ≡ some l'
    → holder key (release_latches keys l').1 ≡ holder key l
unfolding release_latches
release_after_wait key [] l l' h = (wait_for_latches_lem key [] l l' h).0
release_after_wait key (k ∷ ks) l l' h =
    ground
      (arith, wait_for_latches_lem key (k ∷ ks) l l' h, unlock_all_lem key (k ∷ ks) l'.latch_map)
