-- ===== src/Latches/Examples.antt =====
-- The theorems about src/transaction/latches at concrete keys.
use aegisdb_core.Prelude.{◌≡◌, refl, List, [], ◌∷◌, none, some, true}
use aegisdb_core.Prelude.Bytes.{Bytes, bytes_beq}
use aegisdb_core.Prelude.Assoc.{lookup, insert}
use aegisdb_core.Latches.{Latches, acquire_latches, wait_for_latches}
use aegisdb_core.Latches.Exclusion.{contains, exclusion}

abbrev free : Latches
free = record { latch_map = []; next_notify = 4 }

abbrev first_keys : List Bytes
first_keys = (1 ∷ []) ∷ (2 ∷ []) ∷ []

abbrev second_keys : List Bytes
second_keys = (2 ∷ []) ∷ (3 ∷ []) ∷ []

abbrev held : Latches
held = record { latch_map = (1 ∷ [], 4) ∷ (2 ∷ [], 4) ∷ []; next_notify = 5 }

takes : wait_for_latches first_keys free ≡ some held
unfolding wait_for_latches acquire_latches lookup insert bytes_beq
takes = refl

in_first : contains (2 ∷ []) first_keys ≡ true
unfolding bytes_beq
in_first = refl

in_second : contains (2 ∷ []) second_keys ≡ true
unfolding bytes_beq
in_second = refl

exclusion_example : wait_for_latches second_keys held ≡ none
exclusion_example = exclusion (2 ∷ []) first_keys second_keys free held takes in_first in_second
