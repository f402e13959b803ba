-- ===== src/Engine/Examples.antt =====
-- Runs of src/storage and of the codec's order, over a database of one key.
use aegisdb_core.Prelude.{◌≡◌, refl, [], ◌∷◌, Option, some, ok, arith, leb, if◌then◌else◌}
use aegisdb_core.Prelude.Bytes.{Bytes, bytes_beq}
use aegisdb_core.Prelude.Order.{bytes_geb}
use aegisdb_core.Prelude.Assoc.{lookup}
use aegisdb_core.Engine.{key_with_cf}
use aegisdb_core.Engine.Keys.{default-IsFamily}
use aegisdb_core.Engine.Memory.{cell_db, map_cache}
use aegisdb_core.Engine.Standalone.{Standalone, read_cf}
use aegisdb_core.Engine.Standalone.Reads.{cache_mixup}
use aegisdb_core.Engine.Standalone.Reached.{opened, read_lem}
use aegisdb_core.Mvcc.Codec.{encode_key}
use aegisdb_core.Mvcc.Codec.Order.{key_order_lem}
use aegisdb_core.Mvcc.Txn.{default}

abbrev cell : Bytes
cell = key_with_cf default (200 ∷ [])

abbrev plain : Bytes → Bytes
plain key = key

abbrev AnyText : Bytes → Type 0
AnyText key = Unit

abbrev opened_state : Standalone (cell_db cell) map_cache plain
opened_state = record { stored = some (7 ∷ []); cached = [] }

abbrev read_state : Standalone (cell_db cell) map_cache plain
read_state = (read_cf (cell_db cell) map_cache plain default (200 ∷ []) opened_state).1

read_lem_example : ◌≡◌ {A = Option Bytes} (some (7 ∷ [])) (some (7 ∷ []))
unfolding read_cf lookup bytes_beq default
read_lem_example =
    read_lem (cell_db cell) map_cache plain AnyText (λ key t. refl) opened_state read_state default
      (200 ∷ []) (some (7 ∷ [])) (opened (some (7 ∷ []))) default-IsFamily tt refl

-- Every byte string is mapped to one text, as invalid bytes are.
abbrev replaced : Bytes → Bytes
replaced key = 239 ∷ 191 ∷ 189 ∷ []

abbrev mixed_state : Standalone (cell_db cell) map_cache replaced
mixed_state = record { stored = some (7 ∷ []); cached = [] }

cache_mixup_example :
    let after = (read_cf (cell_db cell) map_cache replaced default (200 ∷ []) mixed_state).1 in
    read_cf (cell_db cell) map_cache replaced default (201 ∷ []) after ≡ (ok (some (7 ∷ [])), after)
unfolding lookup bytes_beq default
cache_mixup_example =
    cache_mixup (cell_db cell) map_cache replaced default (200 ∷ []) (201 ∷ []) (7 ∷ []) mixed_state
      refl refl refl

key_order_lem_example :
    bytes_geb (encode_key (107 ∷ []) 3) (encode_key (107 ∷ []) 5)
    ≡ (if bytes_beq (107 ∷ []) (107 ∷ []) then leb 3 5 else bytes_geb (107 ∷ []) (107 ∷ []))
key_order_lem_example = key_order_lem (107 ∷ []) (107 ∷ []) 3 5 (omega arith) (omega arith)
