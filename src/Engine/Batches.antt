-- ===== src/Engine/Batches.antt =====
-- src/engine_util/write_batch.rs: what a batch holds, and what writing it does.
use aegisdb_core.Prelude.{
  ◌≡◌, refl, sym, ap, ◌∙◌, List, [], ◌∷◌, ◌++◌, Result, ok, length, take, take-append, append_assoc,
  append-nil,
}
use aegisdb_core.Prelude.Bytes.{Bytes}
use aegisdb_core.Engine.{
  BatchEntry, put, delete, WriteBatch, new_batch, set_cf, unset_cf, set_safe_point,
  rollback_to_safe_point, key_with_cf, applied, Db, write_to_db, write_entries,
}

-- A call that adds to a batch.
pub data BatchCall : Type 0 where
  set : Bytes → Bytes → Bytes → BatchCall
  unset : Bytes → Bytes → BatchCall

abbrev pub call : BatchCall → WriteBatch → WriteBatch
call (set cf key value) wb = set_cf cf key value wb
call (unset cf key) wb = unset_cf cf key wb

unfoldable pub calls : List BatchCall → WriteBatch → WriteBatch
calls [] wb = wb
calls (c ∷ cs) wb = calls cs (call c wb)

abbrev pub entry_of : BatchCall → BatchEntry
entry_of (set cf key value) = put (key_with_cf cf key) value
entry_of (unset cf key) = delete (key_with_cf cf key)

abbrev pub entries_of : List BatchCall → List BatchEntry
entries_of [] = []
entries_of (c ∷ cs) = entry_of c ∷ entries_of cs

call-entries :
    (c : BatchCall) (wb : WriteBatch) → (call c wb).entries ≡ wb.entries ++ (entry_of c ∷ [])
call-entries (set cf key value) wb = refl
call-entries (unset cf key) wb = refl

pub calls-entries :
    (cs : List BatchCall) (wb : WriteBatch) → (calls cs wb).entries ≡ wb.entries ++ entries_of cs
unfolding calls
calls-entries [] wb = sym (append-nil wb.entries)
calls-entries (c ∷ cs) wb =
    calls-entries cs (call c wb)
    ∙ ap (λ es. es ++ entries_of cs) (call-entries c wb)
    ∙ append_assoc wb.entries (entry_of c ∷ []) (entries_of cs)

call-safe_point :
    (c : BatchCall) (wb : WriteBatch)
    → ((call c wb).safe_point ≡ wb.safe_point) × ((call c wb).safe_point_size ≡ wb.safe_point_size)
call-safe_point (set cf key value) wb = (refl, refl)
call-safe_point (unset cf key) wb = (refl, refl)

calls-safe_point :
    (cs : List BatchCall) (wb : WriteBatch)
    → ((calls cs wb).safe_point ≡ wb.safe_point)
      × ((calls cs wb).safe_point_size ≡ wb.safe_point_size)
unfolding calls
calls-safe_point [] wb = (refl, refl)
calls-safe_point (c ∷ cs) wb =
    let (p, q) = calls-safe_point cs (call c wb) in
    let (r, s) = call-safe_point c wb in (p ∙ r, q ∙ s)

rolled_back :
    (wb after : WriteBatch) (more : List BatchEntry)
    → after.entries ≡ wb.entries ++ more
    → after.safe_point ≡ length wb.entries
    → after.safe_point_size ≡ wb.size
    → rollback_to_safe_point after ≡ set_safe_point wb
rolled_back wb after more e p q = λ i. record {
  entries =
      (ap (λ n. take n after.entries) p
          ∙ ap (take (length wb.entries)) e
          ∙ take-append wb.entries more)
        i;
  size = q i;
  safe_point = p i;
  safe_point_size = q i;
}

-- Rolling back to a safe point undoes every call since, and only those: the entries and the size are as
-- when the safe point was set.
pub rollback_lem :
    (cs : List BatchCall) (wb : WriteBatch)
    → rollback_to_safe_point (calls cs (set_safe_point wb)) ≡ set_safe_point wb
rollback_lem cs wb =
    let (p, q) = calls-safe_point cs (set_safe_point wb) in
    rolled_back wb (calls cs (set_safe_point wb)) (entries_of cs)
      (calls-entries cs (set_safe_point wb)) p q

module _ (db : Db) where
  written :
      (es : List BatchEntry) (s s' : db.State)
      → write_entries db s es ≡ (ok tt, s')
      → (key : Bytes) → db.view s' key ≡ applied es key (db.view s key)
  unfolding write_entries applied
  written [] s s' h key = ap (λ (p : Result (Unit {0}) × db.State). db.view p.1 key) (sym h)
  written (e ∷ es) s s' h key = db.write_lem s s' (e ∷ es) h key

  -- A batch that is written leaves at every key what its calls, in order, leave there.
  pub write_batch_lem :
      (cs : List BatchCall) (s s' : db.State)
      → write_to_db db (calls cs new_batch) s ≡ (ok tt, s')
      → (key : Bytes) → db.view s' key ≡ applied (entries_of cs) key (db.view s key)
  unfolding write_to_db
  write_batch_lem cs s s' h key =
      written (entries_of cs) s s' (ap (write_entries db s) (sym (calls-entries cs new_batch)) ∙ h)
        key
