-- ===== src/Prelude/Slices.antt =====
-- Slices of a vector, which panic out of range.
use Prim.Native.Nat.{ℕ, ◌+◌, ◌-◌}
use mathlib.Core.Bool.{◌&&◌}
use mathlib.Core.List.{List}
use aegisdb_core.Prelude.Tests.{leb, if◌then◌else◌}
use aegisdb_core.Prelude.Lists.{length, take, drop}
use aegisdb_core.Prelude.Outcomes.{Result, ok, panic}

module _ {ℓ} {A : Type ℓ} where
  -- `xs[lo..hi]`
  abbrev pub slice : ℕ → ℕ → List A → Result (List A)
  slice lo hi xs =
      if leb lo hi && leb hi (length xs) then ok (take (hi - lo) (drop lo xs)) else panic

  -- `xs[lo..=hi]`
  abbrev pub slice_inclusive : ℕ → ℕ → List A → Result (List A)
  slice_inclusive lo hi xs = slice lo (hi + 1) xs

  -- `xs[lo..]`
  abbrev pub slice_from : ℕ → List A → Result (List A)
  slice_from lo xs = slice lo (length xs) xs
