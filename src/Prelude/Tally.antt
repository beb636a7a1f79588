-- ===== src/Prelude/Tally.antt =====
-- How many entries of a list pass a test.
use Prim.Native.Nat.{ℕ, suc, ◌+◌}
use mathlib.Core.Path.{◌≡◌}
use mathlib.Core.Bool.{Bool}
use mathlib.Core.List.{List, [], ◌∷◌, ◌++◌}
use native.Mathlib.Omega.{arith}
use brokit.Prelude.Tests.{if◌then◌else◌}

module _ {A : Type 0} (f : A → Bool) where
  unfoldable pub tally : List A → ℕ
  tally [] = 0
  tally (e ∷ es) = let rest = tally es in if f e then suc rest else rest

  pub tally-append : (es fs : List A) → tally (es ++ fs) ≡ tally es + tally fs
  unfolding tally
  tally-append [] fs = omega arith
  tally-append (e ∷ es) fs = ground (arith, tally-append es fs)

  pub tally-none : (es fs : List A) → tally es ≡ 0 → tally (es ++ fs) ≡ tally fs
  tally-none es fs h = omega (arith, h, tally-append es fs)
