-- ===== src/Prelude/Table.antt =====
-- Maps from integers (std::unordered_map, std::map) as association lists.
use Prim.Native.Nat.{ℕ}
use mathlib.Core.Path.{◌≡◌}
use mathlib.Core.List.{List, [], ◌∷◌}
use mathlib.Core.Option.{Option, none, some}
use native.Mathlib.Omega.{arith}
use brokit.Prelude.Tests.{◌==◌, if◌then◌else◌}

module _ {ℓ} {A : Type ℓ} where
  -- find
  unfoldable pub lookup : ℕ → List (ℕ × A) → Option A
  lookup id [] = none
  lookup id ((j, a) ∷ m) = if j == id then some a else lookup id m

  -- erase
  unfoldable pub remove : ℕ → List (ℕ × A) → List (ℕ × A)
  remove id [] = []
  remove id ((j, a) ∷ m) = let rest = remove id m in if j == id then rest else (j, a) ∷ rest

  -- m[id] = a
  unfoldable pub put : ℕ → A → List (ℕ × A) → List (ℕ × A)
  put id a m = (id, a) ∷ remove id m

  pub lookup-remove :
      (id j : ℕ) (m : List (ℕ × A))
      → lookup j (remove id m) ≡ (if id == j then none else lookup j m)
  unfolding lookup remove
  lookup-remove id j [] = ground arith
  lookup-remove id j ((k, a) ∷ m) = ground (arith, lookup-remove id j m)

  pub lookup-put :
      (id j : ℕ) (a : A) (m : List (ℕ × A))
      → lookup j (put id a m) ≡ (if id == j then some a else lookup j m)
  unfolding lookup put
  lookup-put id j a m = ground (arith, lookup-remove id j m)
