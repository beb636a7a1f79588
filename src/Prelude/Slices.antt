-- ===== src/Prelude/Slices.antt =====
-- Parts of a list, put together and taken one after the other.
use Prim.Native.Nat.{ℕ, zero, suc, ◌+◌, ◌≤◌}
use mathlib.Core.Path.{◌≡◌, refl, ap}
use mathlib.Core.List.{List, [], ◌∷◌, ◌++◌}
use native.Mathlib.Omega.{arith}
use brokit.Prelude.Lists.{length, take, drop}

module _ {ℓ} {A : Type ℓ} where
  pub take-length : (n : ℕ) (s : List A) → length s ≤ n → take n s ≡ s
  take-length zero [] h = refl
  take-length zero (c ∷ s) h = absurd (omega arith)
  take-length (suc n) [] h = refl
  take-length (suc n) (c ∷ s) h = ap (◌∷◌ c) (take-length n s (omega arith))

  pub drop-length : (n : ℕ) (s : List A) → length s ≤ n → drop n s ≡ []
  drop-length zero [] h = refl
  drop-length zero (c ∷ s) h = absurd (omega arith)
  drop-length (suc n) [] h = refl
  drop-length (suc n) (c ∷ s) h = drop-length n s (omega arith)

  pub take-nil : (n : ℕ) → take {A = A} n [] ≡ []
  take-nil zero = refl
  take-nil (suc n) = refl

  pub drop-nil : (n : ℕ) → drop {A = A} n [] ≡ []
  drop-nil zero = refl
  drop-nil (suc n) = refl

  pub take-append-take : (k n : ℕ) (s : List A) → take k s ++ take n (drop k s) ≡ take (k + n) s
  take-append-take zero n s = let e : 0 + n ≡ n = omega arith in rw e refl
  take-append-take (suc k) n [] = rw (take-nil n, take-nil (suc k + n)) refl
  take-append-take (suc k) n (c ∷ s) =
      let e : suc k + n ≡ suc (k + n) = omega arith in rw e (ap (◌∷◌ c) (take-append-take k n s))

  pub drop-drop : (k n : ℕ) (s : List A) → drop n (drop k s) ≡ drop (k + n) s
  drop-drop zero n s = let e : 0 + n ≡ n = omega arith in rw e refl
  drop-drop (suc k) n [] = rw (drop-nil n, drop-nil (suc k + n)) refl
  drop-drop (suc k) n (c ∷ s) =
      let e : suc k + n ≡ suc (k + n) = omega arith in rw e (drop-drop k n s)
