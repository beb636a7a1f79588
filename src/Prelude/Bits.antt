-- ===== src/Prelude/Bits.antt =====
-- The bit operations of C++ on unsigned words, read as arithmetic: a mask of ones is a remainder,
-- and the `|` of disjoint fields is a sum.
use Prim.Native.Nat.{
  ℕ, zero, suc, ◌+◌, ◌*◌, ◌/◌, ◌%◌, ◌^◌, ◌≤◌, ◌<◌, min, max, bit_and, bit_or, digits,
  bit_and-bitwise, bit_or-bitwise,
}
use mathlib.Core.Path.{◌≡◌, refl, sym, ap, ◌∙◌}
use mathlib.Core.Bool.{Bool, true, ◌&&◌}
use native.Mathlib.Nat.{pow-suc}
use native.Mathlib.Omega.{arith}

-- The fuel of the digit recursion does not matter once it covers the first operand.
module _ (rest : ℕ → ℕ) (bit : ℕ → ℕ → ℕ) where
  fuel_irrelevant : (m n a b : ℕ) → a ≤ m → a ≤ n → digits rest bit m a b ≡ digits rest bit n a b
  fuel_irrelevant (suc m) (suc n) (suc a) b h k =
      ground (arith, fuel_irrelevant m n (suc a / 2) (b / 2) (omega arith) (omega arith))
  fuel_irrelevant zero n (suc a) b h _ = absurd (omega arith)
  fuel_irrelevant (suc m) zero (suc a) b _ k = absurd (omega arith)
  fuel_irrelevant m n zero b _ _ = spent m ∙ sym (spent n)
    where
      spent : (n : ℕ) → digits rest bit n zero b ≡ rest b
      spent zero = refl
      spent (suc n) = refl

-- One equation for the lowest bit.
and_low : (a b : ℕ) → bit_and a b ≡ bit_and (a / 2) (b / 2) * 2 + min (a % 2) (b % 2)
and_low zero b = omega (arith, bit_and-bitwise 0 b, bit_and-bitwise 0 (b / 2))
and_low (suc a) b = omega (
  arith,
  bit_and-bitwise (suc a) b,
  bit_and-bitwise (suc a / 2) (b / 2),
  fuel_irrelevant (λ _. 0) min a (suc a / 2) (suc a / 2) (b / 2) (omega arith) (omega arith),
)

or_low : (a b : ℕ) → bit_or a b ≡ bit_or (a / 2) (b / 2) * 2 + max (a % 2) (b % 2)
or_low zero b = omega (arith, bit_or-bitwise 0 b, bit_or-bitwise 0 (b / 2))
or_low (suc a) b = omega (
  arith,
  bit_or-bitwise (suc a) b,
  bit_or-bitwise (suc a / 2) (b / 2),
  fuel_irrelevant (λ b. b) max a (suc a / 2) (suc a / 2) (b / 2) (omega arith) (omega arith),
)

bit_and-zero : (n a : ℕ) → a ≤ n → bit_and a 0 ≡ 0
bit_and-zero n zero h = refl
bit_and-zero zero (suc a) h = absurd (omega arith)
bit_and-zero (suc n) (suc a) h =
    omega (arith, and_low (suc a) 0, bit_and-zero n (suc a / 2) (omega arith))

bit_or-zero_fuel : (n a : ℕ) → a ≤ n → bit_or a 0 ≡ a
bit_or-zero_fuel n zero h = refl
bit_or-zero_fuel zero (suc a) h = absurd (omega arith)
bit_or-zero_fuel (suc n) (suc a) h =
    omega (arith, or_low (suc a) 0, bit_or-zero_fuel n (suc a / 2) (omega arith))

pub bit_or-zero : (a : ℕ) → bit_or a 0 ≡ a
bit_or-zero a = bit_or-zero_fuel a a (omega arith)

-- `x & 0x3F` keeps the low six bits.
pub bit_and_63 : (a : ℕ) → bit_and a 63 ≡ a % 64
bit_and_63 a = omega (
  arith,
  and_low a 63,
  and_low (a / 2) 31,
  and_low (a / 2 / 2) 15,
  and_low (a / 2 / 2 / 2) 7,
  and_low (a / 2 / 2 / 2 / 2) 3,
  and_low (a / 2 / 2 / 2 / 2 / 2) 1,
  bit_and-zero (a / 2 / 2 / 2 / 2 / 2 / 2) (a / 2 / 2 / 2 / 2 / 2 / 2) (omega arith),
)

-- `(hi << k) | lo` is a sum, if `lo` has k bits.
pub bit_or_shifted : (k hi lo : ℕ) → lo < 2 ^ k → bit_or (hi * 2 ^ k) lo ≡ hi * 2 ^ k + lo
bit_or_shifted zero hi lo h =
    let none_left : lo ≡ 0 = omega arith in
    let unshifted : hi * 2 ^ 0 ≡ hi = omega arith in
    rw (none_left, unshifted) (omega (arith, bit_or-zero hi))
bit_or_shifted (suc k) hi lo h =
    let double : hi * 2 ^ suc k ≡ 2 * (hi * 2 ^ k) =
      omega (arith, ap (λ (t : ℕ). hi * t) (pow-suc 2 k)) in
    ground (arith, double, pow-suc 2 k, or_low (hi * 2 ^ suc k) lo, bit_or_shifted k hi (lo / 2))

-- The test holds at every number below a bound.
unfoldable pub passes_below : (test : ℕ → Bool) → ℕ → Bool
passes_below test (suc bound) = passes_below test bound && test bound
passes_below test zero = true

both : (a b : Bool) → (a && b) ≡ true → (a ≡ true) × (b ≡ true)
both a b h = (ground arith, ground arith)

pub passes_below_sound :
    (test : ℕ → Bool) (bound : ℕ)
    → passes_below test bound ≡ true
    → (k : ℕ) → k < bound
    → test k ≡ true
unfolding passes_below
passes_below_sound test (suc bound) passed k near =
    let (before, last) = both (passes_below test bound) (test bound) passed in
    ground (arith, passes_below_sound test bound before k, last)
passes_below_sound test zero passed k near = absurd (omega arith)
