-- ===== src/Prelude/Bits.antt =====
-- The bitwise operations at variables: `x << k | y` is a sum where `y` fits in `k` bits, and a
-- fact about one byte is checked for all its values.
use Prim.Native.Nat.{
  ℕ, zero, suc, ◌+◌, ◌*◌, ◌/◌, ◌%◌, ◌^◌, ◌≤◌, ◌<◌, max, bit_or, digits, bit_or-bitwise,
}
use mathlib.Core.Path.{◌≡◌, refl, sym, ap, subst}
use mathlib.Core.Bool.{Bool, true, ◌&&◌}
use native.Mathlib.Omega.{arith}
use native.Mathlib.Nat.{pow-suc}

unfoldable pub check_below : ℕ → (ℕ → Bool) → Bool
check_below zero p = true
check_below (suc n) p = p n && check_below n p

pub below-check :
    (bound : ℕ) (test : ℕ → Bool) (n : ℕ)
    → check_below bound test ≡ true
    → n < bound
    → test n ≡ true
unfolding check_below
below-check zero test n all lt = absurd (omega arith)
below-check (suc bound) test n all lt = ground (arith, below-check bound test n)

abbrev or_digits : ℕ → ℕ → ℕ → ℕ
or_digits n a b = digits (λ y. y) max n a b

or_digits_fuel : (n m a b : ℕ) → a ≤ n → a ≤ m → or_digits n a b ≡ or_digits m a b
or_digits_fuel zero zero a b p q = refl
or_digits_fuel zero (suc m) zero b p q = refl
or_digits_fuel zero (suc m) (suc a) b p q = absurd (omega arith)
or_digits_fuel (suc n) zero zero b p q = refl
or_digits_fuel (suc n) zero (suc a) b p q = absurd (omega arith)
or_digits_fuel (suc n) (suc m) zero b p q = refl
or_digits_fuel (suc n) (suc m) (suc a) b p q =
    omega (arith, or_digits_fuel n m (suc a / 2) (b / 2) (omega arith) (omega arith))

zero-bit_or : (b : ℕ) → bit_or 0 b ≡ b
zero-bit_or b = bit_or-bitwise 0 b

bit_or_step : (a b : ℕ) → bit_or a b ≡ bit_or (a / 2) (b / 2) * 2 + max (a % 2) (b % 2)
bit_or_step zero b = omega (arith, zero-bit_or b, zero-bit_or (b / 2))
bit_or_step (suc a) b = omega (
  arith,
  bit_or-bitwise (suc a) b,
  bit_or-bitwise (suc a / 2) (b / 2),
  or_digits_fuel a (suc a / 2) (suc a / 2) (b / 2) (omega arith) (omega arith),
)

bit_or-zero_fuel : (n a : ℕ) → a ≤ n → bit_or a 0 ≡ a
bit_or-zero_fuel n zero h = refl
bit_or-zero_fuel zero (suc a) h = absurd (omega arith)
bit_or-zero_fuel (suc n) (suc a) h =
    omega (arith, bit_or_step (suc a) 0, bit_or-zero_fuel n (suc a / 2) (omega arith))

bit_or-twice : (m y : ℕ) → bit_or m (y / 2) ≡ m + y / 2 → bit_or (m * 2) y ≡ m * 2 + y
bit_or-twice m y h =
    let half : m * 2 / 2 ≡ m = omega arith in
    let step : bit_or (m * 2) y ≡ bit_or m (y / 2) * 2 + max (m * 2 % 2) (y % 2) =
      subst (λ t. bit_or (m * 2) y ≡ bit_or t (y / 2) * 2 + max (m * 2 % 2) (y % 2)) half
        (bit_or_step (m * 2) y) in
    omega arith

-- `x << k | y` for a `y` of at most `k` bits.
pub bit_or-shift : (k x y : ℕ) → y < 2 ^ k → bit_or (x * 2 ^ k) y ≡ x * 2 ^ k + y
bit_or-shift zero x zero h = omega (arith, bit_or-zero_fuel (x * 1) (x * 1) (omega arith))
bit_or-shift zero x (suc y) h = absurd (omega arith)
bit_or-shift (suc k) x y h =
    let twice : x * 2 ^ suc k ≡ x * 2 ^ k * 2 = omega (arith, ap (λ t. x * t) (pow-suc 2 k)) in
    let room : y < 2 ^ k * 2 = omega (arith, pow-suc 2 k) in
    subst (λ t. bit_or t y ≡ t + y) (sym twice)
      (bit_or-twice (x * 2 ^ k) y (bit_or-shift k x (y / 2) (omega arith)))
