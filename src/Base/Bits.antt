-- ===== src/Base/Bits.antt =====
-- Laws of the native bit operations at variables: the step of the lowest digit, halving, a low
-- mask, and the sum of disjoint fields.
use Prim.Native.Nat.{
  ℕ, zero, suc, ◌+◌, ◌-◌, ◌*◌, ◌/◌, ◌%◌, ◌^◌, ◌≤◌, ◌<◌, max, min, bit_xor, bit_xor-bitwise, differ,
}
use Prim.Native.Nat.{bit_and, bit_or, digits, bitwise, bit_and-bitwise, bit_or-bitwise}
use mathlib.Core.Path.{◌≡◌, refl, ap}
use native.Mathlib.Nat.{pow-suc, one-le-pow}
use native.Mathlib.Omega.{arith}

-- The native operations recur on binary digits with fuel; the fuel does not matter.
module _ (last : ℕ → ℕ) (digit : ℕ → ℕ → ℕ) where
  digits_any_fuel :
      (f g a b : ℕ) → a ≤ f → a ≤ g → digits last digit f a b ≡ digits last digit g a b
  digits_any_fuel zero zero a b hf hg = refl
  digits_any_fuel zero (suc g) zero b hf hg = refl
  digits_any_fuel zero (suc g) (suc a) b hf hg = absurd (omega arith)
  digits_any_fuel (suc f) zero zero b hf hg = refl
  digits_any_fuel (suc f) zero (suc a) b hf hg = absurd (omega arith)
  digits_any_fuel (suc f) (suc g) zero b hf hg = refl
  digits_any_fuel (suc f) (suc g) (suc a) b hf hg =
      rw (digits_any_fuel f g (suc a / 2) (b / 2) (omega arith) (omega arith))

  bitwise_step :
      (a b : ℕ)
      → bitwise last digit (suc a) b
        ≡ bitwise last digit (suc a / 2) (b / 2) * 2 + digit (suc a % 2) (b % 2)
  bitwise_step a b =
      omega (arith, digits_any_fuel a (suc a / 2) (suc a / 2) (b / 2) (omega arith) (omega arith))

pub and_step : (a b : ℕ) → bit_and a b ≡ bit_and (a / 2) (b / 2) * 2 + min (a % 2) (b % 2)
and_step zero b = simp bit_and-bitwise (omega arith)
and_step (suc a) b = simp bit_and-bitwise (bitwise_step (λ y. 0) min a b)

pub or_step : (a b : ℕ) → bit_or a b ≡ bit_or (a / 2) (b / 2) * 2 + max (a % 2) (b % 2)
or_step zero b = simp bit_or-bitwise (omega arith)
or_step (suc a) b = simp bit_or-bitwise (bitwise_step (λ y. y) max a b)

-- By recursion on a bound of the number.
and_zero_below : (k a : ℕ) → a ≤ k → bit_and a 0 ≡ 0
and_zero_below k zero h = refl
and_zero_below zero (suc a) h = absurd (omega arith)
and_zero_below (suc k) (suc a) h =
    omega (arith, and_step (suc a) 0, and_zero_below k (suc a / 2) (omega arith))

or_zero_below : (k a : ℕ) → a ≤ k → bit_or a 0 ≡ a
or_zero_below k zero h = refl
or_zero_below zero (suc a) h = absurd (omega arith)
or_zero_below (suc k) (suc a) h =
    omega (arith, or_step (suc a) 0, or_zero_below k (suc a / 2) (omega arith))

pub and-zero : (a : ℕ) → bit_and a 0 ≡ 0
and-zero a = and_zero_below a a (omega arith)

or-zero : (a : ℕ) → bit_or a 0 ≡ a
or-zero a = or_zero_below a a (omega arith)

pub and-one : (a : ℕ) → bit_and a 1 ≡ a % 2
and-one a = omega (arith, and_step a 1, and-zero (a / 2))

twice_pow : (q k : ℕ) → q * 2 ^ suc k ≡ 2 * (q * 2 ^ k)
twice_pow q k = omega (arith, ap (λ (t : ℕ). q * t) (pow-suc 2 k))

-- Low bits on the left, a shifted field on the right.
pub or_fields : (k r q : ℕ) → r < 2 ^ k → bit_or r (q * 2 ^ k) ≡ r + q * 2 ^ k
or_fields zero zero q h = simp bit_or-bitwise (omega arith)
or_fields zero (suc r) q h = absurd (omega arith)
or_fields (suc k) r q h = ground (
  arith,
  or_step r (q * 2 ^ suc k),
  twice_pow q k,
  pow-suc 2 k,
  or_fields k (r / 2) q (omega (arith, pow-suc 2 k)),
)

-- A mask of `k` ones keeps the remainder by `2 ^ k`.
and_low_fields : (k q r : ℕ) → r < 2 ^ k → bit_and (q * 2 ^ k + r) (2 ^ k - 1) ≡ r
and_low_fields zero q r h = rw and-zero (omega arith)
and_low_fields (suc k) q r h = ground (
  arith,
  and_step (q * 2 ^ suc k + r) (2 ^ suc k - 1),
  twice_pow q k,
  pow-suc 2 k,
  and_low_fields k q (r / 2) (omega (arith, pow-suc 2 k)),
)

pub and_low_mask : (k a : ℕ) → bit_and a (2 ^ k - 1) ≡ a % 2 ^ k
and_low_mask k a = ground (arith, one-le-pow k 2, and_low_fields k (a / 2 ^ k) (a % 2 ^ k))

xor_step : (a b : ℕ) → bit_xor a b ≡ bit_xor (a / 2) (b / 2) * 2 + differ (a % 2) (b % 2)
xor_step zero b = simp bit_xor-bitwise (digit_zero b)
  where
    digit_zero : (n : ℕ) → n ≡ n / 2 * 2 + n % 2
    digit_zero n = omega arith
xor_step (suc a) b = simp bit_xor-bitwise (bitwise_step (λ y. y) differ a b)

differ-zero : (a : ℕ) → differ a 0 ≡ a
differ-zero zero = refl
differ-zero (suc a) = refl

xor_zero_below : (k a : ℕ) → a ≤ k → bit_xor a 0 ≡ a
xor_zero_below k zero h = refl
xor_zero_below zero (suc a) h = absurd (omega arith)
xor_zero_below (suc k) (suc a) h =
    omega (
      arith,
      xor_step (suc a) 0,
      xor_zero_below k (suc a / 2) (omega arith),
      differ-zero (suc a % 2),
    )

-- A field above the low bits, and the low bits.
pub xor_fields : (k q r : ℕ) → r < 2 ^ k → bit_xor (q * 2 ^ k) r ≡ q * 2 ^ k + r
xor_fields zero q zero h = omega (arith, xor_zero_below (q * 1) (q * 1) (omega arith))
xor_fields zero q (suc r) h = absurd (omega arith)
xor_fields (suc k) q r h = ground (
  arith,
  xor_step (q * 2 ^ suc k) r,
  twice_pow q k,
  pow-suc 2 k,
  xor_fields k q (r / 2) (omega (arith, pow-suc 2 k)),
)
