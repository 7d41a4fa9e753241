-- ===== src/Vm/Arith/Power.antt =====
-- EXP of vm.c: what it returns is a power.
use native.Mathlib.Nat.{pow-suc, pow-zero}
use manhattan_group.Base.{
  ℕ, zero, suc, ◌+◌, ◌*◌, ◌/◌, ◌%◌, ◌^◌, ◌≡◌, refl, ◌∙◌, ap, Bool, true, false, arith, Bool-cases,
  inl, inr, ◌==◌, if◌then◌else◌,
}
use manhattan_group.Base.{ℤ, pos, ltb_ℤ, ◌*ℤ◌}
use manhattan_group.Base.Bits.{and-one}
use manhattan_group.Vm.Outcome.{ok, Returns, Returns-bind, Returns-exit_if, exponent_overflow}
use manhattan_group.Vm.Int64.{checked, mul64, fits64}
use manhattan_group.Vm.Arith.{exp, exp_loop, exp_multiply, exp_square}
use manhattan_group.Vm.Arith.Rounds.{multiplied, exp_loop_done, exp_loop_round}

-- Squares and halves.
pub square_pow : (a k : ℕ) → (a * a) ^ k ≡ a ^ (k + k)
square_pow a zero = simp pow-zero
square_pow a (suc k) =
    pow-suc (a * a) k
    ∙ ap (λ (t : ℕ). t * (a * a)) (square_pow a k)
    ∙ two_factors a (k + k)
    ∙ ap (λ (t : ℕ). a ^ t) (let e : suc (suc (k + k)) ≡ suc k + suc k = omega arith in e)
  where
    two_factors : (a m : ℕ) → a ^ m * (a * a) ≡ a ^ suc (suc m)
    two_factors a m = grind (arith, pow-suc a m, pow-suc a (suc m))

abbrev pub odd_part : ℕ → ℕ → ℕ
odd_part n a = if n % 2 == 1 then a else 1

pow_halves : (a n : ℕ) → odd_part n a * (a * a) ^ (n / 2) ≡ a ^ n
pow_halves a n = elim (Bool-cases (n % 2 == 1)) [
  | inl e ↦
      rw (e, square_pow a (n / 2))
        (mul_pow a (n / 2 + n / 2)
          ∙ ap (λ (t : ℕ). a ^ t) (let h : suc (n / 2 + n / 2) ≡ n = ground arith in h))
  | inr e ↦
      rw (e, square_pow a (n / 2))
        (one_pow (a ^ (n / 2 + n / 2))
          ∙ ap (λ (t : ℕ). a ^ t) (let h : n / 2 + n / 2 ≡ n = ground arith in h))
]
  where
    mul_pow : (a m : ℕ) → a * a ^ m ≡ a ^ suc m
    mul_pow a m = grind (arith, pow-suc a m)

    one_pow : (m : ℕ) → 1 * m ≡ m
    one_pow m = omega arith

-- The operations of the loop on values that are not negative.
pub mul64_pos : (x y : ℕ) → mul64 (pos x) (pos y) ≡ checked (pos (x * y))
unfolding mul64 ◌*ℤ◌
mul64_pos x y = ap checked (value x y)
  where
    value : (x y : ℕ) → pos x *ℤ pos y ≡ pos (x * y)
    value x y = unfold ◌*ℤ◌ in grind arith

abbrev Is : ℕ → ℤ → Type 0
Is n v = v ≡ pos n

checked-Is : (n : ℕ) → Returns (Is n) (checked (pos n))
unfolding checked
checked-Is n = elim (Bool-cases (fits64 (pos n))) [ inl e ↦ rw e refl | inr e ↦ rw e tt ]

exp_multiply-Is : (r a : ℕ) → Returns (Is (r * a)) (exp_multiply (pos r) (pos a))
unfolding exp_multiply
exp_multiply-Is r a = rw (mul64_pos r a) (
    Returns-bind (Is (r * a)) (Is (r * a)) (checked (pos (r * a))) _ (checked-Is (r * a))
      λ p e. Returns-exit_if (Is (r * a)) (ltb_ℤ p (pos a)) exponent_overflow (ok p) e)

exp_square-Is : (a : ℕ) → Returns (Is (a * a)) (exp_square (pos a))
unfolding exp_square
exp_square-Is a = rw (mul64_pos a a) (
    Returns-bind (Is (a * a)) (Is (a * a)) (checked (pos (a * a))) _ (checked-Is (a * a))
      λ p e. Returns-exit_if (Is (a * a)) (ltb_ℤ p (pos 1)) exponent_overflow (ok p) e)

multiplied-Is : (n r a : ℕ) → Returns (Is (r * odd_part n a)) (multiplied n (pos r) (pos a))
multiplied-Is n r a = rw (and-one n) (split (n % 2 == 1))
  where
    split :
        (b : Bool)
        → Returns
            (Is (r * (if b then a else 1)))
            (if b then exp_multiply (pos r) (pos a) else ok (pos r))
    split true = exp_multiply-Is r a
    split false = ap pos (let e : r ≡ r * 1 = omega arith in e)

pub mul_halves : (r a n : ℕ) → r * odd_part n a * (a * a) ^ (n / 2) ≡ r * a ^ n
mul_halves r a n =
    regroup r (odd_part n a) ((a * a) ^ (n / 2)) ∙ ap (λ (t : ℕ). r * t) (pow_halves a n)
  where
    regroup : (x y z : ℕ) → x * y * z ≡ x * (y * z)
    regroup x y z = grind arith

pub times_pow_zero : (r a n : ℕ) → n ≡ 0 → r ≡ r * a ^ n
times_pow_zero r a n e = rw (e, pow-zero a) (omega arith)

exp_loop-Is : (f r a n : ℕ) → Returns (Is (r * a ^ n)) (exp_loop f (pos r) (pos a) n)
exp_loop-Is zero r a n = unfold exp_loop in tt
exp_loop-Is (suc f) r a n = elim (Bool-cases (n == 0)) [
  | inl e ↦ rw (exp_loop_done f (pos r) (pos a) n e) (ap pos (times_pow_zero r a n (ground arith)))
  | inr e ↦ rw (exp_loop_round f (pos r) (pos a) n e) (
      Returns-bind (Is (r * odd_part n a)) (Is (r * a ^ n)) (multiplied n (pos r) (pos a)) _
        (multiplied-Is n r a)
        λ r' er.
          Returns-bind (Is (a * a)) (Is (r * a ^ n)) (exp_square (pos a)) _ (exp_square-Is a)
            λ a' ea.
              rw (er, ea, ← mul_halves r a n) (exp_loop-Is f (r * odd_part n a) (a * a) (n / 2)))
]

-- What EXP returns for a base and an exponent that are not negative, if it returns, is the power.
pub exp_is_power : (a n : ℕ) → Returns (λ v. v ≡ pos (a ^ n)) (exp (pos a) (pos n))
unfolding exp
exp_is_power a n = rw (one_times (a ^ n)) at (exp_loop-Is 64 1 a n)
  where
    one_times : (m : ℕ) → 1 * m ≡ m
    one_times m = omega arith
