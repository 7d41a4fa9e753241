-- ===== src/Vm/Arith/PowerFits.antt =====
-- EXP of vm.c: where it returns a power.
use native.Mathlib.Nat.{pow-suc, pow-zero, pow-le-pow_right, one-le-pow}
use manhattan_group.Base.{
  ℕ, zero, suc, ◌+◌, ◌*◌, ◌/◌, ◌%◌, ◌^◌, ◌≤◌, ◌<◌, ◌≡◌, ◌∙◌, ap, Bool, true, false, arith,
  Bool-cases, inl, inr, ◌⊎◌, ◌==◌, if◌then◌else◌,
}
use manhattan_group.Base.{pos, ltb_ℤ}
use manhattan_group.Base.Bits.{and-one}
use manhattan_group.Vm.Outcome.{ok, ◌>>◌, exit_if, exponent_overflow}
use manhattan_group.Vm.Int64.Range.{checked_fits}
use manhattan_group.Vm.Arith.{exp, exp_loop, exp_multiply, exp_square}
use manhattan_group.Vm.Arith.Rounds.{multiplied, exp_loop_done, exp_loop_round}
use manhattan_group.Vm.Arith.Power.{square_pow, odd_part, mul64_pos, mul_halves, times_pow_zero}

-- The conditions under which the loop meets no overflow.
record Small (r a n : ℕ) : Type 0 where
  result_pos : 1 ≤ r
  base_pos : 1 ≤ a
  power : r * a ^ n < 2 ^ 63
  squares : (n ≡ 0) ⊎ (a ^ (n + n) < 2 ^ 63)

odd_part-pos : (n a : ℕ) → 1 ≤ a → 1 ≤ odd_part n a
odd_part-pos n a h = ground arith

Small-next : (r a n : ℕ) → 0 < n → Small r a n → Small (r * odd_part n a) (a * a) (n / 2)
Small-next r a n h s = record {
  result_pos = product_pos r (odd_part n a) s.result_pos (odd_part-pos n a s.base_pos);
  base_pos = product_pos a a s.base_pos s.base_pos;
  power = rw (mul_halves r a n) s.power;
  squares = elim (Bool-cases (n / 2 == 0)) [
    | inl e ↦ inl (ground arith)
    | inr e ↦ inr (rw (square_pow a (n / 2 + n / 2)) (smaller s.squares))
  ];
}
  where
    product_pos : (x y : ℕ) → 1 ≤ x → 1 ≤ y → 1 ≤ x * y
    product_pos x y hx hy = grind arith

    smaller : (n ≡ 0) ⊎ (a ^ (n + n) < 2 ^ 63) → a ^ (n / 2 + n / 2 + (n / 2 + n / 2)) < 2 ^ 63
    smaller (inl e) = absurd (omega arith)
    smaller (inr l) = omega (
      arith,
      pow-le-pow_right {n = a} s.base_pos {i = n / 2 + n / 2 + (n / 2 + n / 2)} {j = n + n}
          (omega arith),
    )

exp_multiply_fits :
    (r a : ℕ) → 1 ≤ r → r * a < 2 ^ 63 → exp_multiply (pos r) (pos a) ≡ ok (pos (r * a))
unfolding exp_multiply
exp_multiply_fits r a positive fits =
    rw (mul64_pos r a, checked_fits (pos (r * a)) fits) (test (r * a) (at_least r a positive))
  where
    at_least : (r a : ℕ) → 1 ≤ r → a ≤ r * a
    at_least r a h = grind arith

    test :
        (p : ℕ)
        → a ≤ p
        → (exit_if (ltb_ℤ (pos p) (pos a)) exponent_overflow >> ok (pos p)) ≡ ok (pos p)
    test p h = ground arith

exp_square_fits : (a : ℕ) → 1 ≤ a → a * a < 2 ^ 63 → exp_square (pos a) ≡ ok (pos (a * a))
unfolding exp_square
exp_square_fits a positive fits =
    rw (mul64_pos a a, checked_fits (pos (a * a)) fits) (test (a * a) (square_pos a positive))
  where
    square_pos : (a : ℕ) → 1 ≤ a → 1 ≤ a * a
    square_pos a h = grind arith

    test :
        (p : ℕ)
        → 1 ≤ p
        → (exit_if (ltb_ℤ (pos p) (pos 1)) exponent_overflow >> ok (pos p)) ≡ ok (pos p)
    test p h = ground arith

module _ (r a n : ℕ) (positive : 0 < n) (s : Small r a n) where
  multiplied_fits : multiplied n (pos r) (pos a) ≡ ok (pos (r * odd_part n a))
  multiplied_fits = rw (and-one n) (split (n % 2 == 1) fits)
    where
      factor : (x y : ℕ) → 1 ≤ y → x * y < 2 ^ 63 → x < 2 ^ 63
      factor x y h l = grind arith

      next : Small (r * odd_part n a) (a * a) (n / 2)
      next = Small-next r a n positive s

      fits : r * odd_part n a < 2 ^ 63
      fits =
          factor (r * odd_part n a) ((a * a) ^ (n / 2)) (one-le-pow (n / 2) (a * a) next.base_pos)
            next.power

      split :
          (b : Bool)
          → r * (if b then a else 1) < 2 ^ 63
          → (if b then exp_multiply (pos r) (pos a) else ok (pos r))
            ≡ ok (pos (r * (if b then a else 1)))
      split true h = exp_multiply_fits r a s.result_pos h
      split false h = ap (λ (t : ℕ). ok (pos t)) (let e : r ≡ r * 1 = omega arith in e)

  squared_fits : exp_square (pos a) ≡ ok (pos (a * a))
  squared_fits = exp_square_fits a s.base_pos (fits s.squares)
    where
      two : a ^ 2 ≡ a * a
      two = grind (arith, pow-suc a 1, pow-suc a 0, pow-zero a)

      fits : (n ≡ 0) ⊎ (a ^ (n + n) < 2 ^ 63) → a * a < 2 ^ 63
      fits (inl e) = absurd (omega arith)
      fits (inr l) =
          omega (arith, two, pow-le-pow_right {n = a} s.base_pos {i = 2} {j = n + n} (omega arith))

exp_loop_total :
    (f r a n : ℕ)
    → n < 2 ^ f
    → Small r a n
    → exp_loop (suc f) (pos r) (pos a) n ≡ ok (pos (r * a ^ n))
exp_loop_total zero r a n h s =
    let e : n ≡ 0 = omega (arith, pow-zero 2) in
    exp_loop_done 0 (pos r) (pos a) n (ground arith)
    ∙ ap (λ (t : ℕ). ok (pos t)) (times_pow_zero r a n e)
exp_loop_total (suc f) r a n h s = elim (Bool-cases (n == 0)) [
  | inl e ↦
      exp_loop_done (suc f) (pos r) (pos a) n e
      ∙ ap (λ (t : ℕ). ok (pos t)) (times_pow_zero r a n (ground arith))
  | inr e ↦
      let positive : 0 < n = ground arith in
      rw
        (
          exp_loop_round (suc f) (pos r) (pos a) n e,
          multiplied_fits r a n positive s,
          squared_fits r a n positive s,
          ← mul_halves r a n,
        )
        (exp_loop_total f (r * odd_part n a) (a * a) (n / 2) (omega (arith, pow-suc 2 f))
          (Small-next r a n positive s))
]

-- EXP of a positive base returns the power if the exponent and the power for twice the exponent are
-- below 2 ^ 63.
pub exp_total :
    (a n : ℕ) → 1 ≤ a → n < 2 ^ 63 → a ^ (n + n) < 2 ^ 63 → exp (pos a) (pos n) ≡ ok (pos (a ^ n))
unfolding exp
exp_total a n base_pos fits squares =
    exp_loop_total 63 1 a n fits small ∙ ap (λ (t : ℕ). ok (pos t)) (one_times (a ^ n))
  where
    one_times : (m : ℕ) → 1 * m ≡ m
    one_times m = omega arith

    small : Small 1 a n
    small = record {
      result_pos = omega arith;
      base_pos = base_pos;
      power = omega (arith, pow-le-pow_right {n = a} base_pos {i = n} {j = n + n} (omega arith));
      squares = inr squares;
    }
