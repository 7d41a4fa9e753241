-- ===== src/Vm/Arith/Rounds.antt =====
-- The loop of EXP in vm.c: its rounds, and that it ends within the fuel that it is given.
use native.Mathlib.Nat.{pow-suc, pow-zero}
use manhattan_group.Base.{
  ℕ, zero, suc, ◌/◌, ◌^◌, ◌≤◌, ◌<◌, ◌≡◌, sym, ◌∙◌, true, false, arith, ◌==◌, bit_and, if◌then◌else◌,
  Bool-cases, inl, inr,
}
use manhattan_group.Base.{ℤ, pos}
use manhattan_group.Vm.Outcome.{Result, ok, ◌>>=◌}
use manhattan_group.Vm.Arith.{exp, exp_loop, exp_multiply, exp_square}

-- The multiplication that an odd exponent makes.
abbrev pub multiplied : ℕ → ℤ → ℤ → Result ℤ
multiplied n r a = if bit_and n 1 == 1 then exp_multiply r a else ok r

-- A round of the loop, by its test.
pub exp_loop_done : (f : ℕ) (r a : ℤ) (n : ℕ) → (n == 0) ≡ true → exp_loop (suc f) r a n ≡ ok r
unfolding exp_loop
exp_loop_done f r a n e = rw (e, exp_loop)

pub exp_loop_round :
    (f : ℕ) (r a : ℤ) (n : ℕ)
    → (n == 0) ≡ false
    → exp_loop (suc f) r a n
      ≡ (multiplied n r a >>= λ r'. exp_square a >>= λ a'. exp_loop f r' a' (n / 2))
unfolding exp_loop
exp_loop_round f r a n e = rw (e, exp_loop)

exp_loop_any_fuel :
    (f g : ℕ) (r a : ℤ) (n : ℕ)
    → n < 2 ^ f
    → f ≤ g
    → exp_loop (suc g) r a n ≡ exp_loop (suc f) r a n
exp_loop_any_fuel zero g r a n small le =
    let e : (n == 0) ≡ true = ground (arith, pow-zero 2) in
    exp_loop_done g r a n e ∙ sym (exp_loop_done zero r a n e)
exp_loop_any_fuel (suc f) zero r a n small le = absurd (omega arith)
exp_loop_any_fuel (suc f) (suc g) r a n small le = elim (Bool-cases (n == 0)) [
  | inl e ↦ exp_loop_done (suc g) r a n e ∙ sym (exp_loop_done (suc f) r a n e)
  | inr e ↦
      exp_loop_round (suc g) r a n e
      ∙ (λ i. multiplied n r a >>= λ r'. exp_square a >>= λ a'.
          exp_loop_any_fuel f g r' a' (n / 2) (omega (arith, pow-suc 2 f)) (omega arith) i)
      ∙ sym (exp_loop_round (suc f) r a n e)
]

-- EXP of an exponent from 0 to 2 ^ 63 - 1, whatever the base, does not run out of the rounds that
-- `exp` gives to its loop: every larger number of rounds gives the same result.
pub exp_enough_rounds :
    (f : ℕ) (a : ℤ) (n : ℕ) → n < 2 ^ 63 → 64 ≤ f → exp_loop f (pos 1) a n ≡ exp a (pos n)
unfolding exp
exp_enough_rounds zero a n small le = absurd (omega arith)
exp_enough_rounds (suc f) a n small le = exp_loop_any_fuel 63 f (pos 1) a n small (omega arith)
