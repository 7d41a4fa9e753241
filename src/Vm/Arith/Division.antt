-- ===== src/Vm/Arith/Division.antt =====
-- Division: DIV and MOD are quotient and remainder, the corrections of SDIV and SMOD correct
-- nothing.
use manhattan_group.Base.{
  ℕ, zero, suc, ◌-◌, ◌/◌, ◌%◌, ◌^◌, ◌≤◌, ◌<◌, ◌≡◌, ◌≢◌, refl, true, false, arith, ltb, Bool-cases,
  inl, inr, ◌⊎◌, ap,
}
use manhattan_group.Base.{
  ℤ, pos, negsuc, neg, tdiv, tmod, abs, pos_part, neg_part, eqb_ℤ, ◌+ℤ◌, ◌*ℤ◌,
}
use manhattan_group.Vm.Outcome.{ok}
use manhattan_group.Vm.Int64.{IsInt64, int64_min, div64, mod64}
use manhattan_group.Vm.Int64.Range.{checked_fits, IsInt64→fits64, neg_pos-IsInt64, mod-le}
use manhattan_group.Vm.Arith.{div, rem}

-- The quotient of an `int64_t` leaves the range only for the least value over -1.
div_le : (a b : ℕ) → a / b ≤ a
div_le a b = grind arith

half_or_less : (a b : ℕ) → a / suc (suc b) ≤ a / 2
half_or_less a b = grind arith

abbrev pub Overflows : ℤ → ℤ → Type 0
Overflows a b = (a ≡ int64_min) × (b ≡ negsuc 0)

both_negative : (a b : ℕ) → a < 2 ^ 63 → ¬ Overflows (negsuc a) (negsuc b) → suc a / suc b < 2 ^ 63
both_negative a zero h no_overflow = below_max (Bool-cases (ltb (suc a) (2 ^ 63)))
  where
    below_max : (ltb (suc a) (2 ^ 63) ≡ true) ⊎ (ltb (suc a) (2 ^ 63) ≡ false) → suc a / 1 < 2 ^ 63
    below_max (inl e) = ground arith
    below_max (inr e) =
        absurd (no_overflow (ap negsuc (let m : a ≡ 2 ^ 63 - 1 = ground arith in m), refl))
both_negative a (suc b) h no_overflow = omega (arith, half_or_less (suc a) b)

pub tdiv-IsInt64 : (a b : ℤ) → IsInt64 a → ¬ Overflows a b → IsInt64 (tdiv a b)
unfolding tdiv
tdiv-IsInt64 (pos a) (pos b) h no_overflow = omega (arith, div_le a b)
tdiv-IsInt64 (pos a) (negsuc b) h no_overflow =
    neg_pos-IsInt64 (a / suc b) (omega (arith, div_le a (suc b)))
tdiv-IsInt64 (negsuc a) (pos b) h no_overflow =
    neg_pos-IsInt64 (suc a / b) (omega (arith, div_le (suc a) b))
tdiv-IsInt64 (negsuc a) (negsuc b) h no_overflow = both_negative a b h no_overflow

pub tdiv-tmod : (a b : ℤ) → b ≢ pos 0 → tdiv a b *ℤ b +ℤ tmod a b ≡ a
unfolding tdiv tmod neg ◌+ℤ◌ ◌*ℤ◌
tdiv-tmod a (pos zero) h = absurd (h refl)
tdiv-tmod (pos a) (pos (suc b)) h = grind arith
tdiv-tmod (pos a) (negsuc b) h = grind arith
tdiv-tmod (negsuc a) (pos (suc b)) h = grind arith
tdiv-tmod (negsuc a) (negsuc b) h = grind arith

abs-neg : (n : ℕ) → abs (neg (pos n)) ≡ n
unfolding neg
abs-neg n = ground arith

abs-tmod-lt : (a b : ℤ) → b ≢ pos 0 → abs (tmod a b) < abs b
unfolding tmod
abs-tmod-lt a (pos zero) h = absurd (h refl)
abs-tmod-lt (pos a) (pos (suc b)) h = grind arith
abs-tmod-lt (pos a) (negsuc b) h = grind arith
abs-tmod-lt (negsuc a) (pos (suc b)) h = rw (abs-neg (suc a % suc b)) (grind arith)
abs-tmod-lt (negsuc a) (negsuc b) h = rw (abs-neg (suc a % suc b)) (grind arith)

pub tmod_parts : (a b : ℤ) → (pos_part (tmod a b) ≤ pos_part a) × (neg_part (tmod a b) ≤ neg_part a)
unfolding tmod neg
tmod_parts (pos a) b = (mod-le a (abs b), omega arith)
tmod_parts (negsuc a) b = ground (arith, mod-le (suc a) (abs b))

pub ne_zero : (b : ℤ) → b ≢ pos 0 → eqb_ℤ b (pos 0) ≡ false
ne_zero (pos zero) h = absurd (h refl)
ne_zero (pos (suc b)) h = ground arith
ne_zero (negsuc b) h = ground arith

module _ (a b : ℤ) (ha : IsInt64 a) (hb : b ≢ pos 0) (no_overflow : ¬ Overflows a b) where
  pub div64_lem : div64 a b ≡ ok (tdiv a b)
  unfolding div64
  div64_lem = rw (ne_zero b hb) (checked_fits (tdiv a b) (tdiv-IsInt64 a b ha no_overflow))

  pub mod64_lem : mod64 a b ≡ ok (tmod a b)
  unfolding mod64
  mod64_lem = rw (ne_zero b hb, IsInt64→fits64 (tdiv a b) (tdiv-IsInt64 a b ha no_overflow))

  div_lem : div a b ≡ ok (tdiv a b)
  unfolding div
  div_lem = rw (ne_zero b hb) div64_lem

  rem_lem : rem a b ≡ ok (tmod a b)
  unfolding rem
  rem_lem = rw (ne_zero b hb) mod64_lem

  -- DIV and MOD of an `int64_t` by an operand, where the divisor is not 0 and the quotient does not overflow, push
  -- the quotient and the remainder: the remainder is smaller than the divisor, and lies between 0
  -- and the dividend.
  pub div_and_rem :
      (q : ℤ) × (r : ℤ) × (div a b ≡ ok q)
      × (rem a b ≡ ok r)
      × (q *ℤ b +ℤ r ≡ a)
      × (abs r < abs b)
      × (pos_part r ≤ pos_part a)
      × (neg_part r ≤ neg_part a)
  div_and_rem = (
    tdiv a b,
    tmod a b,
    div_lem,
    rem_lem,
    tdiv-tmod a b hb,
    abs-tmod-lt a b hb,
    (tmod_parts a b).0,
    (tmod_parts a b).1,
  )
