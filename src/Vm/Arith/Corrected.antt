-- ===== src/Vm/Arith/Corrected.antt =====
-- The branches of SDIV and SMOD for operands of different signs.
use manhattan_group.Base.{
  ℕ, zero, suc, ◌-◌, ◌/◌, ◌%◌, ◌^◌, ◌≤◌, ◌<◌, ◌≡◌, ◌≢◌, refl, sym, ◌∙◌, ap, true, false, arith, ltb,
  Bool-cases, inl, inr, ◌⊎◌,
}
use manhattan_group.Base.{
  ℤ, pos, negsuc, neg, tdiv, tmod, abs, pos_part, neg_part, ◌+ℤ◌, ◌-ℤ◌, ◌*ℤ◌,
}
use manhattan_group.Vm.Outcome.{ok, undefined}
use manhattan_group.Vm.Int64.{IsInt64, int64_min, checked, add64, sub64, mul64, neg64}
use manhattan_group.Vm.Int64.Range.{checked_fits, tmod-IsInt64, mod-le}
use manhattan_group.Vm.Arith.{sdiv_corrected, smod_corrected}
use manhattan_group.Vm.Arith.Division.{
  Overflows, tdiv-IsInt64, div64_lem, mod64_lem, tmod_parts, tdiv-tmod,
}

neg-neg : (a : ℤ) → neg (neg a) ≡ a
unfolding neg
neg-neg a = ground arith

tdiv-neg : (a b : ℤ) → tdiv (neg a) b ≡ neg (tdiv a b)
unfolding tdiv neg
tdiv-neg (pos zero) (pos b) = grind arith
tdiv-neg (pos zero) (negsuc b) = grind arith
tdiv-neg (pos (suc a)) (pos b) = ground arith
tdiv-neg (pos (suc a)) (negsuc b) = ground arith
tdiv-neg (negsuc a) (pos b) = ground arith
tdiv-neg (negsuc a) (negsuc b) = ground arith

div_multiple : (x d : ℕ) → (x - x % d) / d ≡ x / d
div_multiple x zero = grind arith
div_multiple x (suc d) = grind arith

tdiv_multiple : (x : ℕ) (b : ℤ) → tdiv (pos (x - x % abs b)) b ≡ tdiv (pos x) b
unfolding tdiv
tdiv_multiple x (pos b) = ap pos (div_multiple x b)
tdiv_multiple x (negsuc b) = rw (div_multiple x (suc b))

minus-tmod : (a b : ℤ) → tdiv (a -ℤ tmod a b) b ≡ tdiv a b
unfolding tmod
minus-tmod (pos x) b = rw (minus_pos x (x % abs b) (mod-le x (abs b))) (tdiv_multiple x b)
  where
    minus_pos : (x r : ℕ) → r ≤ x → pos x -ℤ pos r ≡ pos (x - r)
    minus_pos x r h = unfold ◌-ℤ◌ in ground arith
minus-tmod (negsuc x) b =
    rw (minus_neg x (suc x % abs b) (mod-le (suc x) (abs b)), tdiv-neg, tdiv_multiple (suc x) b)
      (sym (tdiv-neg (pos (suc x)) b) ∙ ap (λ z. tdiv z b) negated)
  where
    minus_neg : (x r : ℕ) → r ≤ suc x → negsuc x -ℤ neg (pos r) ≡ neg (pos (suc x - r))
    minus_neg x r h = unfold ◌-ℤ◌ neg in ground arith

    negated : neg (pos (suc x)) ≡ negsuc x
    negated = unfold neg in ground arith

-- What lies between 0 and an `int64_t` can be taken from it; if it is not 0, the result has an
-- opposite.
minus_part-IsInt64 :
    (a r : ℤ) → IsInt64 a → pos_part r ≤ pos_part a → neg_part r ≤ neg_part a → IsInt64 (a -ℤ r)
unfolding ◌-ℤ◌
minus_part-IsInt64 (pos a) (pos r) ha hp hn = ground arith
minus_part-IsInt64 (pos a) (negsuc r) ha hp hn = ground arith
minus_part-IsInt64 (negsuc a) (pos r) ha hp hn = ground arith
minus_part-IsInt64 (negsuc a) (negsuc r) ha hp hn = ground arith

minus_part-opposite :
    (a r : ℤ)
    → IsInt64 a
    → pos_part r ≤ pos_part a
    → neg_part r ≤ neg_part a
    → r ≢ pos 0
    → IsInt64 (neg (a -ℤ r))
unfolding ◌-ℤ◌ neg
minus_part-opposite (pos a) (pos r) ha hp hn hr = ground arith
minus_part-opposite (pos a) (negsuc r) ha hp hn hr = ground arith
minus_part-opposite (negsuc a) (pos r) ha hp hn hr = ground (arith, zero_or r)
  where
    zero_or : (n : ℕ) → (n ≡ 0) ⊎ (0 < n)
    zero_or n = omega arith
minus_part-opposite (negsuc a) (negsuc r) ha hp hn hr = ground arith

tmod_minus_one : (a : ℤ) → tmod a (negsuc 0) ≡ pos 0
unfolding tmod neg
tmod_minus_one (pos a) = ground arith
tmod_minus_one (negsuc a) = ground arith

module _ (a b : ℤ) (ha : IsInt64 a) (hb : b ≢ pos 0) (hr : tmod a b ≢ pos 0) where
  not_minus_one : (c : ℤ) → ¬ Overflows c b
  not_minus_one c o = hr (rw o.1 (tmod_minus_one a))

  difference-IsInt64 : IsInt64 (a -ℤ tmod a b)
  difference-IsInt64 = minus_part-IsInt64 a (tmod a b) ha (tmod_parts a b).0 (tmod_parts a b).1

  opposite-IsInt64 : IsInt64 (neg (a -ℤ tmod a b))
  opposite-IsInt64 = minus_part-opposite a (tmod a b) ha (tmod_parts a b).0 (tmod_parts a b).1 hr

  opposite_quotient : tdiv (neg (a -ℤ tmod a b)) b ≡ neg (tdiv a b)
  opposite_quotient = tdiv-neg (a -ℤ tmod a b) b ∙ ap neg (minus-tmod a b)

  -- The correction of SDIV gives the quotient that was there before.
  pub sdiv_corrected_lem : sdiv_corrected a b ≡ ok (tdiv a b)
  unfolding sdiv_corrected sub64 neg64
  sdiv_corrected_lem =
      rw
        (
          mod64_lem a b ha hb (not_minus_one a),
          checked_fits (a -ℤ tmod a b) difference-IsInt64,
          checked_fits (neg (a -ℤ tmod a b)) opposite-IsInt64,
          div64_lem (neg (a -ℤ tmod a b)) b opposite-IsInt64 hb (not_minus_one _),
          opposite_quotient,
          neg-neg (tdiv a b),
        )
        (checked_fits (tdiv a b) (tdiv-IsInt64 a b ha (not_minus_one a)))

mul-neg : (a b : ℤ) → neg a *ℤ b ≡ neg (a *ℤ b)
unfolding neg ◌*ℤ◌
mul-neg (pos zero) (pos b) = grind arith
mul-neg (pos zero) (negsuc b) = grind arith
mul-neg (pos (suc a)) (pos b) = grind arith
mul-neg (pos (suc a)) (negsuc b) = grind arith
mul-neg (negsuc a) (pos b) = grind arith
mul-neg (negsuc a) (negsuc b) = grind arith

minus_of_plus : (z r a : ℤ) → z +ℤ r ≡ a → z ≡ a -ℤ r
unfolding ◌+ℤ◌ ◌-ℤ◌
minus_of_plus z r a h = ground arith

opposite_plus : (a r : ℤ) → neg (a -ℤ r) +ℤ a ≡ r
unfolding ◌+ℤ◌ ◌-ℤ◌ neg
opposite_plus a r = ground arith

neg-IsInt64 : (a : ℤ) → IsInt64 a → a ≢ int64_min → IsInt64 (neg a)
unfolding neg
neg-IsInt64 (pos zero) h ne = omega arith
neg-IsInt64 (pos (suc a)) h ne = ground arith
neg-IsInt64 (negsuc a) h ne = least (Bool-cases (ltb (suc a) (2 ^ 63)))
  where
    least :
        (ltb (suc a) (2 ^ 63) ≡ true) ⊎ (ltb (suc a) (2 ^ 63) ≡ false) → IsInt64 (neg (negsuc a))
    least (inl e) = ground arith
    least (inr e) = absurd (ne (ap negsuc (let m : a ≡ 2 ^ 63 - 1 = ground arith in m)))

module _ (a b : ℤ) (ha : IsInt64 a) (hb : b ≢ pos 0) where
  overflow_at_least : a ≢ int64_min → ¬ Overflows a b
  overflow_at_least ne o = ne o.0

  product : neg (tdiv a b) *ℤ b ≡ neg (a -ℤ tmod a b)
  product =
      mul-neg (tdiv a b) b ∙ ap neg (minus_of_plus (tdiv a b *ℤ b) (tmod a b) a (tdiv-tmod a b hb))

  -- The correction of SMOD gives the remainder that was there before, if the dividend has an
  -- opposite.
  pub smod_corrected_lem : a ≢ int64_min → tmod a b ≢ pos 0 → smod_corrected a b ≡ ok (tmod a b)
  unfolding smod_corrected neg64 mul64 add64
  smod_corrected_lem ne hr =
      rw
        (
          checked_fits (neg a) (neg-IsInt64 a ha ne),
          div64_lem (neg a) b (neg-IsInt64 a ha ne) hb (not_minus_one a b ha hb hr (neg a)),
          tdiv-neg a b,
          product,
          checked_fits (neg (a -ℤ tmod a b)) (opposite-IsInt64 a b ha hb hr),
          opposite_plus a (tmod a b),
        )
        (checked_fits (tmod a b) (tmod-IsInt64 a b ha))

-- The least value has no opposite.
pub neg64_least : neg64 int64_min ≡ undefined
unfolding neg64 checked neg
neg64_least = refl
